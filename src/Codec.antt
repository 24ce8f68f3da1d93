-- ===== src/Codec.antt =====
-- The encoders of src/common/utils.cpp, include/tradier/common/utils.hpp and src/auth.cpp.
pub mod Bytes
pub mod Base64
pub mod UrlEncode
