-- ===== src/Tests.antt =====
-- The theorems at concrete inputs, by subject.
pub mod Documents
pub mod Results
pub mod Codecs
pub mod Settings
pub mod Requests
pub mod Retries
pub mod Limits
pub mod Accounts
pub mod Pools
pub mod Promises
pub mod Markets
pub mod Orders
pub mod Auth
pub mod Tokens
pub mod Simd
pub mod Logs
pub mod Streams
pub mod Sockets
