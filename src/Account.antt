-- ===== src/Account.antt =====
-- AccountService of include/tradier/account.hpp, src/account.cpp and src/json/account.cpp.
pub mod Types
pub mod Parsers
pub mod Answers
pub mod Operations
pub mod Ensured
pub mod Balances
pub mod Unread
