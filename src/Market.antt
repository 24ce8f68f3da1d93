-- ===== src/Market.antt =====
-- MarketService of include/tradier/market.hpp and src/market.cpp, with the parsers of
-- src/json/market.cpp.
pub mod Reading
pub mod Tables
pub mod Greeks
pub mod Quotes
pub mod Chains
pub mod Options
pub mod History
pub mod Days
pub mod Company
pub mod Actions
pub mod Ratios
pub mod Statements
pub mod Prices
pub mod Requests
pub mod Calls
pub mod Operations
pub mod Fundamentals
pub mod Items
pub mod Laws
pub mod Refused
pub mod Unset
