-- ===== src/Trading.antt =====
-- include/tradier/trading.hpp and src/trading.cpp: the orders, the forms they are sent as, and the
-- operations of TradingService.
pub mod Orders
pub mod Requests
pub mod Parsers
pub mod Operations
pub mod Preview
pub mod Forms
pub mod Legs
pub mod Checks
pub mod Options
