-- ===== src/Auth.antt =====
-- include/tradier/auth.hpp and src/auth.cpp: scopes, tokens, the cache of OAuth states, and the
-- authorization address. Points of time and durations are numbers of clock ticks.
pub mod Scopes
pub mod Tokens
pub mod States
pub mod Lookup
pub mod Authorize
pub mod Requests
pub mod Exchange
pub mod Redirect
pub mod TokenFile
