-- ===== src/Streaming.antt =====
-- include/tradier/streaming.hpp and src/streaming.cpp: StreamingService, its events, its session, its
-- threads and its subscriptions.
pub mod Events
pub mod Messages
pub mod Filtering
pub mod Delivery
pub mod Counting
pub mod Threads
pub mod Symbols
pub mod Session
pub mod Connection
pub mod Subscriptions
pub mod Lifecycle
pub mod Calls
pub mod Heartbeats
pub mod Heartbeat
pub mod Keeping
pub mod Sending
