-- ===== src/Delivery.antt =====
-- audit/client.go and notify/client.go: the clients that queue events, gather them into batches
-- and send these from background workers.
pub mod Client
pub mod Flow
pub mod Dispatch
pub mod Workers
pub mod Reachable
pub mod Drain
pub mod Notify
pub mod Tests
