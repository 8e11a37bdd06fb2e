-- ===== src/Dispatcher.antt =====
-- internal/dispatcher: forwarding, retries and the dead-letter queue.
pub mod Backoff
pub mod Allow
pub mod World
pub mod Send
pub mod Worker
pub mod Operated
