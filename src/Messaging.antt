-- ===== src/Messaging.antt =====
-- libs/sentinel/messaging: the idempotency cache, the retry policy and the in-process event bus.
pub mod Cache
pub mod Window
pub mod Retry
pub mod Bus
pub mod Delivery
pub mod Redelivery
pub mod Fanout
