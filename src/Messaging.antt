-- ===== src/Messaging.antt =====
-- The message bus: src/libranet/messaging/.
pub mod Dispatcher
pub mod Order
