-- ===== src/Delivery.antt =====
-- The delivery of a notification by an outside channel (services/notifications/delivery.py).
mod Tables
mod Defs
pub mod Retries
pub mod Once
unfoldable pub use Tables.*
unfoldable pub use Defs.*
