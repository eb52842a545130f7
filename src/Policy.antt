-- ===== src/Policy.antt =====
-- The policy of notification deliveries (services/notifications/policy.py): the preference of a
-- route, its quiet hours, and the verdict on one delivery.
mod Defs
pub mod Delivery
unfoldable pub use Defs.*
