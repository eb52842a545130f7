-- ===== src/Protections.antt =====
-- The tenant's protections against destructive automation (services/rules/protections.py).
mod Defs
pub mod Blocking
unfoldable pub use Defs.*
