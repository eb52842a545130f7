-- ===== src/Config.antt =====
-- The effective configuration of a tenant (services/config/inheritance.py).
mod Tables
mod Defs
mod Overrides
pub mod Caps
pub mod Guards
pub mod Published
unfoldable pub use Tables.*
unfoldable pub use Defs.*
unfoldable pub use Overrides.*
