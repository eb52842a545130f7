-- ===== src/Lifecycle.antt =====
-- The isolation of promoted search terms and the revival of dormant keywords
-- (services/rules/isolation_revive.py).
mod Defs
mod Isolation
mod Revive
mod Run
mod Families
mod Stored
mod Proposed
mod Returned
pub mod Once
pub mod Bids
pub mod Fresh
pub mod Gated
unfoldable pub use Defs.*
unfoldable pub use Isolation.*
unfoldable pub use Revive.*
unfoldable pub use Run.*
unfoldable pub use Families.*
