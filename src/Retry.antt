-- ===== src/Retry.antt =====
-- The release of failed actions for another review (services/actions/retry.py): due retries, and the
-- replay of a dead letter by an owner or admin.
mod Defs
pub mod Release
pub mod Replay
unfoldable pub use Defs.*
