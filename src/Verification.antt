-- ===== src/Verification.antt =====
-- What an applied action has done to its entity (services/actions/verification.py): the windows of
-- performance before and after it, the verdict, the evidence of each horizon and the scorecard.
mod Windows
mod Snapshots
mod Scorecard
pub mod Final
pub mod Unscored
pub mod Verdict
unfoldable pub use Windows.*
unfoldable pub use Snapshots.*
unfoldable pub use Scorecard.*
