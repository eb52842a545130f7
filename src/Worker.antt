-- ===== src/Worker.antt =====
-- The worker that sends approved actions (services/actions/worker.py). The database is a record of
-- tables that each statement updates; a procedure returns the new tables or a fault, which is an
-- exception that no code of the worker catches. The provider is a client with a state of its own,
-- which survives a rollback of the database.
mod Defs
mod Procs
mod Applying
mod Batches
mod Runs
mod Ads
pub mod Sending
pub mod Readiness
pub mod Blocking
pub mod Checking
pub mod Budget
pub mod Accounting
pub mod Planning
pub mod Safety
pub mod Consent
unfoldable pub use Defs.*
unfoldable pub use Procs.*
unfoldable pub use Applying.*
unfoldable pub use Batches.*
unfoldable pub use Runs.*
unfoldable pub use Ads.*
