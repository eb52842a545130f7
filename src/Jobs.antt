-- ===== src/Jobs.antt =====
-- The jobs of reports (services/reports/jobs.py): a job is enqueued, claimed by a worker, finished by
-- it and, if it failed, queued again a bounded number of times.
mod Tables
mod Defs
mod Running
mod Op
mod Invariant
mod Change
pub mod Guard
pub mod Leases
pub mod Requests
pub mod Claims
unfoldable pub use Tables.*
unfoldable pub use Defs.*
unfoldable pub use Running.*
unfoldable pub use Op.*
unfoldable pub use Change.*
unfoldable pub use Invariant.*
