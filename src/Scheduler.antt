-- ===== src/Scheduler.antt =====
-- The scheduler (services/scheduler/runner.py): the days that a dataset has missed, and the alerts on
-- the last runs.
mod CatchUp
mod Alerts
pub mod Missing
pub mod Open
unfoldable pub use CatchUp.*
unfoldable pub use Alerts.*
