-- ===== src/Audit.antt =====
-- The append-only journal of executions (services/actions/audit.py): events, their insertion once
-- for each dedupe key, and the redaction of what is stored.
mod Defs
pub mod Redaction
pub mod Journal
unfoldable pub use Defs.*
