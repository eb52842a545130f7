-- ===== src/Freshness.antt =====
-- The freshness of the sources of a rule (services/rules/freshness.py), resolved from the rows that the
-- loads leave: a watermark for each dataset and the run of it that was started last.
mod Defs
pub mod Usable
unfoldable pub use Defs.*
