-- ===== src/HumanControl.antt =====
-- Human ownership of an entity (services/actions/human_control.py), over the two tables of
-- packages/db/migrations/0050_human_override_lifecycle.sql. A query is a selection from the rows of
-- a table and the first of them in its order.
mod Defs
pub mod Ownership
unfoldable pub use Defs.*
