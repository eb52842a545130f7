-- ===== src/Settings.antt =====
-- The loader of a tenant's guardrail settings (services/rules/settings.py): a row whose columns are
-- looked up by name is checked column by column, and only the absence of the row gives the defaults.
mod Defs
pub mod Ranges
unfoldable pub use Defs.*
