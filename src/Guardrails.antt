-- ===== src/Guardrails.antt =====
-- The guardrails of a proposed change (services/rules/guardrails.py): clamping, bounds, and `check`,
-- which runs every guardrail in order. Money and ratios are a `Number`; moments are microseconds
-- and dates are day numbers on one scale, so that the date of a moment is `moment / day`. What the
-- notes say is their constructor.
mod Defs
mod Checks
pub mod Order
pub mod Limits
pub mod Diagnostics
unfoldable pub use Defs.*
unfoldable pub use Checks.*
