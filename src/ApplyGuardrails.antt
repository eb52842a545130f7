-- ===== src/ApplyGuardrails.antt =====
-- The guardrails once more, right before a change is sent (services/actions/apply_guardrails.py):
-- the evidence that was stored with the proposal is read back, `check` runs on it under the current
-- settings, and an approved target is sent as it was approved or not at all.
mod Defs
pub mod Sound
unfoldable pub use Defs.*
