-- ===== src/Tests.antt =====
-- The properties at concrete inputs.
mod StateMachine
mod Guardrails
mod HumanControl
mod Settings
mod Audit
mod ApplyGuardrails
mod Worker
mod Retry
mod Policy
mod Protections
mod Jobs
mod Verification
mod Scheduler
mod Cogs
mod Delivery
mod Config
mod Freshness
mod Harvest
mod Lifecycle
