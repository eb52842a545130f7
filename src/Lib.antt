-- ===== src/Lib.antt =====
-- The part of the command center that decides on changes to advertising and sends them: the rules'
-- guardrails, the state machine of an action, the ownership of an entity by people, and the worker
-- that sends approved actions to the provider.
--
-- How the parts work together. A rule's proposal is checked by `check` of services/rules/guardrails.py
-- against the tenant's settings (services/rules/settings.py). It becomes an action, which a person
-- approves or rejects (services/actions/state_machine.py). The worker (services/actions/worker.py)
-- fetches approved actions; it asks `active_control` (services/actions/human_control.py) whether
-- automation may touch the entity, runs the guardrails again on the evidence of the day
-- (services/actions/apply_guardrails.py), sends what is left, and records each step in a journal
-- (services/actions/audit.py).
--
-- The files. Base has what the modules share: results of calls that raise, lists and their queries,
-- integers. Number has Python's floats as a parameter with the order laws that proofs use, and an
-- instance that meets them; Json has the values of a jsonb column. StateMachine, Guardrails,
-- HumanControl, Settings, ApplyGuardrails, Audit and Worker model the file of their name, with the
-- definitions in Defs and the theorems in modules named for what they prove. The operations keep the
-- names of the functions; a message is a constructor of an error type, so that a refusal is told
-- apart by its cause and not by its text. Worker.Procs has the statements on the tables,
-- Worker.Applying one action, Worker.Ads the live client (over Capabilities, which is
-- packages/shared/action_capabilities.py),
-- Worker.Batches the checks of a batch and Worker.Runs `run_once`, whose steps are functions of
-- their own: the plan (`plan_run`), the loop (`send_all`) and the end.
--
-- Beside the worker stand Retry (services/actions/retry.py), which returns failed actions to the people
-- who review them, Policy (services/notifications/policy.py), which says when a notification of a
-- failure may be delivered, and Protections (services/rules/protections.py), which holds back
-- destructive actions that a rule proposes.
--
-- Before the guardrails, Freshness (services/rules/freshness.py) says whether the sources of a rule may
-- be used. Harvest (services/rules/harvest.py) plans where a search term is promoted to: Terms has its
-- brand class and source, Routes the choice of a route, Plans the plan, Lineages its record and Planned
-- the lemmas on its brand classes. Lifecycle
-- (services/rules/isolation_revive.py) follows a promotion: Isolation decides on a negative in the
-- source, Revive on a dormant keyword's return; Run stores the findings in a table with checks, and
-- Families gates both on the freshness of their sources.
--
-- Where the database refuses a row that an operation writes, the operation raises: a second open
-- change of an entity (Retry), a lineage (Harvest) and a recommendation (Lifecycle). The foreign keys
-- are not written out, since the rows that they point to have been read.
--
-- After the worker, Verification (services/actions/verification.py) measures what a change has done,
-- from the marts by day: Windows has the queries and the verdict, Snapshots the evidence of each
-- horizon, Scorecard the verdict's storage and the run. Its json.dumps, which refuses a date, is
-- written out as an error.
--
-- Delivery (services/notifications/delivery.py) records the attempts to deliver a notification and the
-- provider's callbacks.
--
-- Config (services/config/inheritance.py) merges the definitions of settings and a tenant's
-- overrides into the effective values, with their caps (Defs), and publishes those overrides
-- (Overrides).
--
-- Three services stand apart from the actions. Jobs (services/reports/jobs.py) has the life of a
-- report job: Tables the rows, Defs the request and Running the life of a job, Op a call as a value,
-- Change what a call does to the rows as a step relation, and Guard the checks and the transition
-- trigger of packages/db/migrations/0032_report_job_core.sql. Scheduler
-- (services/scheduler/runner.py) has the days that a dataset has missed (CatchUp) and the alerts on
-- its last runs (Alerts). Cogs (services/economics/batch_cogs.py) allocates sales to batches;
-- Decimal is there the same parameter as the floats elsewhere, and what FIFO needs of its
-- subtraction is the hypothesis IsExact.
--
-- State. The tables are a record that a procedure takes and returns; an exception that the worker does
-- not catch is a fault, and `run_once` then gives back the tables of its start. The provider has a
-- state of any type, which a client's calls change and a rollback does not restore.
--
-- Dates are days from the calendar's first; a subtraction that would pass it raises, but for the lag
-- of a settlement, which stops there.
--
-- Bounds. Times are microseconds since an epoch and counts that the code has checked are natural
-- numbers; where the code's difference may be negative the model writes out what the comparison then
-- gives. Every loop goes through a list, so that no fuel is needed.
--
-- What is given from outside, as parameters: floats and their parsing, `str` of a dict, `lower` and
-- `strip`, `fromisoformat`, the regular expression for secrets, the clock, the query of
-- `load_apply_evidence` over tables of other parts, the database's sums of amounts, the queries on
-- the marts, the rows that other transactions have locked, and the client of the provider.
--
-- Not modelled: the load of the provider's credentials, the command lines, the loop of the
-- rule engine and its compiler of conditions to SQL, the ingest and the rendering of reports, the routing of notifications, the
-- copilot, the web application and the other services.
pub mod Base
pub mod Number
pub mod Json
pub mod StateMachine
pub mod Freshness
pub mod Guardrails
pub mod Harvest
pub mod HumanControl
pub mod Settings
pub mod ApplyGuardrails
pub mod Audit
pub mod Capabilities
pub mod Protections
pub mod Lifecycle
pub mod Jobs
pub mod Verification
pub mod Scheduler
pub mod Cogs
pub mod Delivery
pub mod Config
pub mod Worker
pub mod Policy
pub mod Retry
mod Samples
mod Tests
