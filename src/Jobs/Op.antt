-- ===== src/Jobs/Op.antt =====
-- The calls on the report jobs as values: a call returns the tables after it, or raises.
use amz_command_center.Base.{Option, Result, String, ok, raised, ℕ}
use amz_command_center.Base.Int.{ℤ}
use amz_command_center.Number.{Number, ticks}
use amz_command_center.Json.{Members}
use amz_command_center.HumanControl.{TextCase}
use amz_command_center.Jobs.Tables.{JobError, JobWorld, Reports}
use amz_command_center.Jobs.Defs.{enqueue_job}
use amz_command_center.Jobs.Running.{claim_next_job, fail_job, retry_job, succeed_job}

-- The arguments of one call.
pub data JobOp (W : Type 0) : Type 0 where
  enqueue : String → ℕ → String → String → ℕ → ℕ → Option (Members W) → String → ℤ → JobOp W
  claim : String → Option ℕ → JobOp W
  succeed : String → String → Option (Members W) → JobOp W
  fail : String → String → String → JobOp W
  retry : String → String → Option ℕ → JobOp W

abbrev pub tables_of :
    {W A : Type 0} → Result JobError (A × Reports W) → Result JobError (Reports W)
tables_of (raised e) = raised e
tables_of (ok (r, t)) = ok t

unfoldable pub perform_job :
    {W : Type 0} ⦃n : Number W⦄ ⦃c : TextCase⦄
    → JobWorld W
    → String
    → JobOp W
    → Reports W
    → Result JobError (Reports W)
unfolding claim_next_job enqueue_job fail_job retry_job succeed_job
perform_job w tenant (enqueue code version by key date_from date_to filters format attempts) t =
    tables_of (enqueue_job w tenant code version by key date_from date_to filters format attempts t)
perform_job w tenant (claim worker at) t = tables_of (claim_next_job w tenant worker at t)
perform_job w tenant (succeed id worker metadata) t =
    tables_of (succeed_job w tenant id worker metadata t)
perform_job w tenant (fail id worker error) t = tables_of (fail_job w tenant id worker error t)
perform_job w tenant (retry id actor next) t = tables_of (retry_job w tenant id actor next t)
