-- ===== src/Jobs/Leases.antt =====
-- A running job belongs to the worker that claimed it, until that worker has finished it.
use amz_command_center.Base.{
  Bool-cases, List, Option, Option-cases, String, [], arith, false, first_of, inl, inr, none, ok,
  opt_str_eq, raised, refl, select, select-update, some, str_eq, update_where, ℕ, ◌∷◌, ◌≡◌, ◌⊎◌,
}
use amz_command_center.Number.{ticks}
use amz_command_center.Json.{Members}
use amz_command_center.Jobs.Tables.{
  Job, JobRef, JobStatus, JobWorld, Reports, failed, is_status, no_running_job, succeeded,
}
use amz_command_center.Jobs.Defs.{or_default}
use amz_command_center.Jobs.Running.{
  claim_row, claimed, finish_job, finished, is_claimable, is_held,
}
use amz_command_center.Jobs.Change.{job_event-jobs}

module _ {W : Type 0} where
  -- Rows that a worker does not hold, and that it does not claim either.
  no_other_held :
      (tenant id a b : String) (now : ℕ) (jobs : List (Job W))
      → str_eq a b ≡ false
      → select (is_held tenant id b) jobs ≡ []
      → select (is_held tenant id b) (update_where (is_claimable tenant id) (claimed a now) jobs)
        ≡ []
  unfolding update_where is_status opt_str_eq
  no_other_held tenant id a b now [] d e = refl
  no_other_held tenant id a b now (j ∷ jobs) d e = elim (Bool-cases (is_held tenant id b j)) [
    | inl h ↦ ground arith
    | inr h ↦
        let rest = no_other_held tenant id a b now jobs d (ground arith) in
        elim (Bool-cases (is_claimable tenant id j)) [
          | inl c ↦ rw c (ground arith)
          | inr c ↦ rw c (ground arith)
        ]
  ]

  -- Once a worker has claimed a job, another whose query had returned the same job updates nothing
  -- and gets none; and while it held no job of this id before, it can neither succeed nor fail the
  -- job: the call raises.
  pub claim_row-exclusive :
      (w : JobWorld W) (tenant a b id : String) (now later : ℕ) (t : Reports W) {r : JobRef}
      {t' : Reports W}
      → claim_row w tenant a now id t ≡ ok (some r, t')
      → str_eq a b ≡ false
      → select (is_held tenant id b) t.jobs ≡ []
      → (claim_row w tenant b later id t' ≡ ok (none, t'))
        × ((target : JobStatus) (error : Option String) (at : Option ℕ) (m : Option (Members W))
            → finish_job w tenant id b target error at m t' ≡ raised no_running_job)
  unfolding claim_row finish_job
  claim_row-exclusive w tenant a b id now later t {r} {t'} e d none_held =
      elim (Option-cases (first_of (select (is_claimable tenant id) t.jobs))) [
        | inl u ↦ ground arith
        | inr (j, u) ↦
            let rows : t'.jobs ≡ update_where (is_claimable tenant id) (claimed a now) t.jobs =
              grind (arith, job_event-jobs) in
            let unclaimed : select (is_claimable tenant id) t'.jobs ≡ [] = rw rows (
              select-update (is_claimable tenant id) (is_claimable tenant id) (claimed a now) t.jobs
                (λ x c. ground arith) (λ x c. c)) in
            let unheld : select (is_held tenant id b) t'.jobs ≡ [] =
              rw rows (no_other_held tenant id a b now t.jobs d none_held) in
            (rw (claim_row, unclaimed) refl, λ target error at m. rw (finish_job, unheld) refl)
      ]

  -- A job is finished once: after its worker has succeeded or failed it, a further call of the same
  -- worker on it raises.
  pub finish_job_once :
      (w : JobWorld W) (tenant id worker : String) (target again : JobStatus)
      (error reason : Option String) (at late : Option ℕ) (m m' : Option (Members W))
      (t : Reports W) {r : JobRef} {t' : Reports W}
      → (target ≡ succeeded) ⊎ (target ≡ failed)
      → finish_job w tenant id worker target error at m t ≡ ok (r, t')
      → finish_job w tenant id worker again reason late m' t' ≡ raised no_running_job
  unfolding finish_job
  finish_job_once w tenant id worker target again error reason at late m m' t {r} {t'} d e =
      elim (Option-cases (first_of (select (is_held tenant id worker) t.jobs))) [
        | inl u ↦ ground arith
        | inr (j, u) ↦
            let rows : t'.jobs
                ≡ update_where (is_held tenant id worker)
                    (finished target (or_default w.clock at) error) t.jobs =
              grind (arith, job_event-jobs) in
            let unheld : select (is_held tenant id worker) t'.jobs ≡ [] = rw rows (
              select-update (is_held tenant id worker) (is_held tenant id worker) _ t.jobs
                (λ x c. ground arith) (λ x c. c)) in
            rw (finish_job, unheld) refl
      ]
