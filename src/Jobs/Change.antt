-- ===== src/Jobs/Change.antt =====
-- What one call does to the rows of report_job, as a step relation.
use mathlib.Core.Path.{subst}
use amz_command_center.Base.{
  >>=-eq-ok, Bool-cases, List, Option, Option-cases, Result, String, arith, best, exists, false,
  first_of, inl, inr, is_blank, leb, none, ok, raise_if, raised, refl, select, some, str_eq,
  str_eq_iff, sym, true, update_where, ℕ, ◌&&◌, ◌||◌, ◌∷◌, ◌≡◌, ◌⊎◌,
}
use amz_command_center.Base.Int.{ltb_ℤ, negsuc, pos, pos_part, ℤ}
use amz_command_center.Number.{Number, ticks}
use amz_command_center.Json.{Members}
use amz_command_center.HumanControl.{TextCase}
use amz_command_center.Jobs.Tables.{
  Definition, Job, JobError, JobEvent, JobRef, JobStatus, JobWorld, Reports, Scope, error_required,
  failed, queued, succeeded,
}
use amz_command_center.Jobs.Defs.{
  enqueue_job, has_key, insert_job, is_definition, job_event, new_job, or_default, same_event,
  scope_of,
}
use amz_command_center.Jobs.Running.{
  claim_next_job, claim_row, claimed, fail_job, finish_job, finished, is_claimable, is_due_job,
  is_held, is_retryable, job_before, requeued, retry_job, succeed_job,
}
use amz_command_center.Jobs.Op.{JobOp, claim, enqueue, fail, perform_job, retry, succeed, tables_of}
use amz_command_center.Jobs.Invariant.{IsSound, fits_scope, is_sound}

-- A new job: nothing has been tried, and the request has passed its checks, by what is known of the
-- texts.
abbrev pub IsNew : {W : Type 0} → Type 0 → Job W → Type 0
IsNew known j = (known → IsSound j) × (j.status ≡ queued) × (j.attempt ≡ 0)

-- `str.strip` leaves nothing of a text of spaces.
abbrev pub Strips : TextCase → Type 0
Strips c = (s : String) → is_blank s ≡ true → c.strip s ≡ ""

pub data Change {W : Type 0} (known : Type 0) (tenant : String)
    : List (Job W) → List (Job W) → Type 0 where
  unchanged : (jobs : List (Job W)) → Change known tenant jobs jobs
  inserted : (j : Job W) (jobs : List (Job W)) → IsNew known j → Change known tenant jobs (j ∷ jobs)
  claimed_by :
      (id worker : String) (now : ℕ) (jobs : List (Job W))
      → Change known tenant jobs (update_where (is_claimable tenant id) (claimed worker now) jobs)
  finished_by :
      (id worker : String) (target : JobStatus) (now : ℕ) (error : Option String)
      (jobs : List (Job W))
      → (target ≡ succeeded) ⊎ (target ≡ failed)
      → Change known tenant jobs
          (update_where (is_held tenant id worker) (finished target now error) jobs)
  requeued_by :
      (id : String) (at : ℕ) (jobs : List (Job W))
      → Change known tenant jobs (update_where (is_retryable tenant id) (requeued at) jobs)

returned :
    {W A : Type 0} (m : Result JobError (A × Reports W)) {t' : Reports W}
    → tables_of m ≡ ok t'
    → (r : A) × (m ≡ ok (r, t'))
returned (raised e) q = cc
returned (ok (r, t)) q = (r, ground arith)

module _ {W : Type 0} where
  pub job_event-jobs : (e : JobEvent W) (t : Reports W) → (job_event e t).jobs ≡ t.jobs
  unfolding job_event
  job_event-jobs e t = elim (Bool-cases (exists (same_event e) t.events)) [
    | inl h ↦ rw h refl
    | inr h ↦ rw h refl
  ]

module _ {W : Type 0} {known : Type 0} where
  by_rows :
      {tenant : String} (t t' : Reports W) {after : List (Job W)}
      → Change known tenant t.jobs after
      → t'.jobs ≡ after
      → Change known tenant t.jobs t'.jobs
  by_rows {tenant} t t' c e = subst (Change known tenant t.jobs) (sym e) c

  claim-Change :
      (w : JobWorld W) (tenant worker : String) (at : Option ℕ) (t : Reports W) {r : Option JobRef}
      {t' : Reports W}
      → claim_next_job w tenant worker at t ≡ ok (r, t')
      → Change known tenant t.jobs t'.jobs
  unfolding claim_next_job claim_row
  claim-Change w tenant worker at t {r} {t'} e =
      elim (Option-cases
        (best job_before (select (is_due_job w tenant (or_default w.clock at)) t.jobs))) [
          | inl u ↦ by_rows t t' (unchanged t.jobs) (ground arith)
          | inr (j, u) ↦ elim (Option-cases (first_of (select (is_claimable tenant j.id) t.jobs))) [
            | inl v ↦ by_rows t t' (unchanged t.jobs) (ground arith)
            | inr (k, v) ↦
                by_rows t t' (claimed_by j.id worker (or_default w.clock at) t.jobs)
                  (grind (arith, job_event-jobs))
          ]
        ]

  finish-Change :
      (w : JobWorld W) (tenant id worker : String) (target : JobStatus) (error : Option String)
      (at : Option ℕ) (metadata : Option (Members W)) (t : Reports W) (r : JobRef) (t' : Reports W)
      → (target ≡ succeeded) ⊎ (target ≡ failed)
      → finish_job w tenant id worker target error at metadata t ≡ ok (r, t')
      → Change known tenant t.jobs t'.jobs
  unfolding finish_job
  finish-Change w tenant id worker target error at metadata t r t' d e =
      elim (Option-cases (first_of (select (is_held tenant id worker) t.jobs))) [
        | inl u ↦ ground arith
        | inr (j, u) ↦
            by_rows t t' (finished_by id worker target (or_default w.clock at) error t.jobs d)
              (grind (arith, job_event-jobs))
      ]

  retry-Change :
      (w : JobWorld W) (tenant id actor : String) (next : Option ℕ) (t : Reports W) {r : JobRef}
      {t' : Reports W}
      → retry_job w tenant id actor next t ≡ ok (r, t')
      → Change known tenant t.jobs t'.jobs
  unfolding retry_job
  retry-Change w tenant id actor next t {r} {t'} e =
      elim (Option-cases (first_of (select (is_retryable tenant id) t.jobs))) [
        | inl u ↦ ground arith
        | inr (j, u) ↦
            by_rows t t' (requeued_by id (or_default w.clock next) t.jobs)
              (grind (arith, job_event-jobs))
      ]

attempts-fit :
    (k : ℤ)
    → (ltb_ℤ k (pos 1) || ltb_ℤ (pos 10) k) ≡ false
    → (leb 1 (pos_part k) && leb (pos_part k) 10) ≡ true
attempts-fit (pos k) e = ground arith
attempts-fit (negsuc k) e = ground arith

module _ {W : Type 0} ⦃n : Number W⦄ where
  -- The row is stored as asked for, or it was there.
  insert-Change :
      ⦃c : TextCase⦄ (w : JobWorld W) (tenant key : String) (scope : Scope W) (d : Definition W)
      (t : Reports W) (r : JobRef) (t' : Reports W)
      → fits_scope scope ≡ true
      → str_eq (c.strip key) "" ≡ false
      → insert_job w tenant key scope d t ≡ ok (r, t')
      → Change (Strips c) tenant t.jobs t'.jobs
  unfolding insert_job is_sound
  insert-Change ⦃c⦄ w tenant key scope d t r t' h keyed e =
      elim (Option-cases (first_of (select (has_key tenant key) t.jobs))) [
        | inl u ↦
            by_rows t t'
              (inserted (new_job w tenant key scope d t.jobs) t.jobs
                (λ known. not_blank known, refl, refl))
              (grind (arith, job_event-jobs))
        | inr (j, u) ↦ by_rows t t' (unchanged t.jobs) (ground arith)
      ]
    where
      not_blank : Strips c → IsSound (new_job w tenant key scope d t.jobs)
      not_blank known = elim (Bool-cases (is_blank key)) [
        | inl b ↦ absurd (ground (arith, known key b, keyed, str_eq_iff (c.strip key) ""))
        | inr b ↦ ground (arith, b, h)
      ]

  enqueue-Change :
      ⦃c : TextCase⦄ (w : JobWorld W) (tenant code : String) (version : ℕ)
      (requested_by key : String) (date_from date_to : ℕ) (filters : Option (Members W))
      (format : String) (attempts : ℤ) (t : Reports W) {r : JobRef} {t' : Reports W}
      → enqueue_job w tenant code version requested_by key date_from date_to filters format attempts
          t
        ≡ ok (r, t')
      → Change (Strips c) tenant t.jobs t'.jobs
  unfolding enqueue_job
  enqueue-Change ⦃c⦄ w tenant code version by key date_from date_to filters format attempts t {r}
        {t'} e =
      elim (Bool-cases (ltb_ℤ attempts (pos 1) || ltb_ℤ (pos 10) attempts)) [
        | inl b ↦ ground arith
        | inr b ↦
            elim (Option-cases
              (first_of (select (is_definition tenant code version) t.definitions))) [
                | inl u ↦ ground arith
                | inr (d, u) ↦
                    insert-Change w tenant key
                      (scope_of code version by date_from date_to filters format attempts) d t r t'
                      (ground (arith, attempts-fit attempts b)) (ground arith) (ground arith)
              ]
      ]

  pub perform-Change :
      ⦃c : TextCase⦄ (w : JobWorld W) (tenant : String) (op : JobOp W) (t : Reports W)
      {t' : Reports W}
      → perform_job w tenant op t ≡ ok t'
      → Change (Strips c) tenant t.jobs t'.jobs
  unfolding perform_job succeed_job fail_job
  perform-Change w tenant (enqueue code version by key date_from date_to filters format attempts) t
        e =
      enqueue-Change w tenant code version by key date_from date_to filters format attempts t
        (returned _ e).1
  perform-Change w tenant (claim worker at) t e = claim-Change w tenant worker at t (returned _ e).1
  perform-Change w tenant (succeed id worker metadata) t e =
      finish-Change w tenant id worker succeeded none none metadata t (returned _ e).0 _ (inl refl)
        (returned _ e).1
  perform-Change ⦃c⦄ w tenant (fail id worker error) t e =
      let (r, q) = returned _ e in
      let (_, _, ended) = >>=-eq-ok (raise_if (str_eq (c.strip error) "") error_required) _ q in
      finish-Change w tenant id worker failed (some error) none none t r _ (inr refl) ended
  perform-Change w tenant (retry id actor next) t e =
      retry-Change w tenant id actor next t (returned _ e).1
