-- ===== src/Jobs/Requests.antt =====
-- What a repeated request of a report finds: its idempotency key is bound to one job.
use text.Mathlib.TextPositions.{eq_refl}
use amz_command_center.Base.{
  Option, Option-cases, String, arith, false, first_of, inl, inr, ok, refl, select, some, sym, true,
  ℕ, ◌∙◌, ◌≡◌, ◌⊎◌,
}
use amz_command_center.Base.Int.{ℤ}
use amz_command_center.Number.{Number, ticks}
use amz_command_center.Json.{Members, dict_eq, or_empty}
use amz_command_center.HumanControl.{TextCase}
use amz_command_center.Jobs.Tables.{Definition, Job, JobRef, JobWorld, Reports, Scope}
use amz_command_center.Jobs.Defs.{
  enqueue_job, has_key, insert_job, is_definition, job_event, new_job, ref_of, same_scope, scope_of,
}
use amz_command_center.Jobs.Change.{job_event-jobs}

module _ {W : Type 0} ⦃n : Number W⦄ where
  -- The job of a key was asked for with this scope, or with one that compares equal.
  abbrev pub IsBound : Scope W → Job W → Type 0
  IsBound scope j = (j.scope ≡ scope) ⊎ (same_scope j.scope scope ≡ true)

  insert_job-IsBound :
      (w : JobWorld W) (tenant key : String) (scope : Scope W) (d : Definition W) (t : Reports W)
      {r : JobRef} {t' : Reports W}
      → insert_job w tenant key scope d t ≡ ok (r, t')
      → (j : Job W) × (first_of (select (has_key tenant key) t'.jobs) ≡ some j)
        × IsBound scope j
        × (record r { is_created = false } ≡ ref_of j false)
        × (t'.definitions ≡ t.definitions)
  unfolding insert_job job_event
  insert_job-IsBound w tenant key scope d t {r} {t'} e =
      elim (Option-cases (first_of (select (has_key tenant key) t.jobs))) [
        | inl u ↦
            let j = new_job w tenant key scope d t.jobs in
            (
              j,
              grind (arith, job_event-jobs, eq_refl tenant, eq_refl key),
              inl refl,
              ground arith,
              ground arith,
            )
        | inr (j, u) ↦ (j, ground arith, inr (ground arith), ground arith, ground arith)
      ]

  -- An enqueue that returns passed its checks, which read neither the jobs nor the world: what it
  -- does on the same definitions is its insertion.
  enqueue_job-passes :
      ⦃c : TextCase⦄ (w : JobWorld W) (tenant code : String) (version : ℕ)
      (requested_by key : String) (date_from date_to : ℕ) (filters : Option (Members W))
      (format : String) (attempts : ℤ) (t : Reports W) {r : JobRef} {t' : Reports W}
      → enqueue_job w tenant code version requested_by key date_from date_to filters format attempts
          t
        ≡ ok (r, t')
      → (d : Definition W) × ((v : JobWorld W) (u : Reports W)
          → u.definitions ≡ t.definitions
          → enqueue_job v tenant code version requested_by key date_from date_to filters format
              attempts u
            ≡ insert_job v tenant key
                (scope_of code version requested_by date_from date_to filters format attempts)
                d
                u)
  unfolding enqueue_job
  enqueue_job-passes ⦃c⦄ w tenant code version by key date_from date_to filters format attempts t
        e =
      elim (Option-cases (first_of (select (is_definition tenant code version) t.definitions))) [
        | inl b ↦ ground arith
        | inr (d, b) ↦ (d, λ v u q. ground arith)
      ]

  found_again :
      (w : JobWorld W) (tenant key : String) (scope : Scope W) (d : Definition W) (t : Reports W)
      {j : Job W} {r : JobRef}
      → first_of (select (has_key tenant key) t.jobs) ≡ some j
      → same_scope j.scope scope ≡ true
      → r ≡ ref_of j false
      → insert_job w tenant key scope d t ≡ ok (r, t)
  unfolding insert_job
  found_again w tenant key scope d t {j} e same q = rw (insert_job, q, e, same) refl

  same_scope_refl : (s : Scope W) → dict_eq s.filters s.filters ≡ true → same_scope s s ≡ true
  unfolding same_scope
  same_scope_refl s e =
      ground (arith, e, eq_refl s.definition_code, eq_refl s.requested_by, eq_refl s.output_format)

  compares :
      (j : Job W) (s : Scope W)
      → dict_eq s.filters s.filters ≡ true
      → IsBound s j
      → same_scope j.scope s ≡ true
  compares j s e (inl q) = rw q (same_scope_refl s e)
  compares j s e (inr q) = q

  -- The same request again, after one that returned, creates nothing: it leaves the tables and
  -- returns the same job, when the filters compare equal to themselves.
  pub enqueue_job-again :
      ⦃c : TextCase⦄ (w later : JobWorld W) (tenant code : String) (version : ℕ)
      (requested_by key : String) (date_from date_to : ℕ) (filters : Option (Members W))
      (format : String) (attempts : ℤ) (t : Reports W) {r : JobRef} {t' : Reports W}
      → dict_eq (or_empty filters) (or_empty filters) ≡ true
      → enqueue_job w tenant code version requested_by key date_from date_to filters format attempts
          t
        ≡ ok (r, t')
      → enqueue_job later tenant code version requested_by key date_from date_to filters format
          attempts t'
        ≡ ok (record r { is_created = false }, t')
  enqueue_job-again ⦃c⦄ w later tenant code version by key date_from date_to filters format attempts
        t {r} {t'} refl_filters e =
      let asked = scope_of code version by date_from date_to filters format attempts in
      let (d, passes) =
        enqueue_job-passes w tenant code version by key date_from date_to filters format attempts t
          e in
      let (j, found, bound, same_ref, kept) =
        insert_job-IsBound w tenant key asked d t (sym (passes w t refl) ∙ e) in
      passes later t' kept
      ∙ found_again later tenant key asked d t' found (compares j asked refl_filters bound) same_ref

  -- When a request has returned, another of its key that returns changes nothing and is about the
  -- same job, whose scope is, or compares equal to, what either asked for.
  pub enqueue_job-one_scope :
      ⦃c : TextCase⦄ (w later : JobWorld W) (tenant key : String) (code code' : String)
      (version version' : ℕ) (requested_by requested_by' : String)
      (date_from date_to date_from' date_to' : ℕ) (filters filters' : Option (Members W))
      (format format' : String) (attempts attempts' : ℤ) (t : Reports W) {r r' : JobRef}
      {t' t'' : Reports W}
      → enqueue_job w tenant code version requested_by key date_from date_to filters format attempts
          t
        ≡ ok (r, t')
      → enqueue_job later tenant code' version' requested_by' key date_from' date_to' filters'
          format' attempts' t'
        ≡ ok (r', t'')
      → (j : Job W) × IsBound
          (scope_of code version requested_by date_from date_to filters format attempts)
          j
        × IsBound
            (scope_of code' version' requested_by' date_from' date_to' filters' format' attempts')
            j
        × (r' ≡ record r { is_created = false })
        × (t'' ≡ t')
  unfolding insert_job
  enqueue_job-one_scope w later tenant key code code' version version' by by' date_from date_to
        date_from' date_to' filters filters' format format' attempts attempts' t {t' = t'} e f =
      let (d, passes) =
        enqueue_job-passes w tenant code version by key date_from date_to filters format attempts t
          e in
      let (d', passes') =
        enqueue_job-passes later tenant code' version' by' key date_from' date_to' filters' format'
          attempts' t' f in
      let (j, found, bound, same_ref, _) =
        insert_job-IsBound w tenant key
          (scope_of code version by date_from date_to filters format attempts) d t
          (sym (passes w t refl) ∙ e) in
      let again = sym (passes' later t' refl) ∙ f in
      (j, bound, inr (ground arith), ground arith, ground arith)
