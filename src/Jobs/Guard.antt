-- ===== src/Jobs/Guard.antt =====
-- What sequences of calls keep of the rows, and the trigger enforce_report_job_transition
-- (packages/db/migrations/0032_report_job_core.sql) on their updates.
use amz_command_center.Base.{
  All, Bool, Bool-cases, List, Result, String, [], arith, false, if◌then◌else◌, inl, inr, ltb, not,
  ok, raised, refl, true, update-All, update_where, ◌&&◌, ◌+◌, ◌==◌, ◌||◌, ◌∷◌, ◌≡◌, ◌⊎◌,
}
use amz_command_center.Number.{Number, ticks}
use amz_command_center.HumanControl.{TextCase}
use amz_command_center.Jobs.Tables.{
  Job, JobError, JobStatus, JobWorld, Reports, canceled, failed, is_status, queued, running,
  succeeded,
}
use amz_command_center.Jobs.Op.{JobOp, perform_job}
use amz_command_center.Jobs.Invariant.{
  IsSound, claimed-IsSound, finished-IsSound, is_status-eq, requeued-IsSound,
}
use amz_command_center.Jobs.Change.{
  Change, Strips, inserted, perform-Change, unchanged, claimed_by, finished_by, requeued_by,
}

abbrev pub is_immutable : JobStatus → Bool
is_immutable succeeded = true
is_immutable canceled = true
is_immutable _ = false

-- The moves of a status that the trigger lets through, with `old.attempt < old.max_attempts`.
abbrev pub may_become : JobStatus → JobStatus → Bool → Bool
may_become queued running is_left = true
may_become queued canceled is_left = true
may_become running succeeded is_left = true
may_become running failed is_left = true
may_become failed queued is_left = is_left
may_become _ _ is_left = false

abbrev pub or_rolled_back : {A : Type 0} → A → Result JobError A → A
or_rolled_back t (raised e) = t
or_rolled_back t (ok t') = t'

module _ {W : Type 0} where
  -- The second half of the trigger: it raises nothing on the status and the number of attempts.
  unfoldable pub accepts_move : Job W → Job W → Bool
  unfolding is_status
  accepts_move old new =
      not (is_immutable old.status)
      && (is_status new.status old.status
          || may_become old.status new.status (ltb old.attempt old.scope.max_attempts))
      && (if is_status old.status queued && is_status new.status running
          then new.attempt == old.attempt + 1
          else new.attempt == old.attempt)

  -- The first half: the request is immutable.
  abbrev pub HasSameRequest : Job W → Job W → Type 0
  HasSameRequest old new =
      (new.tenant_id ≡ old.tenant_id)
      × (new.definition_id ≡ old.definition_id)
      × (new.definition_snapshot ≡ old.definition_snapshot)
      × (new.idempotency_key ≡ old.idempotency_key)
      × (new.scope ≡ old.scope)

  -- Row for row: as it was, or updated as the trigger accepts.
  abbrev pub Evolves : List (Job W) → List (Job W) → Type 0
  Evolves [] [] = Unit
  Evolves (old ∷ rows) (new ∷ rest) =
      ((new ≡ old) ⊎ (HasSameRequest old new × (accepts_move old new ≡ true))) × Evolves rows rest
  Evolves _ _ = ⊥

  Evolves-refl : (jobs : List (Job W)) → Evolves jobs jobs
  Evolves-refl [] = tt
  Evolves-refl (j ∷ jobs) = (inl refl, Evolves-refl jobs)

  Evolves-update :
      (p : Job W → Bool) (f : Job W → Job W) (jobs : List (Job W))
      → ((j : Job W) → p j ≡ true → HasSameRequest j (f j) × (accepts_move j (f j) ≡ true))
      → Evolves jobs (update_where p f jobs)
  unfolding update_where
  Evolves-update p f [] k = tt
  Evolves-update p f (j ∷ jobs) k = elim (Bool-cases (p j)) [
    | inl e ↦ rw e (inr (k j e), Evolves-update p f jobs k)
    | inr e ↦ rw e (inl refl, Evolves-update p f jobs k)
  ]

  Change-IsSound :
      {known : Type 0} {tenant : String} {jobs after : List (Job W)}
      → Change known tenant jobs after
      → known
      → All IsSound jobs
      → All IsSound after
  Change-IsSound (unchanged jobs) k h = h
  Change-IsSound (inserted j jobs new) k h = (new.0 k, h)
  Change-IsSound {tenant} (claimed_by id worker now jobs) k h =
      update-All IsSound _ _ jobs (claimed-IsSound tenant id worker now) h
  Change-IsSound {tenant} (finished_by id worker target now error jobs d) k h =
      update-All IsSound _ _ jobs (λ j. finished-IsSound tenant id worker target now error j d) h
  Change-IsSound {tenant} (requeued_by id at jobs) k h =
      update-All IsSound _ _ jobs (requeued-IsSound tenant id at) h

  -- New rows in front, and the others as the trigger accepts.
  abbrev pub IsAccepted : List (Job W) → List (Job W) → Type 0
  IsAccepted jobs after =
      ((j : Job W) × (after ≡ j ∷ jobs) × (j.status ≡ queued) × (j.attempt ≡ 0))
      ⊎ Evolves jobs after

  Change-IsAccepted :
      {known : Type 0} {tenant : String} {jobs after : List (Job W)}
      → Change known tenant jobs after
      → IsAccepted jobs after
  unfolding accepts_move
  Change-IsAccepted (unchanged jobs) = inr (Evolves-refl jobs)
  Change-IsAccepted (inserted j jobs new) = inl (j, refl, new.1, new.2)
  Change-IsAccepted {tenant} (claimed_by id worker now jobs) = inr (
      Evolves-update _ _ jobs
        (λ j e. ((refl, refl, refl, refl, refl), ground (arith, is_status-eq j.status queued))))
  Change-IsAccepted {tenant} (finished_by id worker target now error jobs d) = inr (
      Evolves-update _ _ jobs
        (λ j e. ((refl, refl, refl, refl, refl), ground (arith, is_status-eq j.status running))))
  Change-IsAccepted {tenant} (requeued_by id at jobs) = inr (
      Evolves-update _ _ jobs
        (λ j e. ((refl, refl, refl, refl, refl), ground (arith, is_status-eq j.status failed))))

module _ {W : Type 0} ⦃n : Number W⦄ ⦃c : TextCase⦄ where
  -- The tables after a sequence of calls: one that raises is rolled back.
  unfoldable pub run_jobs : JobWorld W → String → List (JobOp W) → Reports W → Reports W
  run_jobs w tenant [] t = t
  run_jobs w tenant (op ∷ ops) t =
      run_jobs w tenant ops (or_rolled_back t (perform_job w tenant op t))

  -- Where `strip` leaves nothing of a text of spaces and the rows are sound, every sequence of calls
  -- leaves rows that are: the columns' checks of report_job on the request hold, a queued job has an attempt left, a running one has a worker, a start and at
  -- least one attempt, and none has more attempts than its request allows.
  pub run_jobs-IsSound :
      (w : JobWorld W) (tenant : String) (ops : List (JobOp W)) (t : Reports W)
      → Strips c
      → All IsSound t.jobs
      → All IsSound (run_jobs w tenant ops t).jobs
  unfolding run_jobs
  run_jobs-IsSound w tenant [] t strips h = h
  run_jobs-IsSound w tenant (op ∷ ops) t strips h =
      run_jobs-IsSound w tenant ops _ strips (kept _ refl)
    where
      kept :
          (m : Result JobError (Reports W))
          → perform_job w tenant op t ≡ m
          → All IsSound (or_rolled_back t m).jobs
      kept (raised e) q = h
      kept (ok t') q = Change-IsSound (perform-Change w tenant op t q) strips h

  -- A call that returns puts one new row in front, queued and not yet tried, or changes rows in the
  -- way that the trigger of report_job accepts: the request stays, an ended job but a failed one is
  -- left alone, the status moves along the trigger's edges, and the attempts grow by one when a
  -- queued job starts and not else.
  pub perform_job-IsAccepted :
      (w : JobWorld W) (tenant : String) (op : JobOp W) (t : Reports W) {t' : Reports W}
      → perform_job w tenant op t ≡ ok t'
      → IsAccepted t.jobs t'.jobs
  perform_job-IsAccepted w tenant op t e = Change-IsAccepted (perform-Change w tenant op t e)
