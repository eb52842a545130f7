-- ===== src/Jobs/Claims.antt =====
-- Which job a claim takes, and that it is taken once.
use text.Mathlib.TextPositions.{eq_refl}
use amz_command_center.Base.{
  All, Option, String, arith, best-All, best-exists, best-least, exists, false, first-exists,
  first-holds, ok, refl, select, select-All, select-finds, some, true, update_where, ℕ, ◌≡◌,
}
use amz_command_center.Number.{ticks}
use amz_command_center.Jobs.Tables.{Job, JobWorld, Reports}
use amz_command_center.Jobs.Defs.{job_event, or_default, ref_of}
use amz_command_center.Jobs.Running.{
  claim_next_job, claim_row, claimed, is_claimable, is_due_job, job_before, start_event,
}
use amz_command_center.Jobs.Change.{job_event-jobs}

module _ {W : Type 0} where
  job_before_asym : (i j : Job W) → job_before i j ≡ true → job_before j i ≡ false
  job_before_asym i j e = ground arith

  job_before_trans :
      (i j k : Job W) → job_before j i ≡ false → job_before k j ≡ false → job_before k i ≡ false
  job_before_trans i j k e f = ground arith

  is_claimable_self :
      (w : JobWorld W) (tenant : String) (now : ℕ) (j : Job W)
      → is_due_job w tenant now j ≡ true
      → is_claimable tenant j.id j ≡ true
  is_claimable_self w tenant now j e = ground (arith, eq_refl j.id)

  claim_row-started :
      (w : JobWorld W) (tenant worker : String) (now : ℕ) (id : String) (t : Reports W)
      → exists (is_claimable tenant id) t.jobs ≡ true
      → (j : Job W) × (t' : Reports W) × (claim_row w tenant worker now id t
          ≡ ok (some (ref_of (claimed worker now j) false), t'))
        × (is_claimable tenant id j ≡ true)
        × (t'.jobs ≡ update_where (is_claimable tenant id) (claimed worker now) t.jobs)
  unfolding claim_row
  claim_row-started w tenant worker now id t h =
      let (j, q) = first-exists (is_claimable tenant id) t.jobs h in
      let next = claimed worker now j in
      let rows : Reports W = record t {
        jobs = update_where (is_claimable tenant id) (claimed worker now) t.jobs;
      } in
      (
        j,
        job_event (start_event w tenant worker next) rows,
        rw (claim_row, q) refl,
        first-holds _ t.jobs j q,
        job_event-jobs _ rows,
      )

  -- When a job of the tenant is queued, due and not locked by another transaction, a claim returns
  -- one: a job that is due, before which no other due job goes by its time and its place in the
  -- queue, now running with one more attempt; the rows of its id, and no other, are changed.
  pub claim_next_job-started :
      (w : JobWorld W) (tenant worker : String) (at : Option ℕ) (t : Reports W)
      → exists (is_due_job w tenant (or_default w.clock at)) t.jobs ≡ true
      → (first : Job W) × (j : Job W) × (t' : Reports W) × (claim_next_job w tenant worker at t
          ≡ ok (some (ref_of (claimed worker (or_default w.clock at) j) false), t'))
        × (is_due_job w tenant (or_default w.clock at) first ≡ true)
        × All
            (λ other. job_before other first ≡ false)
            (select (is_due_job w tenant (or_default w.clock at)) t.jobs)
        × (is_claimable tenant first.id j ≡ true)
        × (t'.jobs
            ≡ update_where
                (is_claimable tenant first.id)
                (claimed worker (or_default w.clock at))
                t.jobs)
  unfolding claim_next_job
  claim_next_job-started w tenant worker at t h =
      let now = or_default w.clock at in
      let due = is_due_job w tenant now in
      let (first, q) = best-exists due job_before t.jobs h in
      let found =
        best-All _ job_before (select due t.jobs) first
          (select-finds due (λ x. is_claimable tenant x.id) t.jobs (is_claimable_self w tenant now))
          q in
      let (j, t', e, held, rows) = claim_row-started w tenant worker now first.id t found in
      (
        first,
        j,
        t',
        rw (claim_next_job, q) e,
        best-All (λ x. due x ≡ true) job_before (select due t.jobs) first
            (select-All (λ x. due x ≡ true) due t.jobs (λ x d. d)) q,
        best-least job_before (select due t.jobs) first job_before_asym job_before_trans q,
        held,
        rows,
      )
