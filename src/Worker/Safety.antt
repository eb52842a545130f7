-- ===== src/Worker/Safety.antt =====
-- Whole runs: what a run that returns has counted, what a run that raises leaves, and when a run does
-- not reach the provider.
use amz_command_center.Base.{
  Bool, Result-cases, String, ap, arith, inl, inr, length, none, ok, raised, refl, some, ℕ, ◌+◌,
  ◌∙◌, ◌∷◌, ◌≡◌, ◌≤◌, ◌⊎◌,
}
use amz_command_center.Number.{Number, ticks}
use amz_command_center.Json.{size}
use amz_command_center.Worker.Defs.{
  ActionClient, Fault, Surroundings, Tables, WorkerResult, no_result,
}
use amz_command_center.Worker.Procs.{
  >>=-eq, fetch_approved, finish_worker_run, run_status, start_worker_run, update_run,
  worker_dataset,
}
use amz_command_center.Worker.Planning.{IsPlanned, check_batch_total}
use amz_command_center.Worker.Accounting.{fetch_approved-IsApproved, send_all-IsCounted}
use amz_command_center.Worker.Runs.{
  Plan, check_batch, plan_run, run_once, run_steps, send, send_all, send_batch, stop,
}

module _ {W S : Type 0} ⦃n : Number W⦄ (w : Surroundings W S) where
  -- A run that returned this tally, within its limit.
  abbrev pub IsAccounted : ℕ → WorkerResult → Type 0
  IsAccounted limit r =
      (r.scanned ≡ r.applied + r.failed) × (r.rolled_back ≡ 0) × (r.scanned ≤ limit)

  -- The tables as the run has them when it decides what to send.
  plan_run_total :
      (tenant : String) (limit : ℕ) (live_ads : Bool) (db : Tables W)
      → (id : ℕ) × (plan : Plan W) × (db' : Tables W) × (plan_run w tenant limit live_ads db
          ≡ ok ((id, plan), db'))
        × (db'.controls ≡ db.controls)
        × (db'.settings ≡ db.settings)
        × IsPlanned w
            (fetch_approved tenant limit db)
            (record no_result { scanned = length (fetch_approved tenant limit db) })
            plan
  unfolding plan_run start_worker_run fetch_approved
  plan_run_total tenant limit live_ads db =
      let started : Tables W = record db {
        runs =
            record {
              tenant_id = tenant;
              dataset = worker_dataset;
              status = "running";
              rows_loaded = none;
              error = none;
              detail = none;
            }
            ∷ db.runs;
      } in
      let actions = fetch_approved tenant limit db in
      let (plan, db', e, k, planned) =
        check_batch_total w (length db.runs) live_ads actions
          (record no_result { scanned = length actions }) started
          (fetch_approved-IsApproved w tenant limit db).0 in
      (
        length db.runs,
        plan,
        db',
        >>=-eq
            (check_batch w (length db.runs) live_ads actions
              (record no_result { scanned = length actions }))
            _ started e,
        k.0,
        k.1,
        planned,
      )

  -- A run with a client of its own either raises, and leaves every table as it was, or returns a
  -- tally in which each of the actions fetched is counted once, as applied or as failed, and none
  -- beyond the limit is fetched.
  pub run_once_all_or_nothing :
      (tenant : String) (limit : ℕ) (c : ActionClient W S) (live_ads : Bool) (s : S) (db : Tables W)
      → ((x : Fault) × (s' : S) × (run_once w tenant limit (some c) live_ads s db
            ≡ (raised x, db, s')))
        ⊎ ((r : WorkerResult) × (db' : Tables W) × (s' : S) × (run_once w tenant limit
                (some c)
                live_ads
                s
                db
              ≡ (ok r, db', s'))
            × IsAccounted limit r)
  unfolding run_once run_steps send_batch finish_worker_run
  run_once_all_or_nothing tenant limit c live_ads s db =
      let (id, plan, ready, e, _, _, planned) = plan_run_total tenant limit live_ads db in
      let (_, few) = fetch_approved-IsApproved w tenant limit db in ends plan id ready e planned few
    where
      ends :
          (plan : Plan W) (id : ℕ) (ready : Tables W)
          → plan_run w tenant limit live_ads db ≡ ok ((id, plan), ready)
          → IsPlanned w
              (fetch_approved tenant limit db)
              (record no_result { scanned = length (fetch_approved tenant limit db) })
              plan
          → length (fetch_approved tenant limit db) ≤ limit
          → ((x : Fault) × (s' : S) × (run_once w tenant limit (some c) live_ads s db
                ≡ (raised x, db, s')))
            ⊎ ((r : WorkerResult) × (db' : Tables W) × (s' : S) × (run_once w tenant limit
                    (some c)
                    live_ads
                    s
                    db
                  ≡ (ok r, db', s'))
                × IsAccounted limit r)
      ends (stop r) id ready e (f, g1, g2, g3) few = inr (
        r,
        ready,
        s,
        rw (run_once, run_steps, e) refl,
        (omega (arith, f, g1, g2), g3, omega (arith, g2, few)),
      )
      ends (send eligible r) id ready e (held, size, (f, g1, g2, g3), h) few =
          elim (Result-cases (send_all w c live_ads eligible r s ready).0) [
            | inl (x, b) ↦ inl (
              x,
              (send_all w c live_ads eligible r s ready).1,
              rw (run_once, run_steps, e, send_batch, b) refl,
            )
            | inr ((t, after), b) ↦
                let (f', g', h') =
                  send_all-IsCounted w c live_ads eligible r s _ ready
                    (ap (λ x. (x, (send_all w c live_ads eligible r s ready).1)) b) in
                inr (
                  t,
                  record after {
                    runs =
                        update_run id
                          (λ run. record run {
                            status = run_status t none;
                            rows_loaded = some t.applied;
                            error = none;
                            detail = some t;
                          })
                          after.runs;
                  },
                  (send_all w c live_ads eligible r s ready).1,
                  rw (run_once, run_steps, e, send_batch, b) refl,
                  (omega (arith, f, g1, g2, f', g', size), h' ∙ g3, omega (arith, g', g2, few)),
                )
          ]
