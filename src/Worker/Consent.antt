-- ===== src/Worker/Consent.antt =====
-- A live run without the tenant's current consent.
use amz_command_center.Base.{
  All, List, Option, Result, String, [], ap, arith, if◌then◌else◌, length, none, ok, raised, refl,
  select, some, true, ℕ, ◌+◌, ◌∙◌, ◌∷◌, ◌≡◌,
}
use amz_command_center.Number.{Number, ticks}
use amz_command_center.Json.{size}
use amz_command_center.StateMachine.{Action}
use amz_command_center.Settings.{ConfigError}
use amz_command_center.Worker.Defs.{
  ActionClient, Fault, Surroundings, Tables, WorkerResult, no_result,
}
use amz_command_center.Worker.Procs.{>>=-eq, fetch_approved, start_worker_run, worker_dataset}
use amz_command_center.Worker.Batches.{
  block_live_actions, require_current_live_consent, validate_control_batch,
}
use amz_command_center.Worker.Planning.{IsPlanned-trans, finish_total}
use amz_command_center.Worker.Accounting.{fetch_approved-IsApproved}
use amz_command_center.Worker.Blocking.{
  IsApproved, IsKept, IsKept-trans, IsTallied, block_live_actions_total,
}
use amz_command_center.Worker.Runs.{
  Plan, check_batch, check_live, finish, is_none_left, plan_run, run_once, run_steps, stop,
}
use amz_command_center.Worker.Checking.{is_free, validate_control_batch_total}

module _ {W S : Type 0} ⦃n : Number W⦄ (w : Surroundings W S) where
  -- The settings do not consent to live changes now.
  abbrev pub LacksConsent : Tables W → Type 0
  LacksConsent db = (x : ConfigError) × (require_current_live_consent w db.settings ≡ raised x)

  -- A check of a batch after which nothing is sent, and each action is counted as failed.
  abbrev pub IsStopped :
      List (Action W) → WorkerResult → Tables W → Result Fault (Plan W × Tables W) → Type 0
  IsStopped actions result db end =
      (tally : WorkerResult) × (db' : Tables W) × (end ≡ ok (stop tally, db'))
      × IsTallied w result (length actions) tally
      × IsKept w db db'

  check_live-IsStopped :
      (id : ℕ) (actions : List (Action W)) (result : WorkerResult) (db : Tables W)
      → LacksConsent db
      → All (IsApproved w) actions
      → IsStopped actions result db (check_live w id actions result db)
  unfolding check_live
  check_live-IsStopped id actions result db (x, b) h =
      let (tally, db1, e, t, k) =
        block_live_actions_total w actions (w.config_error_text x) result db h in
      let (db2, e2, k2) = finish_total w id tally (some (w.config_error_text x)) db1 in
      (
        tally,
        db2,
        rw (check_live, b) (>>=-eq (block_live_actions w actions _ result) _ db e ∙ e2),
        t,
        IsKept-trans w db db1 db2 k k2,
      )

  check_batch-IsStopped :
      (id : ℕ) (actions : List (Action W)) (result : WorkerResult) (db : Tables W)
      → LacksConsent db
      → All (IsApproved w) actions
      → IsStopped actions result db (check_batch w id true actions result db)
  unfolding check_batch
  check_batch-IsStopped id [] result db x h =
      let (db', e, k) = finish_total w id result none db in
      (result, db', e, (omega arith, refl, refl, refl), k)
  check_batch-IsStopped id (a ∷ rest) result db x h =
      let (tally, db1, held, e, size, t, k, left) =
        validate_control_batch_total w (a ∷ rest) result db h in
      let (end, db2, e2, t2, k2) =
        go (select (is_free w db.controls) (a ∷ rest)) tally db1 held
          (x.0, ap (require_current_live_consent w) k.1 ∙ x.1) size t left in
      (
        end,
        db2,
        >>=-eq (validate_control_batch w (a ∷ rest) result) _ db e ∙ e2,
        t2,
        IsKept-trans w db db1 db2 k k2,
      )
    where
      go :
          (eligible : List (Action W)) (tally : WorkerResult) (db1 : Tables W) (held : ℕ)
          → LacksConsent db1
          → held + length eligible ≡ length (a ∷ rest)
          → IsTallied w result held tally
          → All (IsApproved w) eligible
          → IsStopped (a ∷ rest) result db1 (
              (if is_none_left eligible
                  then finish w id tally (some "all actions blocked by human control")
                  else check_live w id eligible tally)
                db1)
      go [] tally db1 held y size (f, g1, g2, g3) left =
          let (db', e, k) =
            finish_total w id tally (some "all actions blocked by human control") db1 in
          (tally, db', e, (omega (arith, f, size), g1, g2, g3), k)
      go (z ∷ zs) tally db1 held y size t left =
          let (end, db2, e, t2, k) = check_live-IsStopped id (z ∷ zs) tally db1 y left in
          (
            end,
            db2,
            e,
            IsPlanned-trans w (a ∷ rest) (z ∷ zs) result tally held (stop end) size t t2,
            k,
          )

  -- A live run whose tenant's settings, as they stand in the tables, do not consent to live changes
  -- does not reach the provider, whatever client it has: the provider's state is as before, each of
  -- the actions fetched is counted as failed and none as applied, and the controls are as before.
  pub run_once_needs_consent :
      (tenant : String) (limit : ℕ) (client : Option (ActionClient W S)) (s : S) (db : Tables W)
      → LacksConsent db
      → (r : WorkerResult) × (db' : Tables W) × (run_once w tenant limit client true s db
          ≡ (ok r, db', s))
        × (r.applied ≡ 0)
        × (r.failed ≡ r.scanned)
        × (r.scanned ≡ length (fetch_approved tenant limit db))
        × (db'.controls ≡ db.controls)
  unfolding run_once run_steps plan_run start_worker_run fetch_approved
  run_once_needs_consent tenant limit client s db x =
      let started : Tables W = record db {
        runs =
            record {
              tenant_id = tenant;
              dataset = worker_dataset;
              status = "running";
              rows_loaded = none;
              error = none;
              detail = none;
            }
            ∷ db.runs;
      } in
      let actions = fetch_approved tenant limit db in
      let counted = record no_result { scanned = length actions } in
      let (tally, db', e, (f, g1, g2, g3), k) =
        check_batch-IsStopped (length db.runs) actions counted started x
          (fetch_approved-IsApproved w tenant limit db).0 in
      let planned : plan_run w tenant limit true db ≡ ok ((length db.runs, stop tally), db') =
        >>=-eq (check_batch w (length db.runs) true actions counted) _ started e in
      (tally, db', rw (run_once, run_steps, planned) refl, g1, omega (arith, f, g2), g2, k.0)
