-- ===== src/Worker/Planning.antt =====
-- What a run decides to send: every approved action of the batch is failed by a check or is left to
-- be sent, and no check raises.
use amz_command_center.Base.{
  All, Bool, Bool-cases, List, Option, Result, Result-cases, String, [], ap, arith, false,
  if◌then◌else◌, inl, inr, length, none, ok, refl, select, some, suc, true, ℕ, ◌+◌, ◌==◌, ◌∙◌, ◌∷◌,
  ◌≡◌,
}
use amz_command_center.Number.{Number, nought, ticks}
use amz_command_center.Json.{size}
use amz_command_center.StateMachine.{Action}
use amz_command_center.Worker.Defs.{Fault, Run, Surroundings, Tables, WorkerResult}
use amz_command_center.Worker.Procs.{>>=-eq, finish_worker_run, pure, update_run}
use amz_command_center.Worker.Batches.{
  block_live_actions, require_current_live_consent, validate_control_batch, validate_live_batch,
}
use amz_command_center.Worker.Runs.{Plan, check_batch, check_live, finish, is_none_left, send, stop}
use amz_command_center.Worker.Blocking.{
  IsApproved, IsKept, IsKept-trans, IsTallied, block_live_actions_total,
}
use amz_command_center.Worker.Checking.{is_free, validate_control_batch_total}
use amz_command_center.Worker.Budget.{admitted, validate_live_batch_total}

module _ {W S : Type 0} ⦃n : Number W⦄ (w : Surroundings W S) where
  -- What the checks of a batch leave, where `result` is the tally before them.
  abbrev pub IsPlanned : List (Action W) → WorkerResult → Plan W → Type 0
  IsPlanned actions result (stop tally) = IsTallied w result (length actions) tally
  IsPlanned actions result (send eligible tally) =
      (held : ℕ) × (held + length eligible ≡ length actions)
      × IsTallied w result held tally
      × All (IsApproved w) eligible

  -- A check of a batch that returned: the plan, the tables that it kept, and the tally.
  abbrev pub IsReady :
      List (Action W) → WorkerResult → Tables W → Result Fault (Plan W × Tables W) → Type 0
  IsReady actions result db end =
      (plan : Plan W) × (db' : Tables W) × (end ≡ ok (plan, db'))
      × IsKept w db db'
      × IsPlanned actions result plan

  length-update_run :
      (id : ℕ) (f : Run → Run) (rs : List Run) → length (update_run id f rs) ≡ length rs
  unfolding update_run
  length-update_run id f [] = refl
  length-update_run id f (r ∷ rs) = elim (Bool-cases (length rs == id)) [
    | inl e ↦ rw (update_run, e) refl
    | inr e ↦ rw (update_run, e) (ap suc (length-update_run id f rs))
  ]

  -- The run is over with this tally.
  pub finish_total :
      (id : ℕ) (result : WorkerResult) (error : Option String) (db : Tables W)
      → (db' : Tables W) × (finish w id result error db ≡ ok (stop result, db')) × IsKept w db db'
  unfolding finish_worker_run
  finish_total id result error db = (_, refl, (refl, refl, refl, length-update_run id _ db.runs))

  -- After a check of the batch the run is over if nothing is left.
  left_total :
      (id : ℕ) (actions eligible : List (Action W)) (result tally : WorkerResult) (held : ℕ)
      (error : Option String) (db : Tables W)
      → held + length eligible ≡ length actions
      → IsTallied w result held tally
      → All (IsApproved w) eligible
      → IsReady actions result db (
          (if is_none_left eligible then finish w id tally error else pure (send eligible tally))
            db)
  left_total id actions [] result tally held error db size (f, g1, g2, g3) h =
      let (db', e, k) = finish_total id tally error db in
      (stop tally, db', e, k, (omega (arith, f, size), g1, g2, g3))
  left_total id actions (a ∷ rest) result tally held error db size t h =
      (send (a ∷ rest) tally, db, refl, (refl, refl, refl, refl), (held, size, t, h))

  check_live_total :
      (id : ℕ) (actions : List (Action W)) (result : WorkerResult) (db : Tables W)
      → All (IsApproved w) actions
      → IsReady actions result db (check_live w id actions result db)
  unfolding check_live
  check_live_total id actions result db h =
      elim (Result-cases (require_current_live_consent w db.settings)) [
        | inl (x, b) ↦
            let (tally, db1, e, t, k) =
              block_live_actions_total w actions (w.config_error_text x) result db h in
            let (db2, e2, k2) = finish_total id tally (some (w.config_error_text x)) db1 in
            (
              stop tally,
              db2,
              rw (check_live, b) (>>=-eq (block_live_actions w actions _ result) _ db e ∙ e2),
              IsKept-trans w db db1 db2 k k2,
              t,
            )
        | inr (cfg, b) ↦
            let (tally, db1, held, e, size, t, k, left) =
              validate_live_batch_total w actions cfg 0 nought result db h in
            let (plan, db2, e2, k2, planned) =
              left_total id actions (admitted w actions cfg 0 nought) result tally held
                (some "all actions blocked by guardrails") db1 size t left in
            (
              plan,
              db2,
              rw (check_live, b)
                  (>>=-eq (validate_live_batch w actions cfg 0 nought result) _ db e ∙ e2),
              IsKept-trans w db db1 db2 k k2,
              planned,
            )
      ]

  pub IsPlanned-trans :
      (actions eligible : List (Action W)) (result tally : WorkerResult) (held : ℕ) (plan : Plan W)
      → held + length eligible ≡ length actions
      → IsTallied w result held tally
      → IsPlanned eligible tally plan
      → IsPlanned actions result plan
  IsPlanned-trans actions eligible result tally held (stop end) size (f, g1, g2, g3)
        (f', g1', g2', g3') =
      (omega (arith, f, f', size), g1' ∙ g1, g2' ∙ g2, g3' ∙ g3)
  IsPlanned-trans actions eligible result tally held (send rest end) size (f, g1, g2, g3)
        (more, size', (f', g1', g2', g3'), h) =
      (
        held + more,
        omega (arith, size, size'),
        (omega (arith, f, f'), g1' ∙ g1, g2' ∙ g2, g3' ∙ g3),
        h,
      )

  -- The decision what to send never faults on approved actions: each of the batch is failed and
  -- counted or is sent, and the controls and the settings are as before.
  pub check_batch_total :
      (id : ℕ) (live_ads : Bool) (actions : List (Action W)) (result : WorkerResult) (db : Tables W)
      → All (IsApproved w) actions
      → IsReady actions result db (check_batch w id live_ads actions result db)
  unfolding check_batch
  check_batch_total id live_ads [] result db h =
      let (db', e, k) = finish_total id result none db in
      (stop result, db', e, k, (omega arith, refl, refl, refl))
  check_batch_total id live_ads (a ∷ rest) result db h =
      let (tally, db1, held, e, size, t, k, left) =
        validate_control_batch_total w (a ∷ rest) result db h in
      let (plan, db2, e2, k2, planned) =
        go (select (is_free w db.controls) (a ∷ rest)) live_ads tally db1 held size t left in
      (
        plan,
        db2,
        >>=-eq (validate_control_batch w (a ∷ rest) result) _ db e ∙ e2,
        IsKept-trans w db db1 db2 k k2,
        planned,
      )
    where
      go :
          (eligible : List (Action W)) (b : Bool) (tally : WorkerResult) (db1 : Tables W) (held : ℕ)
          → held + length eligible ≡ length (a ∷ rest)
          → IsTallied w result held tally
          → All (IsApproved w) eligible
          → IsReady (a ∷ rest) result db1 (
              (if is_none_left eligible
                  then finish w id tally (some "all actions blocked by human control")
                  else if b
                  then check_live w id eligible tally
                  else pure (send eligible tally))
                db1)
      go eligible false tally db1 held size t left =
          left_total id (a ∷ rest) eligible result tally held _ db1 size t left
      go [] true tally db1 held size t left =
          left_total id (a ∷ rest) [] result tally held _ db1 size t left
      go (x ∷ xs) true tally db1 held size t left =
          let (plan, db2, e, k, planned) = check_live_total id (x ∷ xs) tally db1 left in
          (
            plan,
            db2,
            e,
            k,
            IsPlanned-trans (a ∷ rest) (x ∷ xs) result tally held plan size t planned,
          )
