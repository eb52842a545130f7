-- ===== src/Worker/Checking.antt =====
-- The checks of a batch never raise: they fail just the actions that they hold back, each of them
-- counted, and what is left is what may be sent. This file has the check of human control.
use amz_command_center.Base.{
  All, Bool, Bool-cases, List, Result, [], ap, arith, false, inl, inr, length, not, ok, refl,
  select, true, ℕ, ◌+◌, ◌∙◌, ◌∷◌, ◌≡◌,
}
use amz_command_center.Number.{Number, ticks}
use amz_command_center.Json.{size}
use amz_command_center.StateMachine.{Action}
use amz_command_center.HumanControl.{Controls}
use amz_command_center.Worker.Defs.{Fault, Surroundings, Tables, WorkerResult}
use amz_command_center.Worker.Procs.{>>=-eq}
use amz_command_center.Worker.Batches.{
  block_live_actions, block_one, control_error, count_failed, ownership_of, validate_control_batch,
}
use amz_command_center.Worker.Blocking.{
  IsApproved, IsKept, IsKept-trans, IsTallied, block_live_actions_one, block_one_total,
}

module _ {W S : Type 0} ⦃n : Number W⦄ (w : Surroundings W S) where
  -- What the checks of a batch come to: nothing raises, and the eligible actions and those that are
  -- held back, which are failed and counted, make up the batch.
  abbrev pub IsChecked :
      List (Action W)
      → WorkerResult
      → Tables W
      → Result Fault ((List (Action W) × WorkerResult) × Tables W)
      → List (Action W)
      → Type 0
  IsChecked actions result db end eligible =
      (tally : WorkerResult) × (db' : Tables W) × (held : ℕ) × (end ≡ ok ((eligible, tally), db'))
      × (held + length eligible ≡ length actions)
      × IsTallied w result held tally
      × IsKept w db db'
      × All (IsApproved w) eligible

  abbrev pub is_free : Controls → Action W → Bool
  is_free controls a = not (ownership_of w a controls).is_blocked

  validate_control_batch-held :
      (a : Action W) (rest : List (Action W)) (result : WorkerResult) (db : Tables W)
      {created : Bool} {db' : Tables W}
      → (ownership_of w a db.controls).is_blocked ≡ true
      → block_one w a (control_error w (ownership_of w a db.controls)) db ≡ ok (created, db')
      → validate_control_batch w (a ∷ rest) result db
        ≡ validate_control_batch w rest (count_failed result created) db'
  unfolding validate_control_batch block_live_actions
  validate_control_batch-held a rest result db b e =
      rw (validate_control_batch, b)
        (>>=-eq (block_live_actions w (a ∷ []) _ result) _ db
          (block_live_actions_one w a _ result db e))

  validate_control_batch-free :
      (a : Action W) (rest : List (Action W)) (result : WorkerResult) (db : Tables W)
      {eligible : List (Action W)} {tally : WorkerResult} {db' : Tables W}
      → (ownership_of w a db.controls).is_blocked ≡ false
      → validate_control_batch w rest result db ≡ ok ((eligible, tally), db')
      → validate_control_batch w (a ∷ rest) result db ≡ ok ((a ∷ eligible, tally), db')
  unfolding validate_control_batch
  validate_control_batch-free a rest result db b e = rw (validate_control_batch, b, e) refl

  control_batch-IsChecked :
      (actions eligible : List (Action W)) (result : WorkerResult) (db : Tables W)
      → select (is_free db.controls) actions ≡ eligible
      → All (IsApproved w) actions
      → IsChecked actions result db (validate_control_batch w actions result db) eligible
  unfolding validate_control_batch block_live_actions
  control_batch-IsChecked [] eligible result db c h =
      rw (← c)
        (result, db, 0, refl, refl, (omega arith, refl, refl, refl), (refl, refl, refl, refl), tt)
  control_batch-IsChecked (a ∷ rest) eligible result db c (p, h) =
      elim (Bool-cases (ownership_of w a db.controls).is_blocked) [
        | inl b ↦
            let (created, db1, e1, k1) =
              block_one_total w a (control_error w (ownership_of w a db.controls)) db p in
            let (tally, db2, held, e2, size, (f, g1, g2, g3), k2, left) =
              control_batch-IsChecked rest eligible (count_failed result created) db1
                (ap (λ x. select (is_free x) rest) k1.0 ∙ rw b at c) h in
            (
              tally,
              db2,
              held + 1,
              validate_control_batch-held a rest result db b e1 ∙ e2,
              omega (arith, size),
              (omega (arith, f), g1, g2, g3),
              IsKept-trans w db db1 db2 k1 k2,
              left,
            )
        | inr b ↦
            let (tally, db1, held, e, size, t, k, left) =
              control_batch-IsChecked rest (select (is_free db.controls) rest) result db refl h in
            rw (← (rw b at c)) (
              tally,
              db1,
              held,
              validate_control_batch-free a rest result db b e,
              omega (arith, size),
              t,
              k,
              (p, left),
            )
      ]

  -- The check of human control never faults on approved actions: just those that no active control
  -- of the tables holds are left, in their order, and each other one is counted as failed.
  pub validate_control_batch_total :
      (actions : List (Action W)) (result : WorkerResult) (db : Tables W)
      → All (IsApproved w) actions
      → IsChecked actions result db
          (validate_control_batch w actions result db)
          (select (is_free db.controls) actions)
  validate_control_batch_total actions result db = control_batch-IsChecked actions _ result db refl
