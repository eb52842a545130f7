-- ===== src/StateMachine/Drift.antt =====
-- What `apply` does with the value read from Amazon: drift fails the action, and a change that was
-- made records the value that a rollback restores.
use text.Mathlib.Text.{starts_with}
use text.Mathlib.TextPositions.{starts_with-append}
use amz_command_center.Base.{ℕ, ◌≡◌, ◌⊎◌, Bool, true, false, Option, some, String, arith, ok}
use amz_command_center.Number.{Number}
use amz_command_center.Json.{Members, Repr, is_nonempty}
use amz_command_center.StateMachine.Defs.{
  approved, applied, failed, rolled_back, Action, has_drifted, drift_error, api_error, live_or,
  apply, rollback,
}

module _ {W : Type 0} ⦃n : Number W⦄ ⦃r : Repr W⦄ where
  -- The message of a drift is told from the others by its first six characters.
  pub starts_with-drift_error :
      (live before : Option (Members W)) → starts_with (drift_error live before) "drift:" ≡ true
  unfolding drift_error
  starts_with-drift_error live before = starts_with-append "drift:" _

  -- `apply` of an approved action always returns, and does one of three things, each field of the
  -- result given: on drift and on a provider error the action fails and keeps its baseline, and
  -- else it is applied.
  pub apply_approved :
      (now : ℕ) (live : Option (Members W)) (api_ok : Bool) (error : Option String) (a : Action W)
      → a.status ≡ approved
      → ((api_ok ≡ true)
          × (has_drifted live a.before_value ≡ true)
          × (apply now live api_ok error a
              ≡ ok (record a { status = failed; error = some (drift_error live a.before_value) })))
        ⊎ ((api_ok ≡ false)
            × (apply now live api_ok error a
                ≡ ok (record a { status = failed; error = some (api_error error) })))
        ⊎ ((api_ok ≡ true)
            × (has_drifted live a.before_value ≡ false)
            × (apply now live api_ok error a
                ≡ ok (record a {
                  before_value = live_or live a.before_value;
                  status = applied;
                  applied_at = some now;
                })))
  unfolding apply
  apply_approved now live api_ok error a s = ground arith

  -- If a non-empty live value was read and the action came out applied, that value is the baseline,
  -- and a rollback whose provider call succeeds returns the action rolled back with it.
  pub rollback-apply :
      (now later : ℕ) (live : Members W) (api_ok : Bool) (error : Option String) (a : Action W)
      {b : Action W}
      → is_nonempty live ≡ true
      → apply now (some live) api_ok error a ≡ ok b
      → b.status ≡ applied
      → (b.before_value ≡ some live)
        × (rollback later true b
            ≡ ok (record b { status = rolled_back; rolled_back_at = some later }))
  unfolding apply rollback
  rollback-apply now later live api_ok error a l e s = ground arith
