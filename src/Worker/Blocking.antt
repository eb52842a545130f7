-- ===== src/Worker/Blocking.antt =====
-- The checks of a batch fail an action by itself: they never raise, they fail just the actions that
-- they hold back, and what is left is what may be sent.
use Prim.Native.String.{◌++◌ as append}
use amz_command_center.Base.{
  All, Bool, Bool-cases, List, String, [], arith, exists, false, inl, inr, length, none, ok, refl,
  some, true, ℕ, ◌+◌, ◌∙◌, ◌∷◌, ◌≡◌,
}
use amz_command_center.Number.{Number, ticks}
use amz_command_center.StateMachine.{Action, api_error, apply, approved, failed, status_eq}
use amz_command_center.Audit.{append_event}
use amz_command_center.Worker.Defs.{Alert, Surroundings, Tables, WorkerResult}
use amz_command_center.Worker.Procs.{
  >>=-eq, failure_alert, is_open_alert, persist_action_failure_alert, persist_worker_alert,
}
use amz_command_center.Worker.Applying.{persist_apply_result, result_event, update_actions}
use amz_command_center.Worker.Batches.{block_action, block_live_actions, block_one, count_failed}

module _ {W S : Type 0} ⦃n : Number W⦄ (w : Surroundings W S) where
  abbrev pub IsApproved : Action W → Type 0
  IsApproved a = a.status ≡ approved

  -- The tables that a check of the batch leaves alone.
  abbrev pub IsKept : Tables W → Tables W → Type 0
  IsKept db db' =
      (db'.controls ≡ db.controls)
      × (db'.settings ≡ db.settings)
      × (db'.refresh_token ≡ db.refresh_token)
      × (length db'.runs ≡ length db.runs)

  pub IsKept-trans : (x y z : Tables W) → IsKept x y → IsKept y z → IsKept x z
  IsKept-trans x y z (a, b, c, d) (a', b', c', d') = (a' ∙ a, b' ∙ b, c' ∙ c, d' ∙ d)

  persist_worker_alert_total :
      (alert : Alert W) (db : Tables W)
      → (created : Bool) × (alerts : List (Alert W)) × (persist_worker_alert alert db
          ≡ ok (created, record db { alerts = alerts }))
  unfolding persist_worker_alert
  persist_worker_alert_total alert db =
      elim (Bool-cases
        (exists (is_open_alert alert.tenant_id alert.kind alert.entity_ref) db.alerts)) [
          | inl there ↦ (false, db.alerts, rw there refl)
          | inr new ↦ (true, alert ∷ db.alerts, rw new refl)
        ]

  block_action_approved :
      (a : Action W) (error : String)
      → IsApproved a
      → block_action w a error
        ≡ ok (record a {
          status = failed;
          error = some (api_error (some (append "guardrail: " error)));
        })
  unfolding block_action apply
  block_action_approved a error h = ground arith

  pub block_one_total :
      (a : Action W) (error : String) (db : Tables W)
      → IsApproved a
      → (created : Bool) × (db' : Tables W) × (block_one w a error db ≡ ok (created, db'))
        × IsKept db db'
  unfolding block_one persist_apply_result persist_action_failure_alert status_eq
  block_one_total a error db h =
      let failing = record a {
        status = failed;
        error = some (api_error (some (append "guardrail: " error)));
      } in
      let (created, alerts, e) = persist_worker_alert_total (failure_alert failing) (record db {
        actions = update_actions w failing none db.actions;
        journal = append_event ⦃r = w.redactor⦄ (result_event w failing none) db.journal;
      }) in
      (
        created,
        record db {
          actions = update_actions w failing none db.actions;
          journal = append_event ⦃r = w.redactor⦄ (result_event w failing none) db.journal;
          alerts = alerts;
        },
        rw (block_action_approved a error h) e,
        (refl, refl, refl, refl),
      )

  -- What the check of a batch adds to the tally.
  abbrev pub IsTallied : WorkerResult → ℕ → WorkerResult → Type 0
  IsTallied before held after =
      (after.failed ≡ before.failed + held)
      × (after.applied ≡ before.applied)
      × (after.scanned ≡ before.scanned)
      × (after.rolled_back ≡ before.rolled_back)

  -- Approved actions are failed without a fault, and each is counted.
  pub block_live_actions_total :
      (actions : List (Action W)) (error : String) (result : WorkerResult) (db : Tables W)
      → All IsApproved actions
      → (tally : WorkerResult) × (db' : Tables W) × (block_live_actions w actions error result db
          ≡ ok (tally, db'))
        × IsTallied result (length actions) tally
        × IsKept db db'
  unfolding block_live_actions
  block_live_actions_total [] error result db h =
      (result, db, refl, (omega arith, refl, refl, refl), (refl, refl, refl, refl))
  block_live_actions_total (a ∷ rest) error result db (p, h) =
      let (created, db1, e1, k1) = block_one_total a error db p in
      let (tally, db2, e2, (f, g1, g2, g3), k2) =
        block_live_actions_total rest error (count_failed result created) db1 h in
      (
        tally,
        db2,
        >>=-eq (block_one w a error) _ db e1 ∙ e2,
        (f ∙ omega arith, g1, g2, g3),
        IsKept-trans db db1 db2 k1 k2,
      )

  pub block_live_actions_one :
      (a : Action W) (error : String) (result : WorkerResult) (db : Tables W) {created : Bool}
      {db' : Tables W}
      → block_one w a error db ≡ ok (created, db')
      → block_live_actions w (a ∷ []) error result db ≡ ok (count_failed result created, db')
  unfolding block_live_actions
  block_live_actions_one a error result db e = >>=-eq (block_one w a error) _ db e
