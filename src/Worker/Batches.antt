-- ===== src/Worker/Batches.antt =====
-- The checks of a whole batch, which come before any call of the provider.
use Prim.Native.String.{◌++◌ as append}
use amz_command_center.Base.{
  Bool, List, Option, Result, String, [], false, if◌then◌else◌, none, not, ok, raised, some, true,
  ℕ, ◌+◌, ◌∷◌,
}
use amz_command_center.Number.{Number, ticks}
use amz_command_center.Json.{Members}
use amz_command_center.StateMachine.{Action, Outcome, Refusal, apply}
use amz_command_center.HumanControl.{ControlDecision, Controls, active_control}
use amz_command_center.Guardrails.{TenantGuardConfig}
use amz_command_center.Settings.{
  ConfigError, automation_is_off, is_dry_run, load_tenant_guard_config,
}
use amz_command_center.ApplyGuardrails.{ApplyError, validate_apply_guardrails}
use amz_command_center.Worker.Defs.{Proc, Surroundings, WorkerResult, refused}
use amz_command_center.Worker.Procs.{persist_action_failure_alert, pure, ◌>>=◌, ◌>>◌}
use amz_command_center.Worker.Applying.{persist_apply_result}

abbrev pub one_if : Bool → ℕ
one_if b = if b then 1 else 0

-- One more failed action, and its alert if one was created.
abbrev pub count_failed : WorkerResult → Bool → WorkerResult
count_failed result created = record result {
  failed = result.failed + 1;
  alerts_created = result.alerts_created + one_if created;
}

-- A transition that is refused is an exception of the run.
abbrev pub or_refused : {W A : Type 0} → Result Refusal A → Proc W A
or_refused (ok a) db = ok (a, db)
or_refused (raised e) db = raised (refused e)

abbrev pub or_text_none : Option String → String
or_text_none none = "None"
or_text_none (some s) = s

module _ {W S : Type 0} ⦃n : Number W⦄ (w : Surroundings W S) where
  -- The action as a guardrail fails it.
  unfoldable pub block_action : Action W → String → Outcome W
  block_action a error =
      apply ⦃r = w.repr⦄ w.now a.before_value false (some (append "guardrail: " error)) a

  -- The body of the loop of `block_live_actions`; the result says whether an alert was created.
  unfoldable pub block_one : Action W → String → Proc W Bool
  unfolding block_action
  block_one a error = do
    failing ← or_refused (block_action a error)
    persist_apply_result w true failing none
    persist_action_failure_alert failing

  unfoldable pub block_live_actions : List (Action W) → String → WorkerResult → Proc W WorkerResult
  block_live_actions [] error result = pure result
  block_live_actions (a ∷ rest) error result = do
    created ← block_one a error
    block_live_actions rest error (count_failed result created)

  abbrev pub ownership_of : Action W → Controls → ControlDecision
  ownership_of a controls =
      active_control ⦃t = w.text_case⦄ a.tenant_id a.entity_type a.entity_id "*" a.control_id w.now
        controls

  abbrev pub control_error : ControlDecision → String
  control_error d =
      append (or_text_none d.state)
        (append ": human control " (append (or_text_none d.control_id) " blocks automation"))

  -- The eligible actions and the tally.
  unfoldable pub validate_control_batch :
      List (Action W) → WorkerResult → Proc W (List (Action W) × WorkerResult)
  validate_control_batch [] result db = ok (([], result), db)
  validate_control_batch (a ∷ rest) result db = elim (ownership_of a db.controls).is_blocked [
    | true ↦
        (do
          tally ← block_live_actions (a ∷ []) (control_error (ownership_of a db.controls)) result
          validate_control_batch rest tally)
          db
    | false ↦
        (do (eligible, tally) ← validate_control_batch rest result; pure (a ∷ eligible, tally)) db
  ]

  unfoldable pub require_current_live_consent :
      Option (Members W) → Result ConfigError (TenantGuardConfig W)
  require_current_live_consent row = elim (load_tenant_guard_config row) [
    | raised e ↦ raised e
    | ok cfg ↦
        if not cfg.automation_enabled
        then raised automation_is_off
        else if cfg.dry_run
        then raised is_dry_run
        else ok cfg
  ]

  abbrev pub validation_of : Action W → TenantGuardConfig W → ℕ → W → Result ApplyError W
  validation_of a cfg changes increase =
      validate_apply_guardrails ⦃t = w.iso_format⦄ (w.evidence a) a cfg w.now changes increase

  -- `changes` and `increase` are the projected totals of the batch so far.
  unfoldable pub validate_live_batch :
      List (Action W)
      → TenantGuardConfig W
      → ℕ
      → W
      → WorkerResult
      → Proc W (List (Action W) × WorkerResult)
  validate_live_batch [] cfg changes increase result = pure ([], result)
  validate_live_batch (a ∷ rest) cfg changes increase result =
      elim (validation_of a cfg changes increase) [
        | raised e ↦ do
          tally ← block_live_actions (a ∷ []) (w.apply_error_text e) result
          validate_live_batch rest cfg changes increase tally
        | ok added ↦ do
          (eligible, tally) ←
              validate_live_batch rest cfg (changes + 1) (n.add increase added) result
          pure (a ∷ eligible, tally)
      ]
