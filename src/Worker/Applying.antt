-- ===== src/Worker/Applying.antt =====
-- One action: the provider's two calls, and what is stored of their result.
use Prim.Native.String.{◌++◌ as append}
use package.text.Mathlib.Text.{starts_with}
use amz_command_center.Base.{
  Bool, List, Option, Result, String, [], false, if◌then◌else◌, none, ok, raised, some, str_eq,
  true, ◌&&◌, ◌∷◌,
}
use amz_command_center.Number.{Number, ticks}
use amz_command_center.Json.{Members, dict, empty, entry, null, or_empty}
use amz_command_center.StateMachine.{
  Action, Outcome, Refusal, applied, apply, approved, failed, status_eq,
}
use amz_command_center.HumanControl.{complete_one_time_control}
use amz_command_center.Audit.{
  EventType, ExecutionEvent, append_event, apply_failed, apply_requested, apply_started,
  apply_succeeded, drift_blocked, event_for, or_json_null, sanitize,
}
use amz_command_center.Worker.Defs.{ActionClient, Proc, Stored, Surroundings, database}
use amz_command_center.Worker.Procs.{is_set, modify, or_null_text, pure, ◌>>◌}

-- The action of a call that returned, with the provider's response.
abbrev pub with_response :
    {W : Type 0} → Option (Members W) → Outcome W → Result Refusal (Action W × Option (Members W))
with_response response (ok a) = ok (a, response)
with_response response (raised e) = raised e

module _ {W S : Type 0} ⦃n : Number W⦄ (w : Surroundings W S) where
  unfoldable pub apply_event : EventType → String → Action W → ExecutionEvent W
  unfolding event_for
  apply_event kind suffix a =
      record (event_for a kind w.correlation_key
        (append "apply:1:" (append w.correlation_key (append ":" suffix)))) {
          actor_id = some "action-worker";
          retry_attempt = 1;
          previous_state = some a.status;
          new_state = some a.status;
        }

  abbrev pub journalled : ExecutionEvent W → Proc W (Unit {0})
  journalled e = modify λ db. record db { journal = append_event ⦃r = w.redactor⦄ e db.journal }

  unfoldable pub record_apply_start : Action W → Proc W (Unit {0})
  record_apply_start a = do
    journalled (apply_event apply_requested "requested" a)
    journalled (apply_event apply_started "started" a)

  -- The client reads the live value and writes the change; any exception fails the action. The
  -- response is None unless both calls return.
  unfoldable pub apply_action :
      ActionClient W S → Action W → S → Result Refusal (Action W × Option (Members W)) × S
  apply_action c a s =
      let (read, s1) = c.read_before_value a s in
      elim read [
        | raised e ↦
            (with_response none (apply ⦃r = w.repr⦄ w.now a.before_value false (some e) a), s1)
        | ok live ↦
            let (sent, s2) = c.apply a s1 in
            elim sent [
              | raised e ↦ (
                with_response none (apply ⦃r = w.repr⦄ w.now a.before_value false (some e) a),
                s2,
              )
              | ok response ↦
                  (with_response (some response) (apply ⦃r = w.repr⦄ w.now live true none a), s2)
            ]
      ]

  -- `action.error and action.error.startswith("drift:")` of a failed action.
  unfoldable pub is_drift : Action W → Bool
  unfolding status_eq
  is_drift a =
      status_eq a.status failed
      && elim a.error [ none ↦ false | some message ↦ starts_with message "drift:" ]

  unfoldable pub result_kind : Action W → EventType × String
  unfolding is_drift
  result_kind a =
      if is_drift a
      then (drift_blocked, "drift_blocked")
      else if status_eq a.status applied
      then (apply_succeeded, "success")
      else (apply_failed, "failed")

  unfoldable pub result_event : Action W → Option (Members W) → ExecutionEvent W
  unfolding result_kind apply_event
  result_event a response =
      let (kind, classification) = result_kind a in
      record (apply_event kind "result" a) {
        previous_state = some approved;
        applied_value = if status_eq a.status applied then or_json_null response else null;
        provider_result_classification = some classification;
        metadata =
            dict (if is_set a.error then entry "error" (or_null_text a.error) empty else empty);
      }

  abbrev pub is_row_of : Action W → Stored W → Bool
  is_row_of a row = str_eq row.action.tenant_id a.tenant_id && str_eq row.action.id a.id

  -- The columns of the update, in the rows of this key.
  unfoldable pub update_actions : Action W → Option (Members W) → List (Stored W) → List (Stored W)
  update_actions a response [] = []
  update_actions a response (row ∷ rows) =
      (if is_row_of a row
        then record row {
          action = record row.action {
            status = a.status;
            before_value = a.before_value;
            applied_at = a.applied_at;
            error = a.error;
          };
          api_response = sanitize ⦃r = w.redactor⦄ (dict (or_empty response));
        }
        else row)
      ∷ update_actions a response rows

  -- The release of a one-time control, which the trigger may refuse.
  unfoldable pub release_control : Action W → Proc W (Unit {0})
  release_control a db =
      elim (complete_one_time_control a.tenant_id a.control_id (w.event_id db.controls)
        (w.event_at db.controls) db.controls) [
          | none ↦ raised database
          | some controls ↦ ok (tt, record db { controls = controls })
        ]

  -- With `is_live` the correlation key is given, without it is None.
  unfoldable pub persist_apply_result : Bool → Action W → Option (Members W) → Proc W (Unit {0})
  unfolding update_actions result_event release_control status_eq
  persist_apply_result is_live a response = do
    modify λ db. record db { actions = update_actions a response db.actions }
    if is_live
        then journalled (result_event a response)
          >> (if status_eq a.status applied then release_control a else pure tt)
        else pure tt
