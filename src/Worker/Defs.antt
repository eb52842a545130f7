-- ===== src/Worker/Defs.antt =====
-- The state of the worker: the tables, the tally of a run, and the provider's client.
use amz_command_center.Base.{Bool, List, Option, Result, String, ok, ℕ}
use amz_command_center.Json.{Json, Members, Repr, empty, entry, text}
use amz_command_center.StateMachine.{Action, Refusal}
use amz_command_center.HumanControl.{Controls, TextCase}
use amz_command_center.Settings.{ConfigError}
use amz_command_center.ApplyGuardrails.{ApplyError, EvidenceRow, IsoFormat}
use amz_command_center.Audit.{ExecutionEvent, Redactor}

-- `WorkerResult`
pub record WorkerResult : Type 0 where
  pub scanned : ℕ
  pub applied : ℕ
  pub failed : ℕ
  pub rolled_back : ℕ
  pub alerts_created : ℕ

abbrev pub no_result : WorkerResult
no_result = record { scanned = 0; applied = 0; failed = 0; rolled_back = 0; alerts_created = 0 }

-- A row of the table `action`.
pub record Stored (W : Type 0) : Type 0 where
  pub action : Action W
  pub api_response : Json W

-- A row of the table `alert`.
pub record Alert (W : Type 0) : Type 0 where
  pub tenant_id : String
  pub kind : String
  pub severity : String
  pub title : String
  pub entity_ref : String
  pub detail : Json W
  pub is_resolved : Bool

-- A row of the table `pipeline_run`; the run is named by its place from the end.
pub record Run : Type 0 where
  pub tenant_id : String
  pub dataset : String
  pub status : String
  pub rows_loaded : Option ℕ
  pub error : Option String
  pub detail : Option WorkerResult

pub record Tables (W : Type 0) : Type 0 where
  pub actions : List (Stored W)
  pub journal : List (ExecutionEvent W)
  pub alerts : List (Alert W)
  pub controls : Controls
  pub runs : List Run
  -- The row of `tenant_settings`, and the sealed refresh token of the connection.
  pub settings : Option (Members W)
  pub refresh_token : Option String

-- What no code of the worker catches: a refused transition, or the trigger on a control's events.
pub data Fault : Type 0 where
  refused : Refusal → Fault
  database : Fault

-- A procedure on the tables.
abbrev pub Proc : Type 0 → Type 0 → Type 0
Proc W A = Tables W → Result Fault (A × Tables W)

-- The protocol `ActionClient`, over the provider's state. A call may raise, with a message.
pub record ActionClient (W S : Type 0) : Type 0 where
  pub read_before_value : Action W → S → Result String (Option (Members W)) × S
  pub apply : Action W → S → Result String (Members W) × S

-- `DryRunActionClient`, which changes nothing.
unfoldable pub dry_run_client : {W S : Type 0} → ActionClient W S
dry_run_client = record {
  read_before_value = λ a s. (ok a.before_value, s);
  apply = λ a s. (ok (entry "status" (text "WOULD_DO") (entry "action_id" (text a.id) empty)), s);
}

-- What a run takes from outside: texts, the clock, and queries that join tables of other parts.
pub record Surroundings (W S : Type 0) : Type 0 where
  pub redactor : Redactor
  pub text_case : TextCase
  pub iso_format : IsoFormat
  pub repr : Repr W
  pub now : ℕ
  -- The run's id as the correlation key, and the id and the time of a new control event.
  pub correlation_key : String
  pub event_id : Controls → String
  pub event_at : Controls → ℕ
  -- The row of `load_apply_evidence` for an action.
  pub evidence : Action W → Option (EvidenceRow W)
  -- The messages of the two errors.
  pub apply_error_text : ApplyError → String
  pub config_error_text : ConfigError → String
  -- `load_ads_client`, and the client over it or the message of the RuntimeError.
  pub live_client : Result String (ActionClient W S)
  pub sealed_token : S → String
