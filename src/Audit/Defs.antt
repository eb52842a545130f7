-- ===== src/Audit/Defs.antt =====
-- `EventType`, `ExecutionEvent`, `sanitize`, `append_event` and `event_for`.
use amz_command_center.Base.{
  Bool, List, Option, String, if◌then◌else◌, none, some, str_eq, ℕ, ◌&&◌, ◌∷◌, exists,
}
use amz_command_center.Json.{Items, Json, Members, array, cons, dict, empty, entry, nil, null, text}
use amz_command_center.StateMachine.{Action, Status}

pub data EventType : Type 0 where
  apply_requested apply_started apply_succeeded apply_failed drift_blocked : EventType
  retry_scheduled retry_attempted retry_exhausted : EventType
  rollback_requested rollback_succeeded rollback_failed : EventType
  verification_scheduled verification_checkpoint verification_result verification_terminal :
      EventType

-- The text that is stored for the type.
unfoldable pub event_name : EventType → String
event_name apply_requested = "action.live_apply.requested"
event_name apply_started = "action.live_apply.started"
event_name apply_succeeded = "action.live_apply.succeeded"
event_name apply_failed = "action.live_apply.failed"
event_name drift_blocked = "action.live_apply.drift_blocked"
event_name retry_scheduled = "action.retry.scheduled"
event_name retry_attempted = "action.retry.attempted"
event_name retry_exhausted = "action.retry.exhausted"
event_name rollback_requested = "action.rollback.requested"
event_name rollback_succeeded = "action.rollback.succeeded"
event_name rollback_failed = "action.rollback.failed"
event_name verification_scheduled = "action.verification.scheduled"
event_name verification_checkpoint = "action.verification.checkpoint"
event_name verification_result = "action.verification.result"
event_name verification_terminal = "action.verification.terminal"

-- The regular expression `_SECRET` on a key, and the first thousand characters of a text.
pub record Redactor : Type 0 where
  pub is_secret : String → Bool
  pub clip : String → String

abbrev pub redacted : String
redacted = "[REDACTED]"

unfoldable mutual
  pub sanitize : {W : Type 0} ⦃r : Redactor⦄ → Json W → Json W
  sanitize (dict d) = dict (sanitize_members d)
  sanitize (array xs) = array (sanitize_items xs)
  sanitize ⦃r⦄ (text s) = text (r.clip s)
  sanitize v = v

  pub sanitize_items : {W : Type 0} ⦃r : Redactor⦄ → Items W → Items W
  sanitize_items nil = nil
  sanitize_items (cons v xs) = cons (sanitize v) (sanitize_items xs)

  pub sanitize_members : {W : Type 0} ⦃r : Redactor⦄ → Members W → Members W
  sanitize_members empty = empty
  sanitize_members ⦃r⦄ (entry k v rest) =
      entry k (if r.is_secret k then text redacted else sanitize v) (sanitize_members rest)

-- The columns that the worker, the retries and the verification fill; the others keep their defaults.
pub record ExecutionEvent (W : Type 0) : Type 0 where
  pub tenant_id : String
  pub action_id : String
  pub event_type : EventType
  pub correlation_key : String
  pub idempotency_key : String
  pub dedupe_key : String
  pub entity_type : String
  pub entity_id : String
  pub actor_type : String
  pub actor_id : Option String
  pub previous_state : Option Status
  pub new_state : Option Status
  pub retry_attempt : ℕ
  pub before_value : Json W
  pub proposed_value : Json W
  pub applied_value : Json W
  pub provider_result_classification : Option String
  pub verification_checkpoint : Option String
  pub metadata : Json W

-- `key or other`
abbrev pub key_or : Option String → String → String
key_or none other = other
key_or (some key) other = if str_eq key "" then other else key

module _ {W : Type 0} where
  -- The unique key (tenant_id, action_id, event_type, dedupe_key).
  unfoldable pub same_key : ExecutionEvent W → ExecutionEvent W → Bool
  same_key e f =
      str_eq e.tenant_id f.tenant_id
      && str_eq e.action_id f.action_id
      && str_eq (event_name e.event_type) (event_name f.event_type)
      && str_eq e.dedupe_key f.dedupe_key

  unfoldable pub stored : ⦃r : Redactor⦄ → ExecutionEvent W → ExecutionEvent W
  stored e = record e {
    before_value = sanitize e.before_value;
    proposed_value = sanitize e.proposed_value;
    applied_value = sanitize e.applied_value;
    metadata = sanitize e.metadata;
  }

  -- `on conflict do nothing`; the newest event stands first.
  unfoldable pub append_event :
      ⦃r : Redactor⦄ → ExecutionEvent W → List (ExecutionEvent W) → List (ExecutionEvent W)
  append_event e journal = if exists (same_key e) journal then journal else stored e ∷ journal

  -- `None` is stored as a JSON null.
  abbrev pub or_json_null : Option (Members W) → Json W
  or_json_null none = null
  or_json_null (some d) = dict d

  -- The fields that `event_for` takes from the action, and the defaults of the others.
  unfoldable pub event_for : Action W → EventType → String → String → ExecutionEvent W
  event_for a kind correlation_key dedupe_key = record {
    tenant_id = a.tenant_id;
    action_id = a.id;
    event_type = kind;
    correlation_key = correlation_key;
    idempotency_key = key_or a.idempotency_key a.id;
    dedupe_key = dedupe_key;
    entity_type = a.entity_type;
    entity_id = a.entity_id;
    actor_type = "worker";
    actor_id = none;
    previous_state = none;
    new_state = none;
    retry_attempt = 0;
    before_value = or_json_null a.before_value;
    proposed_value = dict a.after_value;
    applied_value = null;
    provider_result_classification = none;
    verification_checkpoint = none;
    metadata = dict empty;
  }
