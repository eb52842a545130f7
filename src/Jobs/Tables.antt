-- ===== src/Jobs/Tables.antt =====
-- The tables of report jobs as records, with the statuses and errors.
use amz_command_center.Base.{Bool, List, Option, String, [], false, true, ℕ, ◌∷◌}
use amz_command_center.Number.{ticks}
use amz_command_center.Json.{Json, Members}

abbrev pub supported_formats : List String
supported_formats = "csv" ∷ "xlsx" ∷ "pdf" ∷ []

pub data JobStatus : Type 0 where
  queued running succeeded failed canceled : JobStatus

-- The text of a status.
unfoldable pub job_status_name : JobStatus → String
job_status_name queued = "queued"
job_status_name running = "running"
job_status_name succeeded = "succeeded"
job_status_name failed = "failed"
job_status_name canceled = "canceled"

unfoldable pub is_status : JobStatus → JobStatus → Bool
is_status queued queued = true
is_status running running = true
is_status succeeded succeeded = true
is_status failed failed = true
is_status canceled canceled = true
is_status _ _ = false

-- ValueError, LookupError and IdempotencyConflict by their message.
pub data JobError : Type 0 where
  unsupported_format dates_reversed key_required attempts_out_of_range : JobError
  no_definition idempotency_conflict no_running_job error_required not_retryable : JobError
  -- The check on the version of `report_job`.
  check_violated : JobError

pub record JobRef : Type 0 where
  pub id : String
  pub status : JobStatus
  pub attempt : ℕ
  pub is_created : Bool

-- A row of `report_definition`.
pub record Definition (W : Type 0) : Type 0 where
  pub id : String
  pub tenant_id : String
  pub code : String
  pub version : ℕ
  pub title : String
  pub source_contract : String
  pub render_contract_version : ℕ
  pub definition : Json W
  pub is_active : Bool

-- What the idempotency key is bound to: the columns that are compared, in their order.
pub record Scope (W : Type 0) : Type 0 where
  pub definition_code : String
  pub definition_version : ℕ
  pub requested_by : String
  pub date_from : ℕ
  pub date_to : ℕ
  pub filters : Members W
  pub output_format : String
  pub max_attempts : ℕ

-- A row of `report_job`.
pub record Job (W : Type 0) : Type 0 where
  pub id : String
  pub tenant_id : String
  pub definition_id : String
  pub definition_snapshot : Members W
  pub idempotency_key : String
  pub scope : Scope W
  pub status : JobStatus
  pub attempt : ℕ
  pub worker_id : Option String
  pub queued_at : ℕ
  pub next_attempt_at : ℕ
  pub started_at : Option ℕ
  pub finished_at : Option ℕ
  pub error : Option String

-- A row of `report_job_event`.
pub record JobEvent (W : Type 0) : Type 0 where
  pub tenant_id : String
  pub job_id : String
  pub event_type : String
  pub previous_state : Option JobStatus
  pub new_state : JobStatus
  pub attempt : ℕ
  pub actor_type : String
  pub actor_id : String
  pub dedupe_key : String
  pub metadata : Members W

pub record Reports (W : Type 0) : Type 0 where
  pub definitions : List (Definition W)
  pub jobs : List (Job W)
  pub events : List (JobEvent W)

-- What comes from outside: the id of a new row, the database's clock and the caller's, `str` of a
-- number, and the rows that other transactions have locked.
pub record JobWorld (W : Type 0) : Type 0 where
  pub new_id : List (Job W) → String
  pub database_now : ℕ
  pub clock : ℕ
  pub show : ℕ → String
  pub is_locked : Job W → Bool
