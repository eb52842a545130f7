-- ===== src/Retry/Defs.antt =====
-- `release_due_retries` and `replay_dead_letter` on the rows of the table `action`.
use Prim.Native.String.{◌++◌ as append}
use amz_command_center.Base.{
  Bool, List, Option, Result, String, [], exists, false, first_of, if◌then◌else◌, is_some, leb, ltb,
  map, member, none, not, ok, opt_str_eq, raise_if, raised, select, some, sort_by, str_eq, take,
  true, ℕ, ◌&&◌, ◌+◌, ◌>>=◌, ◌>>◌, ◌∷◌,
}
use amz_command_center.Json.{dict, empty, null}
use amz_command_center.StateMachine.{
  Action, Status, approved, approver_roles, failed, pending, status_eq,
}
use amz_command_center.Audit.{
  EventType, ExecutionEvent, Redactor, append_event, key_or, retry_attempted, retry_scheduled,
}
use amz_command_center.Number.{ticks}

-- A row of the table `action` with the columns of its retries.
pub record Failing (W : Type 0) : Type 0 where
  pub action : Action W
  -- Not null in the table, where the action alone may have none.
  pub idempotency_key : String
  pub retry_count : ℕ
  pub failure_classification : Option String
  pub next_attempt_at : Option ℕ
  pub last_retry_at : Option ℕ
  pub dead_lettered_at : Option ℕ
  pub dead_letter_reason : Option String
  pub replay_count : ℕ

pub record RetryRelease : Type 0 where
  pub action_id : String
  pub attempt : ℕ

-- ValueError, PermissionError and LookupError, and the database's error on the unique index
-- uq_action_one_active_entity_change (packages/db/migrations/0025_action_collision_detection.sql).
pub data RetryError : Type 0 where
  limit_below_one not_permitted not_found entity_taken : RetryError

-- The rows and the journal.
pub record Queue (W : Type 0) : Type 0 where
  pub rows : List (Failing W)
  pub journal : List (ExecutionEvent W)

-- What comes from outside: `str` of a count, a new correlation key, and the rows that another
-- transaction has locked.
pub record RetryWorld (W : Type 0) : Type 0 where
  pub redactor : Redactor
  pub show : ℕ → String
  pub new_key : String
  pub is_locked : Failing W → Bool

abbrev pub is_active : Status → Bool
is_active pending = true
is_active approved = true
is_active _ = false

-- `order by next_attempt_at,requested_at`, nulls last.
abbrev pub earlier : Option ℕ → Option ℕ → Bool
earlier (some s) (some t) = ltb s t
earlier (some s) none = true
earlier none t = false

module _ {W : Type 0} where
  -- Another open change of the same entity.
  abbrev pub is_sibling : Failing W → Failing W → Bool
  is_sibling row other =
      str_eq other.action.tenant_id row.action.tenant_id
      && str_eq other.action.entity_type row.action.entity_type
      && str_eq other.action.entity_id row.action.entity_id
      && not (str_eq other.action.id row.action.id)
      && not (str_eq other.action.action_type "flag")
      && is_active other.action.status

  -- The unique index refuses the row as a pending one: another open change of its entity is there,
  -- and neither is a flag.
  unfoldable pub is_taken : Failing W → List (Failing W) → Bool
  is_taken row rows = not (str_eq row.action.action_type "flag") && exists (is_sibling row) rows

  -- The `where` clause; a comparison with null is not true.
  unfoldable pub is_due : String → ℕ → List (Failing W) → Failing W → Bool
  unfolding status_eq
  is_due tenant now rows row =
      str_eq row.action.tenant_id tenant
      && status_eq row.action.status failed
      && not (is_some row.dead_lettered_at)
      && opt_str_eq row.failure_classification (some "transient")
      && elim row.next_attempt_at [ none ↦ false | some at ↦ leb at now ]
      && not (exists (is_sibling row) rows)

  abbrev pub due_before : Failing W → Failing W → Bool
  due_before x y =
      if earlier x.next_attempt_at y.next_attempt_at
      then true
      else not (earlier y.next_attempt_at x.next_attempt_at)
        && earlier x.action.requested_at y.action.requested_at

  -- `_event`
  unfoldable pub retry_event :
      Failing W → EventType → String → String → String → String → ExecutionEvent W
  retry_event row kind actor_type actor correlation_key dedupe_key = record {
    tenant_id = row.action.tenant_id;
    action_id = row.action.id;
    event_type = kind;
    correlation_key = correlation_key;
    idempotency_key = row.idempotency_key;
    dedupe_key = dedupe_key;
    entity_type = row.action.entity_type;
    entity_id = row.action.entity_id;
    actor_type = actor_type;
    actor_id = some actor;
    previous_state = some failed;
    new_state = some pending;
    retry_attempt = row.retry_count;
    before_value = null;
    proposed_value = null;
    applied_value = null;
    provider_result_classification = row.failure_classification;
    verification_checkpoint = none;
    metadata = dict empty;
  }

  abbrev pub has_key : String → String → Failing W → Bool
  has_key tenant id row = str_eq row.action.tenant_id tenant && str_eq row.action.id id

  abbrev pub reopened : Failing W → Failing W
  reopened row = record row {
    action = record row.action { status = pending; approved_by = none; approved_at = none };
    next_attempt_at = none;
  }

  -- The update of one released row.
  unfoldable pub release_row : String → ℕ → String → Failing W → Failing W
  unfolding status_eq
  release_row tenant now id row =
      if has_key tenant id row && status_eq row.action.status failed
      then record (reopened row) { last_retry_at = some now }
      else row

  abbrev pub release_of : Failing W → RetryRelease
  release_of row = record { action_id = row.action.id; attempt = row.retry_count }

  -- The rows that the query returns.
  unfoldable pub due_rows : RetryWorld W → String → ℕ → ℕ → List (Failing W) → List (Failing W)
  unfolding is_due
  due_rows w tenant limit now rows = take limit (
      sort_by due_before (select (λ row. is_due tenant now rows row && not (w.is_locked row)) rows))

  -- The rows and the journal after the update of one of them and its event.
  abbrev pub release_one : RetryWorld W → String → ℕ → String → Failing W → Queue W → Queue W
  release_one w tenant now key row q = record {
    rows = map (release_row tenant now row.action.id) q.rows;
    journal =
        append_event ⦃r = w.redactor⦄
          (retry_event row retry_attempted "system" "retry-worker" key
            (append "retry:" (append (w.show row.retry_count) ":released")))
          q.journal;
  }

  -- The loop over them: an update that the index refuses raises, and the transaction is lost.
  unfoldable pub release_all :
      RetryWorld W → String → ℕ → String → List (Failing W) → Queue W → Result RetryError (Queue W)
  unfolding release_row retry_event is_taken
  release_all w tenant now key [] q = ok q
  release_all w tenant now key (row ∷ chosen) q = do
    raise_if (is_taken row q.rows) entity_taken
    release_all w tenant now key chosen (release_one w tenant now key row q)

  unfoldable pub release_due_retries :
      RetryWorld W
      → String
      → ℕ
      → ℕ
      → Option String
      → Queue W
      → Result RetryError (List RetryRelease × Queue W)
  unfolding due_rows release_all
  release_due_retries w tenant limit now key q = do
    raise_if (ltb limit 1) limit_below_one
    let chosen = due_rows w tenant limit now q.rows
    q' ← release_all w tenant now (key_or key (append "retry-release:" w.new_key)) chosen q
    ok (map release_of chosen, q')

  abbrev pub is_dead : String → String → Failing W → Bool
  is_dead tenant id row =
      has_key tenant id row && status_eq row.action.status failed && is_some row.dead_lettered_at

  unfoldable pub replay_row : String → String → Failing W → Failing W
  replay_row tenant id row =
      if has_key tenant id row
      then record (reopened row) {
        dead_lettered_at = none;
        dead_letter_reason = none;
        replay_count = row.replay_count + 1;
      }
      else row

  -- The rows and the journal after the update of a dead letter and its event.
  abbrev pub replay_one :
      RetryWorld W → String → String → String → Option String → Failing W → Queue W → Queue W
  replay_one w tenant id actor key row q = record {
    rows = map (replay_row tenant id) q.rows;
    journal =
        append_event ⦃r = w.redactor⦄
          (retry_event row retry_scheduled "user" actor
            (key_or key (append "dead-letter-replay:" w.new_key))
            (append "retry:" (append (w.show row.retry_count) (append ":replay:" actor))))
          q.journal;
  }

  unfoldable pub replay_dead_letter :
      RetryWorld W
      → String
      → String
      → String
      → String
      → Option String
      → Queue W
      → Result RetryError (RetryRelease × Queue W)
  unfolding replay_row retry_event status_eq is_taken
  replay_dead_letter w tenant id actor role key q = do
    raise_if (not (member role approver_roles)) not_permitted
    elim (first_of (select (is_dead tenant id) q.rows)) [
      | none ↦ raised not_found
      | some row ↦ do
        raise_if (is_taken row q.rows) entity_taken
        ok (release_of row, replay_one w tenant id actor key row q)
    ]
