-- ===== src/Worker/Procs.antt =====
-- The worker's statements on the tables, and the handling of one action.
use Prim.Native.String.{◌++◌ as append}
use amz_command_center.Base.{
  Result, refl, ap, ◌≡◌, Bool, List, Option, String, [], exists, false, if◌then◌else◌, is_some,
  length, ltb, map, none, not, ok, raised, select, some, sort_by, str_eq, take, true, ℕ, ◌&&◌, ◌==◌,
  ◌||◌, ◌∷◌,
}
use amz_command_center.Number.{ticks}
use amz_command_center.Json.{Json, dict, empty, entry, null, text}
use amz_command_center.StateMachine.{Action, approved, failed, status_eq}
use amz_command_center.Worker.Defs.{Fault, Alert, Proc, Run, Stored, Tables, WorkerResult}

infixl 5 ◌>>=◌ ◌>>◌
abbrev pub ◌>>=◌ : {W A B : Type 0} → Proc W A → (A → Proc W B) → Proc W B
◌>>=◌ m f db = elim (m db) [ raised e ↦ raised e | ok (a, db') ↦ f a db' ]

abbrev pub ◌>>◌ : {W A B : Type 0} → Proc W A → Proc W B → Proc W B
m >> k = m >>= λ _. k

abbrev pub pure : {W A : Type 0} → A → Proc W A
pure a db = ok (a, db)

abbrev pub modify : {W : Type 0} → (Tables W → Tables W) → Proc W (Unit {0})
modify f db = ok (tt, f db)

-- A procedure that returns, followed by another.
pub >>=-eq :
    {W A B : Type 0} (m : Proc W A) (f : A → Proc W B) (db : Tables W) {a : A} {db' : Tables W}
    → m db ≡ ok (a, db')
    → (m >>= f) db ≡ f a db'
>>=-eq m f db e = ap (λ r. elim r [ raised x ↦ raised x | ok (a, db') ↦ f a db' ]) e

-- Inversion of a procedure that returned.
pub bind_inversion :
    {W A B : Type 0} (m : Proc W A) (f : A → Proc W B) (db : Tables W) {b : B} {after : Tables W}
    → (m >>= f) db ≡ ok (b, after)
    → (a : A) × (db' : Tables W) × (m db ≡ ok (a, db')) × (f a db' ≡ ok (b, after))
bind_inversion {W} {A} {B} m f db {b} {after} e = go (m db) e
  where
    go :
        (r : Result Fault (A × Tables W))
        → elim r [ raised x ↦ raised x | ok (a, db') ↦ f a db' ] ≡ ok (b, after)
        → (a : A) × (db' : Tables W) × (r ≡ ok (a, db')) × (f a db' ≡ ok (b, after))
    go (ok (a, db')) e = (a, db', refl, e)
    go (raised x) e = cc

abbrev pub worker_dataset : String
worker_dataset = "action_worker"

-- `if x` for a text that may be None.
abbrev pub is_set : Option String → Bool
is_set none = false
is_set (some s) = not (str_eq s "")

-- Statements that change one row of `pipeline_run`: the run numbered `id` has `id` rows after it.
unfoldable pub update_run : ℕ → (Run → Run) → List Run → List Run
update_run id f [] = []
update_run id f (r ∷ rs) =
    let rest = update_run id f rs in if length rs == id then f r ∷ rs else r ∷ rest

-- A text or None as a JSON value.
abbrev pub or_null_text : {W : Type 0} → Option String → Json W
or_null_text none = null
or_null_text (some s) = text s

abbrev pub run_status : WorkerResult → Option String → String
run_status result error = if is_set error || not (result.failed == 0) then "failed" else "success"

module _ {W : Type 0} where
  unfoldable pub start_worker_run : String → Proc W ℕ
  start_worker_run tenant db = ok (
    length db.runs,
    record db {
      runs =
          record {
            tenant_id = tenant;
            dataset = worker_dataset;
            status = "running";
            rows_loaded = none;
            error = none;
            detail = none;
          }
          ∷ db.runs;
    },
  )

  unfoldable pub finish_worker_run : ℕ → WorkerResult → Option String → Proc W (Unit {0})
  finish_worker_run id result error = modify λ db. record db {
    runs =
        update_run id
          (λ run. record run {
            status = run_status result error;
            rows_loaded = some result.applied;
            error = error;
            detail = some result;
          })
          db.runs;
  }

  -- `order by approved_at nulls first, requested_at`
  abbrev pub fetch_before : Stored W → Stored W → Bool
  fetch_before x y = elim x.action.approved_at [
    | none ↦ is_some y.action.approved_at || earlier x.action.requested_at y.action.requested_at
    | some s ↦ elim y.action.approved_at [
      | none ↦ false
      | some t ↦ ltb s t || (s == t && earlier x.action.requested_at y.action.requested_at)
    ]
  ]
    where
      earlier : Option ℕ → Option ℕ → Bool
      earlier (some s) (some t) = ltb s t
      earlier (some s) none = true
      earlier none t = false

  -- `_to_action`: the columns that the query names; the other fields have their defaults.
  unfoldable pub to_action : Action W → Action W
  to_action a = record a {
    requested_by = none;
    requested_at = none;
    verified_at = none;
    rolled_back_at = none;
    outcome = none;
    error = none;
  }

  abbrev pub is_approved_of : String → Stored W → Bool
  is_approved_of tenant row =
      str_eq row.action.tenant_id tenant && status_eq row.action.status approved

  unfoldable pub fetch_approved : String → ℕ → Tables W → List (Action W)
  fetch_approved tenant limit db =
      map (λ row. to_action row.action)
        (take limit (sort_by fetch_before (select (is_approved_of tenant) db.actions)))

  abbrev pub is_open_alert : String → String → String → Alert W → Bool
  is_open_alert tenant kind entity_ref a =
      str_eq a.tenant_id tenant
      && str_eq a.kind kind
      && str_eq a.entity_ref entity_ref
      && not a.is_resolved

  -- Whether an alert was inserted: not where one of its kind is open.
  unfoldable pub persist_worker_alert : Alert W → Proc W Bool
  persist_worker_alert alert db =
      if exists (is_open_alert alert.tenant_id alert.kind alert.entity_ref) db.alerts
      then ok (false, db)
      else ok (true, record db { alerts = alert ∷ db.alerts })

  abbrev pub failure_alert : Action W → Alert W
  failure_alert a = record {
    tenant_id = a.tenant_id;
    kind = "action_failed";
    severity = "critical";
    title = append "Action " (append a.id (append " failed: " a.action_type));
    entity_ref = a.id;
    detail = dict (
        entry "action_id" (text a.id) (
          entry "entity_type" (text a.entity_type) (
            entry "entity_id" (text a.entity_id) (
              entry "action_type" (text a.action_type)
                (entry "error" (or_null_text a.error) empty)))));
    is_resolved = false;
  }

  unfoldable pub persist_action_failure_alert : Action W → Proc W Bool
  unfolding persist_worker_alert status_eq
  persist_action_failure_alert a =
      if status_eq a.status failed then persist_worker_alert (failure_alert a) else pure false

  unfoldable pub persist_auth_failure_alert : String → String → Proc W Bool
  unfolding persist_worker_alert
  persist_auth_failure_alert tenant error = persist_worker_alert (record {
    tenant_id = tenant;
    kind = "auth_expired";
    severity = "critical";
    title = "Ads action worker could not load credentials";
    entity_ref = "ads_api";
    detail = dict (entry "provider" (text "ads_api") (entry "error" (text error) empty));
    is_resolved = false;
  })
