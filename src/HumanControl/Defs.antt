-- ===== src/HumanControl/Defs.antt =====
-- The tables, the resolver `active_control`, and the release of a one-time control.
use Prim.Native.String.{compare}
use text.Mathlib.Text.{is_lt}
use mathlib.Core.Option
use amz_command_center.Base.{
  Bool, List, Option, String, [], false, if◌then◌else◌, leb, ltb, member, none, not, opt_str_eq,
  some, str_eq, true, ℕ, ◌&&◌, ◌==◌, ◌||◌, ◌∷◌, best, select,
}

-- A row of `entity_automation_control`.
pub record Control : Type 0 where
  pub id : String
  pub tenant_id : String
  pub entity_type : String
  pub entity_id : String
  pub product_scope : String
  pub duration : String
  pub expires_at : Option ℕ
  pub reason : String
  pub created_by : String
  pub created_at : ℕ

-- A row of `entity_automation_control_event`.
pub record ControlEvent : Type 0 where
  pub id : String
  pub tenant_id : String
  pub control_id : String
  pub state : String
  pub reason : String
  pub actor_user_id : String
  pub occurred_at : ℕ

pub record Controls : Type 0 where
  pub rows : List Control
  pub events : List ControlEvent

-- SQL's `lower` and Python's `strip`.
pub record TextCase : Type 0 where
  pub lower : String → String
  pub strip : String → String

pub record ControlDecision : Type 0 where
  pub is_blocked : Bool
  pub state : Option String
  pub control_id : Option String
  pub reason : Option String

-- The decision that automation owns the entity.
abbrev pub automated : ControlDecision
automated = record {
  is_blocked = false;
  state = some "AUTOMATED";
  control_id = none;
  reason = none;
}

-- `order by occurred_at desc, id desc`
abbrev pub event_before : ControlEvent → ControlEvent → Bool
event_before e f =
    ltb f.occurred_at e.occurred_at || (e.occurred_at == f.occurred_at && is_lt (compare f.id e.id))

abbrev pub event_of : String → String → ControlEvent → Bool
event_of tenant control e = str_eq e.tenant_id tenant && str_eq e.control_id control

-- The subquery for the latest state of a control; None where it has no event.
unfoldable pub latest_state : String → String → List ControlEvent → Option String
latest_state tenant control events =
    Option.map (λ e. e.state) (best event_before (select (event_of tenant control) events))

-- `order by (product_scope = scope) desc, created_at desc, id desc`
abbrev pub control_before : String → Control → Control → Bool
control_before scope c d =
    if str_eq c.product_scope scope
    then not (str_eq d.product_scope scope) || later
    else not (str_eq d.product_scope scope) && later
  where
    later : Bool
    later =
        ltb d.created_at c.created_at || (c.created_at == d.created_at && is_lt (compare d.id c.id))

module _ ⦃t : TextCase⦄ where
  -- The `where` clause for an entity.
  abbrev pub control_of : String → String → String → String → Control → Bool
  control_of tenant entity_type entity_id scope c =
      str_eq c.tenant_id tenant
      && str_eq c.entity_type entity_type
      && str_eq (t.lower c.entity_id) (t.lower (t.strip entity_id))
      && (str_eq c.product_scope "*" || str_eq c.product_scope scope)

  unfoldable pub find_control : String → String → String → String → Controls → Option Control
  find_control tenant entity_type entity_id scope db =
      best (control_before scope) (select (control_of tenant entity_type entity_id scope) db.rows)

  -- A temporary control whose time is over.
  abbrev pub is_review_due : Control → ℕ → Bool
  is_review_due c now =
      str_eq c.duration "temporary" && elim c.expires_at [ none ↦ false | some due ↦ leb due now ]

  -- The row of the query that was found, against the control that the action is linked to.
  unfoldable pub decide_control : Control → Option String → Option String → ℕ → ControlDecision
  decide_control c state action_control now =
      if opt_str_eq state (some "AUTOMATED")
      then automated
      else if opt_str_eq action_control (some c.id)
      then record {
        is_blocked = false;
        state = state;
        control_id = some c.id;
        reason = some c.reason;
      }
      else record {
        is_blocked = true;
        state = if is_review_due c now then some "REVIEW_DUE" else state;
        control_id = some c.id;
        reason = some c.reason;
      }

  unfoldable pub active_control :
      String → String → String → String → Option String → ℕ → Controls → ControlDecision
  unfolding decide_control
  active_control tenant entity_type entity_id scope action_control now db =
      elim (find_control tenant entity_type entity_id scope db) [
        | none ↦ automated
        | some c ↦ decide_control c (latest_state tenant c.id db.events) action_control now
      ]

-- The trigger on an insertion: a control begins in one of two states, ends once and does not repeat
-- its state. `none` is the exception, which no caller catches.
unfoldable pub insert_event : ControlEvent → Controls → Option Controls
insert_event e db = elim (latest_state e.tenant_id e.control_id db.events) [
  | none ↦ if member e.state ("HUMAN_OVERRIDE" ∷ "LOCKED" ∷ []) then some grown else none
  | some latest ↦ if str_eq latest "AUTOMATED" || str_eq e.state latest then none else some grown
]
  where
    grown : Controls
    grown = record db { events = e ∷ db.events }

abbrev pub has_id : String → String → Control → Bool
has_id tenant control c = str_eq c.tenant_id tenant && str_eq c.id control

-- The first row of the query by primary key.
unfoldable pub control_by_id : String → String → List Control → Option Control
control_by_id tenant control [] = none
control_by_id tenant control (c ∷ cs) =
    if has_id tenant control c then some c else control_by_id tenant control cs

-- The event that ends a one-time control, under the id and the time that the table gives it.
abbrev pub completion : String → Control → String → ℕ → ControlEvent
completion tenant c event_id now = record {
  id = event_id;
  tenant_id = tenant;
  control_id = c.id;
  state = "AUTOMATED";
  reason = "one-time human action completed";
  actor_user_id = c.created_by;
  occurred_at = now;
}

unfoldable pub complete_one_time_control :
    String → Option String → String → ℕ → Controls → Option Controls
unfolding insert_event
complete_one_time_control tenant none event_id now db = some db
complete_one_time_control tenant (some control) event_id now db =
    if str_eq control "" then some db else elim (control_by_id tenant control db.rows) [
      | none ↦ some db
      | some c ↦
          if str_eq c.duration "one_time"
          then insert_event (completion tenant c event_id now) db
          else some db
    ]
