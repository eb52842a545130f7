-- ===== src/Protections/Defs.antt =====
-- `active_protection` and `consume_one_time` on the tables of protections and of their events.
use Prim.Native.String.{compare}
use text.Mathlib.Text.{is_lt}
use mathlib.Core.Option
use amz_command_center.Base.{
  Bool, List, Option, String, [], best, exists, false, if◌then◌else◌, ltb, member, none, not,
  opt_str_eq, select, some, str_eq, true, ℕ, ◌&&◌, ◌==◌, ◌||◌, ◌∷◌,
}
use amz_command_center.HumanControl.{TextCase}

abbrev pub destructive_actions : List String
destructive_actions =
    "add_negative_exact" ∷ "add_negative_phrase" ∷ "pause" ∷ "set_status_paused" ∷ []

pub record ProtectionDecision : Type 0 where
  pub is_blocked : Bool
  pub protection_id : Option String
  pub policy : Option String
  pub reason : Option String

-- A row of `entity_protection`.
pub record Protection : Type 0 where
  pub id : String
  pub tenant_id : String
  pub entity_type : String
  pub entity_value : String
  pub product_scope : String
  pub policy : String
  pub reason : String
  pub duration : String
  pub expires_at : Option ℕ
  pub created_at : ℕ

-- A row of `entity_protection_event`.
pub record ProtectionEvent : Type 0 where
  pub id : String
  pub tenant_id : String
  pub protection_id : String
  pub event_type : String
  pub reason : String
  pub actor_user_id : String
  pub occurred_at : ℕ

pub record Protections : Type 0 where
  pub rows : List Protection
  pub events : List ProtectionEvent

abbrev pub unprotected : ProtectionDecision
unprotected = record { is_blocked = false; protection_id = none; policy = none; reason = none }

-- `order by e.occurred_at desc,e.id desc`
abbrev pub latest_first : ProtectionEvent → ProtectionEvent → Bool
latest_first e f =
    ltb f.occurred_at e.occurred_at || (e.occurred_at == f.occurred_at && is_lt (compare f.id e.id))

abbrev pub event_of_protection : String → String → ProtectionEvent → Bool
event_of_protection tenant id e = str_eq e.tenant_id tenant && str_eq e.protection_id id

unfoldable pub latest_event : String → String → List ProtectionEvent → Option String
latest_event tenant id events =
    Option.map (λ e. e.event_type)
      (best latest_first (select (event_of_protection tenant id) events))

-- `p.expires_at is null or p.expires_at > now`
abbrev pub is_current : Protection → ℕ → Bool
is_current p now = elim p.expires_at [ none ↦ true | some end ↦ ltb now end ]

-- `order by (p.product_scope=scope) desc,p.created_at desc,p.id desc`
abbrev pub protection_before : String → Protection → Protection → Bool
protection_before scope p q =
    if str_eq p.product_scope scope
    then not (str_eq q.product_scope scope) || newer
    else not (str_eq q.product_scope scope) && newer
  where
    newer : Bool
    newer =
        ltb q.created_at p.created_at || (p.created_at == q.created_at && is_lt (compare q.id p.id))

abbrev pub is_over : Option String → Bool
is_over latest = opt_str_eq latest (some "released") || opt_str_eq latest (some "consumed")

module _ ⦃t : TextCase⦄ where
  abbrev pub protects : String → String → String → String → ℕ → Protection → Bool
  protects tenant entity_type entity_value scope now p =
      str_eq p.tenant_id tenant
      && str_eq p.entity_type entity_type
      && str_eq (t.lower p.entity_value) (t.lower (t.strip entity_value))
      && (str_eq p.product_scope "*" || str_eq p.product_scope scope)
      && is_current p now

  unfoldable pub find_protection :
      String → String → String → String → ℕ → Protections → Option Protection
  find_protection tenant entity_type entity_value scope now db =
      best (protection_before scope)
        (select (protects tenant entity_type entity_value scope now) db.rows)

  unfoldable pub active_protection :
      String → String → String → String → String → ℕ → Protections → ProtectionDecision
  active_protection tenant entity_type entity_value scope action_type now db =
      if not (member action_type destructive_actions)
      then unprotected
      else elim (find_protection tenant entity_type entity_value scope now db) [
        | none ↦ unprotected
        | some p ↦ if is_over (latest_event tenant p.id db.events) then unprotected else record {
          is_blocked = str_eq p.policy "allow" || str_eq p.policy "protect";
          protection_id = some p.id;
          policy = some p.policy;
          reason = some p.reason;
        }
      ]

abbrev pub consumption : String → String → String → String → ℕ → ProtectionEvent
consumption tenant id actor event_id now = record {
  id = event_id;
  tenant_id = tenant;
  protection_id = id;
  event_type = "consumed";
  reason = "one-time protection consumed";
  actor_user_id = actor;
  occurred_at = now;
}

abbrev pub has_protection_id : String → String → Protection → Bool
has_protection_id tenant id p =
    str_eq p.tenant_id tenant && str_eq p.id id && str_eq p.duration "one_time"

-- The id is the primary key, so that the row that the query finds is the only one.
unfoldable pub consume_one_time : String → String → String → String → ℕ → Protections → Protections
consume_one_time tenant id actor event_id now db =
    if exists (has_protection_id tenant id) db.rows
    then record db { events = consumption tenant id actor event_id now ∷ db.events }
    else db
