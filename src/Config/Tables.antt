-- ===== src/Config/Tables.antt =====
-- The tables of the configuration, its constants and errors.
use amz_command_center.Base.{Bool, List, Option, String, [], ℕ, ◌∷◌}
use amz_command_center.Json.{Json, Members}

abbrev pub scope_precedence : List String
scope_precedence = "tenant" ∷ "marketplace" ∷ "entity" ∷ []

-- A local setting and the setting that caps it.
abbrev pub hard_caps : List (String × String)
hard_caps =
    ("max_bid", "absolute_max_bid")
    ∷ ("max_daily_budget", "absolute_max_daily_budget")
    ∷ ("max_changes_per_day", "absolute_max_changes_per_day")
    ∷ []

-- The exceptions by their message, and the TypeError of a comparison.
pub data ConfigError : Type 0 where
  unsupported_scope wrong_tenant blank_scope hard_guard_replaced unknown_key : ConfigError
  not_comparable min_above_max unsupported_operation reason_required detach_with_values :
      ConfigError
  values_required not_admin no_target other_scope : ConfigError

pub record ConfigSource : Type 0 where
  pub level : String
  pub source_id : String
  pub version : ℕ
  pub is_hard : Bool

pub record EffectiveConfiguration (W : Type 0) : Type 0 where
  pub values : Members W
  pub sources : List (String × ConfigSource)
  pub resolved_at : ℕ

-- A row of `configuration_definition_version`.
pub record DefinitionVersion (W : Type 0) : Type 0 where
  pub key : String
  pub version : ℕ
  pub default_value : Json W
  pub is_hard : Bool
  pub effective_from : ℕ
  pub effective_to : Option ℕ

-- A row of `configuration_override_version`.
pub record OverrideVersion (W : Type 0) : Type 0 where
  pub id : String
  pub tenant_id : String
  pub scope_type : String
  pub scope_id : String
  pub version : ℕ
  pub operation : String
  pub values : Members W
  pub supersedes_id : Option String
  pub rollback_of_id : Option String
  pub reason : String
  pub created_by : String

-- What comes from outside: `strip`, Python's `x > y` on the values, where `none` is the TypeError,
-- `float("inf")`, the role of a member, and the id of a new row.
pub record ConfigWorld (W : Type 0) : Type 0 where
  pub strip : String → String
  pub greater : Json W → Json W → Option Bool
  pub infinity : W
  pub role_of : String → String → Option String
  pub new_id : List (OverrideVersion W) → String

-- The values, the sources and the keys that are hard guards.
pub record Draft (W : Type 0) : Type 0 where
  pub values : Members W
  pub sources : List (String × ConfigSource)
  pub hard_guards : List String
