-- ===== src/Config/Defs.antt =====
-- `_validate_scopes`, `resolve_effective_configuration` and `publish_override`.
use amz_command_center.Base.{
  Bool, List, Option, Result, String, [], best, exists, false, if◌then◌else◌, is_some, leb, ltb,
  map, member, none, not, ok, opt_str_eq, raise_if, raised, select, some, str_eq, true, ℕ, ◌&&◌,
  ◌>>=◌, ◌>>◌, ◌∷◌,
}
use amz_command_center.Base.Int.{pos}
use amz_command_center.Json.{Json, Members, empty, entry, find, get, integer, json_eq, put, real}
use amz_command_center.Number.{Number, ticks}
use amz_command_center.Config.Tables.{
  ConfigError, ConfigSource, ConfigWorld, DefinitionVersion, Draft, EffectiveConfiguration,
  OverrideVersion, blank_scope, hard_caps, hard_guard_replaced, scope_precedence, unknown_key,
  unsupported_scope, wrong_tenant, not_comparable, min_above_max,
}

-- `d.get(key, default)`
abbrev pub value_or : {W : Type 0} → Json W → Option (Json W) → Json W
value_or default none = default
value_or default (some v) = v

-- `d.get(key)` of the scopes.
unfoldable pub scope_id_of : String → List (String × String) → Option String
scope_id_of key [] = none
scope_id_of key ((k, id) ∷ rest) = if str_eq k key then some id else scope_id_of key rest

-- `sources[key] = source`
unfoldable pub put_source :
    String → ConfigSource → List (String × ConfigSource) → List (String × ConfigSource)
put_source key source [] = (key, source) ∷ []
put_source key source ((k, s) ∷ rest) =
    if str_eq k key then (k, source) ∷ rest else (k, s) ∷ put_source key source rest

unfoldable pub source_of : String → List (String × ConfigSource) → Option ConfigSource
source_of key [] = none
source_of key ((k, s) ∷ rest) = if str_eq k key then some s else source_of key rest

module _ {W : Type 0} (w : ConfigWorld W) where
  unfoldable pub validate_scopes :
      String → List (String × String) → Result ConfigError (List (String × String))
  unfolding scope_id_of member opt_str_eq
  validate_scopes tenant scopes = do
    raise_if (exists (λ (s : String × String). not (member s.0 scope_precedence)) scopes)
        unsupported_scope
    let normalized = map (λ (s : String × String). (s.0, w.strip s.1)) scopes
    raise_if (not (opt_str_eq (scope_id_of "tenant" normalized) (some tenant))) wrong_tenant
    raise_if (exists (λ (s : String × String). str_eq s.1 "") normalized) blank_scope
    ok normalized

  -- The rows of the first query: of each key the latest version that is in force.
  abbrev pub is_in_force : ℕ → DefinitionVersion W → Bool
  is_in_force at d =
      leb d.effective_from at && elim d.effective_to [ none ↦ true | some end ↦ ltb at end ]

  abbrev pub is_newer : DefinitionVersion W → DefinitionVersion W → Bool
  is_newer d e = str_eq d.key e.key && ltb e.version d.version

  unfoldable pub definitions_at : ℕ → List (DefinitionVersion W) → List (DefinitionVersion W)
  definitions_at at table =
      let rows = select (is_in_force at) table in
      select (λ e. not (exists (λ d. is_newer d e) rows)) rows

  unfoldable pub system_draft : List (DefinitionVersion W) → Draft W → Draft W
  unfolding put put_source
  system_draft [] draft = draft
  system_draft (d ∷ definitions) draft = system_draft definitions (record {
    values = put d.key d.default_value draft.values;
    sources =
        put_source d.key
          (record { level = "system"; source_id = d.key; version = d.version; is_hard = d.is_hard })
          draft.sources;
    hard_guards = if d.is_hard then d.key ∷ draft.hard_guards else draft.hard_guards;
  })

  abbrev pub in_scope : String → String → Option String → OverrideVersion W → Bool
  in_scope tenant scope_type id o =
      str_eq o.tenant_id tenant && str_eq o.scope_type scope_type && opt_str_eq id (some o.scope_id)

  -- `order by version desc`
  abbrev pub is_later : OverrideVersion W → OverrideVersion W → Bool
  is_later x y = ltb y.version x.version

  -- The latest override of a scope.
  unfoldable pub active_override :
      String
      → List (String × String)
      → List (OverrideVersion W)
      → String
      → Option (OverrideVersion W)
  unfolding best scope_id_of opt_str_eq
  active_override tenant scopes table scope_type =
      best is_later (select (in_scope tenant scope_type (scope_id_of scope_type scopes)) table)

  -- One key after the other.
  unfoldable pub apply_values : ConfigSource → Members W → Draft W → Result ConfigError (Draft W)
  unfolding put put_source find member
  apply_values source empty draft = ok draft
  apply_values source (entry key value rest) draft = do
    raise_if (member key draft.hard_guards) hard_guard_replaced
    raise_if (not (is_some (find key draft.values))) unknown_key
    apply_values source rest (record draft {
      values = put key value draft.values;
      sources = put_source key source draft.sources;
    })

  unfoldable pub apply_override :
      Option (OverrideVersion W) → Draft W → Result ConfigError (Draft W)
  unfolding apply_values
  apply_override none draft = ok draft
  apply_override (some o) draft =
      if str_eq o.operation "detach"
      then ok draft
      else apply_values
          (record {
            level = o.scope_type;
            source_id = o.scope_id;
            version = o.version;
            is_hard = false;
          })
          o.values draft

  unfoldable pub apply_overrides :
      String
      → List (String × String)
      → List (OverrideVersion W)
      → List String
      → Draft W
      → Result ConfigError (Draft W)
  unfolding apply_override active_override
  apply_overrides tenant scopes table [] draft = ok draft
  apply_overrides tenant scopes table (scope ∷ rest) draft = do
    next ← apply_override (active_override tenant scopes table scope) draft
    apply_overrides tenant scopes table rest next

  abbrev pub compared : Json W → Json W → Result ConfigError Bool
  compared x y = elim (w.greater x y) [ none ↦ raised not_comparable | some b ↦ ok b ]

  abbrev pub capped_source :
      String → String → List (String × ConfigSource) → List (String × ConfigSource)
  capped_source local cap sources = elim (source_of cap sources) [
    | none ↦ sources
    | some s ↦ put_source local s sources
  ]

  -- One pair of HARD_CAPS.
  unfoldable pub apply_cap : String → String → Draft W → Result ConfigError (Draft W)
  unfolding put find put_source source_of
  apply_cap local cap draft = elim (find local draft.values) [
    | none ↦ ok draft
    | some x ↦ elim (find cap draft.values) [
      | none ↦ ok draft
      | some y ↦ (do
        above ← compared x y
        ok (
            if above
            then record draft {
              values = put local y draft.values;
              sources = capped_source local cap draft.sources;
            }
            else draft))
    ]
  ]

  unfoldable pub apply_caps : List (String × String) → Draft W → Result ConfigError (Draft W)
  unfolding apply_cap
  apply_caps [] draft = ok draft
  apply_caps ((local, cap) ∷ rest) draft = do next ← apply_cap local cap draft; apply_caps rest next

  unfoldable pub resolve_effective_configuration :
      List (DefinitionVersion W)
      → List (OverrideVersion W)
      → String
      → List (String × String)
      → ℕ
      → Result ConfigError (EffectiveConfiguration W)
  unfolding validate_scopes definitions_at system_draft apply_overrides apply_caps find
  resolve_effective_configuration definitions overrides tenant scopes at = do
    normalized ← validate_scopes tenant scopes
    let start =
        system_draft (definitions_at at definitions)
          (record { values = empty; sources = []; hard_guards = [] })
    merged ← apply_overrides tenant normalized overrides scope_precedence start
    draft ← apply_caps hard_caps merged
    above ←
        compared (value_or (integer (pos 0)) (find "min_bid" draft.values))
          (value_or (real w.infinity) (find "max_bid" draft.values))
    raise_if above min_above_max
    ok (record { values = draft.values; sources = draft.sources; resolved_at = at })
  -- `owner` or `admin` in the tenant, as `_require_admin` asks.

-- What a proposal would change of a setting.
pub record ConfigChange (W : Type 0) : Type 0 where
  pub key : String
  pub before : Json W
  pub after : Json W
  pub source : Option ConfigSource

unfoldable pub source_at : String → List (String × ConfigSource) → Option ConfigSource
source_at key [] = none
source_at key ((k, s) ∷ sources) =
    let rest = source_at key sources in if str_eq k key then some s else rest

module _ {W : Type 0} ⦃n : Number W⦄ where
  -- A missing value is None, as a null one is.
  unfoldable pub diff_configuration : EffectiveConfiguration W → Members W → List (ConfigChange W)
  unfolding get json_eq source_at
  diff_configuration current empty = []
  diff_configuration current (entry key value proposed) =
      let rest = diff_configuration current proposed in
      if json_eq (get key current.values) value
      then rest
      else record {
        key = key;
        before = get key current.values;
        after = value;
        source = source_at key current.sources;
      }
        ∷ rest
