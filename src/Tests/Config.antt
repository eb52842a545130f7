-- ===== src/Tests/Config.antt =====
-- A bid limit of 9 under an absolute one of 5, which is a hard guard, and an override.
use amz_command_center.Base.{
  Bool, List, Option, String, [], arith, best, false, ltb, member, none, ok, opt_str_eq, refl, some,
  true, ◌∷◌, ◌≡◌,
}
use amz_command_center.Base.Int.{pos}
use amz_command_center.Number.{Ticks, ticks}
use amz_command_center.Json.{
  Json, array, boolean, dict, empty, entry, find, integer, null, put, real, text,
}
use amz_command_center.Config.{
  ConfigWorld, DefinitionVersion, Draft, EffectiveConfiguration, OverrideVersion, active_override,
  apply_cap, apply_caps, apply_override, apply_overrides, apply_values, definitions_at, is_admin,
  publish_override, put_source, resolve_effective_configuration, scope_id_of, source_of,
  system_draft, validate_scopes, value_or,
}
use amz_command_center.Config.Caps.{IsCapped, resolve-IsCapped}
use amz_command_center.Config.Guards.{resolve-guarded}

abbrev greater_real : Json Ticks → Json Ticks → Option Bool
greater_real (real x) (real y) = some (ltb y x)
greater_real _ _ = some false

irreflexive_lem : (v : Json Ticks) → ¬ (greater_real v v ≡ some true)
irreflexive_lem (real x) e = ground arith
irreflexive_lem null e = ground arith
irreflexive_lem (boolean b) e = ground arith
irreflexive_lem (integer i) e = ground arith
irreflexive_lem (text s) e = ground arith
irreflexive_lem (array xs) e = ground arith
irreflexive_lem (dict d) e = ground arith

abbrev world : ConfigWorld Ticks
world = record {
  strip = λ s. s;
  greater = greater_real;
  infinity = 1_000_000_000;
  role_of = λ tenant user. some "owner";
  new_id = λ table. "o-1";
}

abbrev setting : String → Ticks → Bool → DefinitionVersion Ticks
setting key value is_hard = record {
  key = key;
  version = 1;
  default_value = real value;
  is_hard = is_hard;
  effective_from = 0;
  effective_to = none;
}

abbrev definitions : List (DefinitionVersion Ticks)
definitions = setting "max_bid" 90_000 false ∷ setting "absolute_max_bid" 50_000 true ∷ []

abbrev scopes : List (String × String)
scopes = ("tenant", "t-1") ∷ []

resolve_lem :
    (c : EffectiveConfiguration Ticks) × (resolve_effective_configuration world definitions [] "t-1"
        scopes 9
      ≡ ok c)
unfolding resolve_effective_configuration validate_scopes definitions_at system_draft
    apply_overrides apply_override apply_values active_override apply_caps apply_cap put put_source
    source_of find member scope_id_of opt_str_eq best
resolve_lem = (_, refl)

resolve-IsCapped_example :
    IsCapped world "max_bid" "absolute_max_bid" resolve_lem.0.values
    × IsCapped world "max_daily_budget" "absolute_max_daily_budget" resolve_lem.0.values
    × IsCapped world "max_changes_per_day" "absolute_max_changes_per_day" resolve_lem.0.values
    × (greater_real
          (value_or (integer (pos 0)) (find "min_bid" resolve_lem.0.values))
          (value_or (real world.infinity) (find "max_bid" resolve_lem.0.values))
        ≡ some false)
resolve-IsCapped_example =
    resolve-IsCapped world definitions [] "t-1" scopes 9 irreflexive_lem resolve_lem.1

abbrev start : Draft Ticks
start =
    system_draft world (definitions_at world 9 definitions)
      (record { values = empty; sources = []; hard_guards = [] })

hard_lem : member "absolute_max_bid" start.hard_guards ≡ true
unfolding system_draft definitions_at member
hard_lem = refl

resolve-guarded_example :
    find "absolute_max_bid" resolve_lem.0.values ≡ find "absolute_max_bid" start.values
resolve-guarded_example =
    resolve-guarded world definitions [] "t-1" scopes 9 "absolute_max_bid" hard_lem refl
      resolve_lem.1

publish_lem :
    (id : String) × (after : List (OverrideVersion Ticks)) × (publish_override world "t-1" "tenant"
        "t-1"
        (entry "max_bid" (real 30_000) empty)
        "u-1"
        "cheaper"
        "apply"
        none
        []
      ≡ ok (id, after))
unfolding publish_override validate_scopes scope_id_of is_admin opt_str_eq member best
publish_lem = (_, _, refl)

scope_lem : scope_id_of "tenant" scopes ≡ some "t-1"
unfolding scope_id_of
scope_lem = refl
