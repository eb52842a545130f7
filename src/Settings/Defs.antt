-- ===== src/Settings/Defs.antt =====
-- `_validated_values` and `load_tenant_guard_config`.
use amz_command_center.Base.{
  Bool, List, Option, Result, String, [], false, if◌then◌else◌, none, not, ok, raise_if, raised,
  some, true, ℕ, ◌&&◌, ◌>>=◌, ◌>>◌, ◌∷◌,
}
use amz_command_center.Base.Int.{ltb_ℤ, pos, pos_part, ℤ}
use amz_command_center.Number.{Number, lt, nought, of_nat, ticks}
use amz_command_center.Json.{Json, Members, boolean, float_of, get, integer, null}
use amz_command_center.Guardrails.{TenantGuardConfig}

pub data ConfigError : Type 0 where
  incomplete : List String → ConfigError
  must_be_boolean must_be_integer must_be_numeric out_of_range : String → ConfigError
  automation_is_off is_dry_run : ConfigError

abbrev pub fields : List String
fields =
    "automation_enabled" ∷ "dry_run" ∷ "max_change_pct" ∷ "cooldown_days" ∷ "max_changes_per_day"
    ∷ "max_budget_increase_per_day" ∷ "blast_radius_pct" ∷ "min_bid" ∷ "max_bid"
    ∷ "max_daily_budget" ∷ "max_data_age_hours" ∷ "settlement_lag_days" ∷ []

-- The values after the checks of their types; a whole number may still be negative.
pub record Values (W : Type 0) : Type 0 where
  pub automation_enabled : Bool
  pub dry_run : Bool
  pub cooldown_days : ℤ
  pub max_changes_per_day : ℤ
  pub max_data_age_hours : ℤ
  pub settlement_lag_days : ℤ
  pub max_change_pct : W
  pub max_budget_increase_per_day : W
  pub blast_radius_pct : W
  pub min_bid : W
  pub max_bid : W
  pub max_daily_budget : W

abbrev pub is_empty : List String → Bool
is_empty [] = true
is_empty (x ∷ xs) = false

-- `low <= i <= high` of whole numbers.
abbrev pub int_between : ℤ → ℤ → ℤ → Bool
int_between low i high = not (ltb_ℤ i low) && not (ltb_ℤ high i)

module _ {W : Type 0} where
  abbrev pub is_null : Json W → Bool
  is_null null = true
  is_null _ = false

  -- The names of the columns that are missing or None.
  unfoldable pub missing_fields : Members W → List String → List String
  missing_fields row [] = []
  missing_fields row (name ∷ names) =
      let rest = missing_fields row names in if is_null (get name row) then name ∷ rest else rest

  -- `type(value) is bool`
  unfoldable pub bool_field : Members W → String → Result ConfigError Bool
  bool_field row name = elim (get name row) [ boolean b ↦ ok b | _ ↦ raised (must_be_boolean name) ]

  -- `type(value) is int`
  unfoldable pub int_field : Members W → String → Result ConfigError ℤ
  int_field row name = elim (get name row) [ integer i ↦ ok i | _ ↦ raised (must_be_integer name) ]

module _ {W : Type 0} ⦃n : Number W⦄ where
  unfoldable pub float_field : Members W → String → Result ConfigError W
  float_field row name = elim (float_of (get name row)) [
    | some x ↦ ok x
    | none ↦ raised (must_be_numeric name)
  ]

  -- The values by their types, in the order of the loops.
  unfoldable pub typed_values : Members W → Result ConfigError (Values W)
  typed_values row = do
    enabled ← bool_field row "automation_enabled"
    dry ← bool_field row "dry_run"
    days ← int_field row "cooldown_days"
    changes ← int_field row "max_changes_per_day"
    hours ← int_field row "max_data_age_hours"
    lag ← int_field row "settlement_lag_days"
    pct ← float_field row "max_change_pct"
    increase ← float_field row "max_budget_increase_per_day"
    blast ← float_field row "blast_radius_pct"
    low ← float_field row "min_bid"
    high ← float_field row "max_bid"
    budget ← float_field row "max_daily_budget"
    ok (record {
      automation_enabled = enabled;
      dry_run = dry;
      cooldown_days = days;
      max_changes_per_day = changes;
      max_data_age_hours = hours;
      settlement_lag_days = lag;
      max_change_pct = pct;
      max_budget_increase_per_day = increase;
      blast_radius_pct = blast;
      min_bid = low;
      max_bid = high;
      max_daily_budget = budget;
    })

  -- `0 < x <= 1`
  abbrev pub is_share : W → Bool
  is_share x = lt nought x && not (lt (of_nat 1) x)

  -- The table of checks. No value is NaN, which they refuse and a negated comparison would not.
  unfoldable pub check_ranges : Values W → Result ConfigError (Unit {0})
  check_ranges v = do
    raise_if (not (is_share v.max_change_pct)) (out_of_range "max_change_pct")
    raise_if (not (int_between (pos 0) v.cooldown_days (pos 90))) (out_of_range "cooldown_days")
    raise_if (ltb_ℤ v.max_changes_per_day (pos 0)) (out_of_range "max_changes_per_day")
    raise_if (lt v.max_budget_increase_per_day nought) (out_of_range "max_budget_increase_per_day")
    raise_if (not (is_share v.blast_radius_pct)) (out_of_range "blast_radius_pct")
    raise_if (lt v.min_bid nought) (out_of_range "min_bid")
    raise_if (lt v.max_bid v.min_bid) (out_of_range "max_bid")
    raise_if (lt v.max_daily_budget nought) (out_of_range "max_daily_budget")
    raise_if (not (int_between (pos 1) v.max_data_age_hours (pos 720)))
        (out_of_range "max_data_age_hours")
    raise_if (not (int_between (pos 0) v.settlement_lag_days (pos 30)))
        (out_of_range "settlement_lag_days")

  -- `TenantGuardConfig(**values)`: the checks have passed, so no whole number is negative.
  abbrev pub config_of : Values W → TenantGuardConfig W
  config_of v = record {
    automation_enabled = v.automation_enabled;
    dry_run = v.dry_run;
    max_change_pct = v.max_change_pct;
    cooldown_days = pos_part v.cooldown_days;
    max_changes_per_day = pos_part v.max_changes_per_day;
    max_budget_increase_per_day = v.max_budget_increase_per_day;
    blast_radius_pct = v.blast_radius_pct;
    min_bid = v.min_bid;
    max_bid = v.max_bid;
    max_daily_budget = v.max_daily_budget;
    max_data_age_hours = pos_part v.max_data_age_hours;
    settlement_lag_days = pos_part v.settlement_lag_days;
  }

  unfoldable pub validated_values : Members W → Result ConfigError (TenantGuardConfig W)
  validated_values row = do
    let missing = missing_fields row fields
    raise_if (not (is_empty missing)) (incomplete missing)
    v ← typed_values row
    check_ranges v
    ok (config_of v)

  -- A literal such as 0.25, as a quotient of whole numbers: division rounds to the nearest float.
  abbrev pub hundredths : ℕ → W
  hundredths k = n.div (of_nat k) (of_nat 100)

  -- The defaults of `TenantGuardConfig`.
  abbrev pub default_config : TenantGuardConfig W
  default_config = record {
    automation_enabled = false;
    dry_run = true;
    max_change_pct = hundredths 25;
    cooldown_days = 3;
    max_changes_per_day = 50;
    max_budget_increase_per_day = of_nat 50;
    blast_radius_pct = hundredths 30;
    min_bid = hundredths 2;
    max_bid = of_nat 5;
    max_daily_budget = of_nat 100;
    max_data_age_hours = 48;
    settlement_lag_days = 3;
  }

  -- The row of `tenant_settings`, if the tenant has one.
  unfoldable pub load_tenant_guard_config :
      Option (Members W) → Result ConfigError (TenantGuardConfig W)
  load_tenant_guard_config none = ok default_config
  load_tenant_guard_config (some row) = validated_values row
