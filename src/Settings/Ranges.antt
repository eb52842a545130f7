-- ===== src/Settings/Ranges.antt =====
-- What a configuration that was loaded from a row satisfies.
use amz_command_center.Base.{>>=-eq-ok, Bool, String, arith, not, ok, raise_if, true, ◌≡◌, ◌≤◌}
use amz_command_center.Base.Int.{pos, ℤ}
use amz_command_center.Number.{Number, lt, nought, of_nat, ticks, ◌≼◌}
use amz_command_center.Json.{Members, boolean, get, integer}
use amz_command_center.Guardrails.{TenantGuardConfig}
use amz_command_center.Settings.Defs.{
  Values, bool_field, check_ranges, config_of, fields, incomplete, int_field, is_empty,
  missing_fields, typed_values, validated_values,
}

module _ {W : Type 0} ⦃n : Number W⦄ where
  pub record IsValid (cfg : TenantGuardConfig W) : Type 0 where
    pub pct_pos : lt nought cfg.max_change_pct ≡ true
    pub pct_le : cfg.max_change_pct ≼ of_nat 1
    pub cooldown_le : cfg.cooldown_days ≤ 90
    pub increase_nonneg : nought ≼ cfg.max_budget_increase_per_day
    pub blast_pos : lt nought cfg.blast_radius_pct ≡ true
    pub blast_le : cfg.blast_radius_pct ≼ of_nat 1
    pub min_nonneg : nought ≼ cfg.min_bid
    pub bids_ordered : cfg.min_bid ≼ cfg.max_bid
    pub budget_nonneg : nought ≼ cfg.max_daily_budget
    pub age_pos : 1 ≤ cfg.max_data_age_hours
    pub age_le : cfg.max_data_age_hours ≤ 720
    pub lag_le : cfg.settlement_lag_days ≤ 30

  check_ranges-IsValid : (v : Values W) → check_ranges v ≡ ok tt → IsValid (config_of v)
  unfolding check_ranges
  check_ranges-IsValid v e = ground arith

  -- The whole numbers of the configuration are those of the row, and none was negative.
  check_ranges_exact :
      (v : Values W)
      → check_ranges v ≡ ok tt
      → (v.cooldown_days ≡ pos (config_of v).cooldown_days)
        × (v.max_changes_per_day ≡ pos (config_of v).max_changes_per_day)
        × (v.max_data_age_hours ≡ pos (config_of v).max_data_age_hours)
        × (v.settlement_lag_days ≡ pos (config_of v).settlement_lag_days)
  unfolding check_ranges
  check_ranges_exact v e = ground arith

  -- The switches and the whole numbers of the configuration are those that the row holds.
  pub record IsRead (row : Members W) (cfg : TenantGuardConfig W) : Type 0 where
    pub enabled_read : get "automation_enabled" row ≡ boolean cfg.automation_enabled
    pub dry_run_read : get "dry_run" row ≡ boolean cfg.dry_run
    pub cooldown_read : get "cooldown_days" row ≡ integer (pos cfg.cooldown_days)
    pub changes_read : get "max_changes_per_day" row ≡ integer (pos cfg.max_changes_per_day)
    pub age_read : get "max_data_age_hours" row ≡ integer (pos cfg.max_data_age_hours)
    pub lag_read : get "settlement_lag_days" row ≡ integer (pos cfg.settlement_lag_days)

  bool_field-eq-ok :
      (row : Members W) (name : String) {b : Bool}
      → bool_field row name ≡ ok b
      → get name row ≡ boolean b
  unfolding bool_field
  bool_field-eq-ok row name e = ground arith

  int_field-eq-ok :
      (row : Members W) (name : String) {i : ℤ}
      → int_field row name ≡ ok i
      → get name row ≡ integer i
  unfolding int_field
  int_field-eq-ok row name e = ground arith

  typed_values-IsRead :
      (row : Members W) {v : Values W}
      → typed_values row ≡ ok v
      → check_ranges v ≡ ok tt
      → IsRead row (config_of v)
  unfolding typed_values
  typed_values-IsRead row {v} e c =
      let exact = check_ranges_exact v c in
      ground (
        arith,
        exact,
        bool_field-eq-ok row "automation_enabled" {b = v.automation_enabled},
        bool_field-eq-ok row "dry_run" {b = v.dry_run},
        int_field-eq-ok row "cooldown_days" {i = v.cooldown_days},
        int_field-eq-ok row "max_changes_per_day" {i = v.max_changes_per_day},
        int_field-eq-ok row "max_data_age_hours" {i = v.max_data_age_hours},
        int_field-eq-ok row "settlement_lag_days" {i = v.settlement_lag_days},
      )

  -- A configuration that is loaded from a row holds the switches and the whole numbers of the row,
  -- and every range of the table of checks.
  pub validated_values-IsValid :
      (row : Members W) {cfg : TenantGuardConfig W}
      → validated_values row ≡ ok cfg
      → IsValid cfg × IsRead row cfg
  unfolding validated_values
  validated_values-IsValid row {cfg} e =
      let (u, none_missing, e1) =
        >>=-eq-ok
          (raise_if (not (is_empty (missing_fields row fields)))
            (incomplete (missing_fields row fields)))
          _ e in
      let (v, typed, e2) = >>=-eq-ok (typed_values row) _ e1 in
      let (w, ranges, e3) = >>=-eq-ok (check_ranges v) _ e2 in
      let same : config_of v ≡ cfg = ground arith in
      rw (← same) (check_ranges-IsValid v ranges, typed_values-IsRead row typed ranges)
