-- ===== src/Guardrails/Diagnostics.antt =====
-- A diagnosis is told apart from a change: it is held to the quality of its data, and no setting of
-- the automation silences it.
use amz_command_center.Base.{arith, false, some, true, ◌≡◌}
use amz_command_center.Base.Int.{ℤ}
use amz_command_center.Number.{Number, ticks}
use amz_command_center.Guardrails.Defs.{
  Proposal, RunContext, TenantGuardConfig, data_quality, is_diagnostic, is_stale, is_unsettled,
  kill_switch,
}
use amz_command_center.Guardrails.Checks.{check}

module _ {W : Type 0} ⦃n : Number W⦄ where
  -- The settings and the context agree in what the quality of the data depends on.
  pub record SameData (cfg cfg' : TenantGuardConfig W) (ctx ctx' : RunContext W) : Type 0 where
    pub same_age : cfg.max_data_age_hours ≡ cfg'.max_data_age_hours
    pub same_lag : cfg.settlement_lag_days ≡ cfg'.settlement_lag_days
    pub same_now : ctx.now ≡ ctx'.now
    pub same_through : ctx.data_through ≡ ctx'.data_through
    pub same_loaded : ctx.data_loaded_at ≡ ctx'.data_loaded_at

  -- The verdict on a diagnosis depends on the settings and the context through the age, the
  -- settlement and the date of the data alone: not on the kill switch, the dry run, a cooldown, the
  -- blast radius or a daily limit.
  pub check_diagnostic_same :
      (p : Proposal W) (cfg cfg' : TenantGuardConfig W) (ctx ctx' : RunContext W)
      (min_clicks min_impressions : ℤ)
      → is_diagnostic p.action_type ≡ true
      → SameData cfg cfg' ctx ctx'
      → check p cfg ctx min_clicks min_impressions ≡ check p cfg' ctx' min_clicks min_impressions
  unfolding check data_quality is_stale is_unsettled
  check_diagnostic_same p cfg cfg' ctx ctx' min_clicks min_impressions g s = ground arith

  -- With automation off every change is blocked by the kill switch, whatever the data says, and no
  -- value is sent on but the proposed one.
  pub check_killed :
      (p : Proposal W) (cfg : TenantGuardConfig W) (ctx : RunContext W)
      (min_clicks min_impressions : ℤ)
      → is_diagnostic p.action_type ≡ false
      → cfg.automation_enabled ≡ false
      → let d = check p cfg ctx min_clicks min_impressions in
        (d.is_allowed ≡ false) × (d.blocked_by ≡ some kill_switch)
  unfolding check
  check_killed p cfg ctx min_clicks min_impressions g a = ground arith
