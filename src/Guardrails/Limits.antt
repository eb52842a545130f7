-- ===== src/Guardrails/Limits.antt =====
-- How far an allowed change can go: the clamp, the bounds of bids and budgets, and the daily cap.
use amz_command_center.Base.{
  String, arith, false, member, refl, some, str_eq, str_eq_iff, true, ◌≡◌, ◌⊎◌,
}
use amz_command_center.Base.Int.{ℤ}
use amz_command_center.Number.{IsOrdered, Number, lt, nought, ticks, ◌≼◌}
use amz_command_center.Guardrails.Defs.{
  Proposal, RunContext, TenantGuardConfig, change_guard, cooldown_guard, data_quality,
  is_diagnostic,
}
use amz_command_center.Guardrails.Checks.{
  apply_bounds, blast_guard, budget_guard, check, check_change, clamp_change, clamp_step, is_sized,
  over_daily_budget, size_guard, target_value,
}

-- A text that equals one of two different texts is not the other.
other_kind : (kind a b : String) → str_eq kind a ≡ true → str_eq kind b ≡ str_eq a b
other_kind kind a b h = rw ((str_eq_iff kind a).0 h)

module _ {W : Type 0} ⦃n : Number W⦄ where
  check_change_value :
      (p : Proposal W) (cfg : TenantGuardConfig W) (ctx : RunContext W)
      (min_clicks min_impressions : ℤ) (after : W)
      → p.after_value ≡ some after
      → is_sized p ≡ true
      → let d = check_change p cfg ctx min_clicks min_impressions in
        d.is_allowed ≡ true
        → (d.value ≡ some (target_value p after cfg))
          × (over_daily_budget p (target_value p after cfg) cfg ctx ≡ false)
  unfolding check_change data_quality cooldown_guard blast_guard change_guard size_guard
      budget_guard over_daily_budget
  check_change_value p cfg ctx min_clicks min_impressions after s z h = ground arith

  -- An allowed bid or budget change carries the clamped, bounded and rounded value, and stays
  -- within the daily cap.
  check-target_value :
      (p : Proposal W) (cfg : TenantGuardConfig W) (ctx : RunContext W)
      (min_clicks min_impressions : ℤ) (after : W)
      → p.after_value ≡ some after
      → is_sized p ≡ true
      → is_diagnostic p.action_type ≡ false
      → (check p cfg ctx min_clicks min_impressions).is_allowed ≡ true
      → ((check p cfg ctx min_clicks min_impressions).value ≡ some (target_value p after cfg))
        × (over_daily_budget p (target_value p after cfg) cfg ctx ≡ false)
  unfolding check
  check-target_value p cfg ctx min_clicks min_impressions after s z g h =
      ground (arith, check_change_value p cfg ctx min_clicks min_impressions after s z)

  module _ (laws : IsOrdered W) where
    open laws use {≼_refl, ≼_trans, ≼_total, le_add, sub_le, mul_nonneg, abs_nonneg, round2_mono}

    -- A clamped value is at most `max_change_pct` of a positive old value away from it.
    pub clamp_change_bounds :
        (before after : W) (cfg : TenantGuardConfig W)
        → lt nought before ≡ true
        → nought ≼ cfg.max_change_pct
        → let limit = n.mul (n.abs before) cfg.max_change_pct in
          let (value, changed, line) = clamp_change before after cfg in
          (n.sub before limit ≼ value) × (value ≼ n.add before limit)
    unfolding clamp_change
    clamp_change_bounds before after cfg b c =
        let limit = n.mul (n.abs before) cfg.max_change_pct in
        let up = mul_nonneg (n.abs before) cfg.max_change_pct (abs_nonneg before) c in
        let apart =
          ≼_trans (n.sub before limit) before (n.add before limit) (sub_le before limit up)
            (le_add before limit up) in
        ground (arith, ≼_refl (n.add before limit), ≼_refl (n.sub before limit))

    bid_bounds :
        (kind : String) (value : W) (cfg : TenantGuardConfig W)
        → str_eq kind "set_bid" ≡ true
        → cfg.min_bid ≼ cfg.max_bid
        → let bounded = (apply_bounds kind value cfg).0 in
          (cfg.min_bid ≼ bounded) × (bounded ≼ cfg.max_bid)
    unfolding apply_bounds
    bid_bounds kind value cfg k h =
        ground
          (arith, ≼_refl cfg.min_bid, ≼_refl cfg.max_bid, other_kind kind "set_bid" "set_budget" k)

    budget_bounds :
        (kind : String) (value : W) (cfg : TenantGuardConfig W)
        → str_eq kind "set_budget" ≡ true
        → (apply_bounds kind value cfg).0 ≼ cfg.max_daily_budget
    unfolding apply_bounds
    budget_bounds kind value cfg k =
        ground (arith, ≼_refl cfg.max_daily_budget, other_kind kind "set_budget" "set_bid" k)

    -- If the tenant's bid limits are in order and in whole pennies, a bid that `check` allows lies
    -- within them, after the rounding too.
    pub check_bid_bounds :
        (p : Proposal W) (cfg : TenantGuardConfig W) (ctx : RunContext W)
        (min_clicks min_impressions : ℤ) (after : W)
        → p.action_type ≡ "set_bid"
        → p.after_value ≡ some after
        → cfg.min_bid ≼ cfg.max_bid
        → n.round2 cfg.min_bid ≡ cfg.min_bid
        → n.round2 cfg.max_bid ≡ cfg.max_bid
        → (check p cfg ctx min_clicks min_impressions).is_allowed ≡ true
        → (value : W) × ((check p cfg ctx min_clicks min_impressions).value ≡ some value)
          × (cfg.min_bid ≼ value)
          × (value ≼ cfg.max_bid)
    unfolding target_value is_sized is_diagnostic member
    check_bid_bounds p cfg ctx min_clicks min_impressions after t s m lo hi h =
        let k : str_eq p.action_type "set_bid" ≡ true = (str_eq_iff p.action_type "set_bid").1 t in
        let clamped = (clamp_step p after cfg).0 in
        let (above, below) = bid_bounds p.action_type clamped cfg k m in
        let bounded = (apply_bounds p.action_type clamped cfg).0 in
        let (carried, cap) =
          check-target_value p cfg ctx min_clicks min_impressions after s (rw (t, s) refl)
            (rw t refl) h in
        (
          n.round2 bounded,
          carried,
          rw lo at (round2_mono cfg.min_bid bounded above),
          rw hi at (round2_mono bounded cfg.max_bid below),
        )

    -- If the tenant's budget ceiling is in whole pennies, a budget that `check` allows is at most
    -- the ceiling, and if it is above the old budget then the day's increase with it is within the
    -- daily cap.
    pub check_budget_bounds :
        (p : Proposal W) (cfg : TenantGuardConfig W) (ctx : RunContext W)
        (min_clicks min_impressions : ℤ) (before after : W)
        → p.action_type ≡ "set_budget"
        → p.before_value ≡ some before
        → p.after_value ≡ some after
        → n.round2 cfg.max_daily_budget ≡ cfg.max_daily_budget
        → (check p cfg ctx min_clicks min_impressions).is_allowed ≡ true
        → (value : W) × ((check p cfg ctx min_clicks min_impressions).value ≡ some value)
          × (value ≼ cfg.max_daily_budget)
          × ((n.sub value before ≼ nought)
              ⊎ (n.add ctx.budget_increase_today (n.sub value before)
                  ≼ cfg.max_budget_increase_per_day))
    unfolding target_value is_sized is_diagnostic member over_daily_budget
    check_budget_bounds p cfg ctx min_clicks min_impressions before after t b s m h =
        let k : str_eq p.action_type "set_budget" ≡ true =
          (str_eq_iff p.action_type "set_budget").1 t in
        let clamped = (clamp_step p after cfg).0 in
        let bounded = (apply_bounds p.action_type clamped cfg).0 in
        let below = budget_bounds p.action_type clamped cfg k in
        let (carried, cap) =
          check-target_value p cfg ctx min_clicks min_impressions after s (rw (t, s) refl)
            (rw t refl) h in
        (
          n.round2 bounded,
          carried,
          rw m at (round2_mono bounded cfg.max_daily_budget below),
          ground arith,
        )
