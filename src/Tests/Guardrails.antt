-- ===== src/Tests/Guardrails.antt =====
-- The guardrails on a bid, a budget and a diagnosis.
use amz_command_center.Base.{false, is_some, member, not, refl, some, true, ◌+◌, ◌-◌, ◌≡◌, ◌⊎◌}
use amz_command_center.Number.{Ticks, Ticks-IsOrdered, ticks, ◌≼◌}
use amz_command_center.Samples.{bid_proposal, budget_proposal, open_config, tenth_day, ticks_repr}
use amz_command_center.Guardrails.{
  Decision, Proposal, TenantGuardConfig, apply_bounds, blast_guard, budget_guard, change_guard,
  check, check_change, clamp_change, clamp_step, cooldown_guard, data_quality, default_min_clicks,
  default_min_impressions, is_blast, is_change_limit, is_diagnostic, is_sized, is_stale, is_thin,
  is_unsettled, over_daily_budget, size_guard, target_value,
}
use amz_command_center.Guardrails.Order.{check-first_violation, first_violation, guard_table}
use amz_command_center.Guardrails.Limits.{check_budget_bounds}

abbrev asked : Decision Ticks
asked = check bid_proposal open_config tenth_day default_min_clicks default_min_impressions

abbrev flagged : Proposal Ticks
flagged = record bid_proposal { action_type = "flag" }

-- Automation is off, the limits of the day are used up.
abbrev closed_config : TenantGuardConfig Ticks
closed_config = record open_config { automation_enabled = false; max_changes_per_day = 0 }

check-first_violation_example :
    (asked.blocked_by
      ≡ first_violation (
          guard_table bid_proposal open_config tenth_day default_min_clicks
            default_min_impressions))
    × (asked.is_allowed ≡ not (is_some asked.blocked_by))
check-first_violation_example =
    check-first_violation bid_proposal open_config tenth_day default_min_clicks
      default_min_impressions

allowed_bid : asked.is_allowed ≡ true
unfolding check is_diagnostic data_quality is_stale is_unsettled is_thin member cooldown_guard
    blast_guard is_blast change_guard is_change_limit size_guard is_sized clamp_change apply_bounds
    budget_guard over_daily_budget check_change clamp_step target_value
allowed_bid = refl

abbrev asked_budget : Decision Ticks
asked_budget =
    check budget_proposal open_config tenth_day default_min_clicks default_min_impressions

allowed_budget : asked_budget.is_allowed ≡ true
unfolding check is_diagnostic data_quality is_stale is_unsettled is_thin member cooldown_guard
    blast_guard is_blast change_guard is_change_limit size_guard is_sized clamp_change apply_bounds
    budget_guard over_daily_budget check_change clamp_step target_value
allowed_budget = refl

check_budget_bounds_example :
    (value : Ticks) × (asked_budget.value ≡ some value)
    × (value ≼ 1_000_000)
    × ((value - 200_000 ≼ 0) ⊎ (100_000 + (value - 200_000) ≼ 500_000))
check_budget_bounds_example =
    check_budget_bounds Ticks-IsOrdered budget_proposal open_config tenth_day default_min_clicks
      default_min_impressions 200_000 230_000 refl refl refl refl allowed_budget
