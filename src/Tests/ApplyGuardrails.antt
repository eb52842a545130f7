-- ===== src/Tests/ApplyGuardrails.antt =====
-- An approved bid change, validated again before it is sent.
use amz_command_center.Base.{member, ok, refl, some, ◌*◌, ◌≡◌}
use amz_command_center.Number.{Ticks, Ticks-IsOrdered, ticks, ◌≼◌}
use amz_command_center.Json.{find, float_of, get, int_of, is_truthy, json_eq, size}
use amz_command_center.StateMachine.{day}
use amz_command_center.Samples.{
  bid_change, evidence_row, one_stamp, open_config, same_case, ticks_repr, token_redactor,
}
use amz_command_center.ApplyGuardrails.{
  accept, are_impossible, budget_increase_of, count_of, count_or_zero, load_apply_evidence, opt_eqb,
  read_counts, rebuild, tagged, to_datetime, to_number, validate_apply_guardrails,
}
use amz_command_center.ApplyGuardrails.Sound.{validate_bid_bounds}
use amz_command_center.Guardrails.{
  apply_bounds, blast_guard, budget_guard, change_guard, check, check_change, clamp_change,
  clamp_step, cooldown_guard, data_quality, is_blast, is_change_limit, is_diagnostic, is_sized,
  is_stale, is_thin, is_unsettled, over_daily_budget, size_guard, target_value,
}

validated_lem :
    validate_apply_guardrails (some evidence_row) bid_change open_config (10 * day) 3 0 ≡ ok 0
unfolding validate_apply_guardrails rebuild load_apply_evidence tagged read_counts count_of
    count_or_zero are_impossible to_number to_datetime accept budget_increase_of opt_eqb get find
    json_eq is_truthy float_of int_of size check is_diagnostic data_quality is_stale is_unsettled
    is_thin member cooldown_guard blast_guard is_blast change_guard is_change_limit size_guard
    is_sized clamp_change apply_bounds budget_guard over_daily_budget check_change clamp_step
    target_value
validated_lem = refl

validate_bid_bounds_example : ◌≼◌ {W = Ticks} 200 11_000 × ◌≼◌ {W = Ticks} 11_000 50_000
unfolding to_number get find float_of
validate_bid_bounds_example =
    validate_bid_bounds Ticks-IsOrdered (some evidence_row) bid_change open_config (10 * day) 3 0
      11_000 refl refl refl refl refl validated_lem
