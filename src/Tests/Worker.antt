-- ===== src/Tests/Worker.antt =====
-- Runs of the worker over one approved bid change, with a provider that counts its writes.
use amz_command_center.Base.{
  Option, [], false, length, member, none, ok, raised, refl, select, some, true, ℕ, ◌*◌, ◌+◌, ◌↔◌,
  ◌∷◌, ◌≡◌, ◌⊎◌,
}
use amz_command_center.Number.{Ticks, ticks}
use amz_command_center.Json.{
  Members, dict_eq, empty, find, float_of, get, int_of, is_truthy, json_eq, null, size,
}
use amz_command_center.StateMachine.{Action, approved, day, failed, has_drifted, hour}
use amz_command_center.Samples.{
  bid_change, evidence_row, locked, one_stamp, open_config, open_row, same_case, ticks_repr,
  token_redactor, valued,
}
use amz_command_center.Settings.{automation_is_off, load_tenant_guard_config}
use amz_command_center.Guardrails.{
  apply_bounds, blast_guard, budget_guard, change_guard, check, check_change, clamp_change,
  clamp_step, cooldown_guard, data_quality, is_blast, is_change_limit, is_diagnostic, is_sized,
  is_stale, is_thin, is_unsettled, over_daily_budget, size_guard, target_value,
}
use amz_command_center.ApplyGuardrails.{
  accept, are_impossible, budget_increase_of, count_of, count_or_zero, load_apply_evidence, opt_eqb,
  read_counts, rebuild, tagged, to_datetime, to_number, validate_apply_guardrails,
}
use amz_command_center.Worker.{
  ActionClient, Fault, Surroundings, Tables, WorkerResult, no_result, apply_action,
  validate_control_batch, validate_live_batch, fetch_approved, run_once,
  require_current_live_consent, is_drift,
}
use amz_command_center.Worker.Checking.{IsChecked, is_free, validate_control_batch_total}
use amz_command_center.Worker.Budget.{admitted, validate_live_batch_total}
use amz_command_center.Worker.Safety.{IsAccounted, run_once_all_or_nothing}
use amz_command_center.Worker.Consent.{LacksConsent, run_once_needs_consent}
use amz_command_center.Worker.Sending.{
  IsApplied, IsSent, IsSettled, apply_action-IsApplied_iff, apply_action_drift, apply_action_total,
}

abbrev world : Surroundings Ticks ℕ
world = record {
  redactor = token_redactor;
  text_case = same_case;
  iso_format = one_stamp;
  repr = ticks_repr;
  now = 10 * day;
  correlation_key = "run-1";
  event_id = λ controls. "e-9";
  event_at = λ controls. 10 * day;
  evidence = λ a. some evidence_row;
  apply_error_text = λ e. "guardrail";
  config_error_text = λ e. "no consent";
  live_client = raised "no credentials";
  sealed_token = λ s. "sealed";
}

-- The live value is the one that the client has; a write is counted.
abbrev client : Option (Members Ticks) → ActionClient Ticks ℕ
client live = record { read_before_value = λ a s. (ok live, s); apply = λ a s. (ok empty, s + 1) }

abbrev approved_bid : Action Ticks
approved_bid = record bid_change { status = approved; approved_at = some hour }

abbrev tables : Tables Ticks
tables = record {
  actions = record { action = approved_bid; api_response = null } ∷ [];
  journal = [];
  alerts = [];
  controls = locked;
  runs = [];
  settings = some open_row;
  refresh_token = none;
}

apply_action_total_example :
    (b : Action Ticks) × (response : Option (Members Ticks)) × ((apply_action world
        (client none)
        approved_bid
        0).0
      ≡ ok (b, response))
    × IsSettled world approved_bid b
apply_action_total_example = apply_action_total world (client none) approved_bid 0 refl

apply_action-IsApplied_iff_example :
    IsApplied world (client none) approved_bid 0 ↔ IsSent world (client none) approved_bid 0
apply_action-IsApplied_iff_example =
    apply_action-IsApplied_iff world (client none) approved_bid 0 refl

drifted_lem : has_drifted (some (valued 12_500)) approved_bid.before_value ≡ true
unfolding has_drifted dict_eq json_eq size find
drifted_lem = refl

apply_action_drift_example :
    (b : Action Ticks) × (apply_action world (client (some (valued 12_500))) approved_bid 0
      ≡ (ok (b, some empty), 1))
    × (b.status ≡ failed)
    × (is_drift world b ≡ true)
apply_action_drift_example =
    apply_action_drift world (client (some (valued 12_500))) approved_bid 0 (some (valued 12_500))
      empty refl refl refl drifted_lem

validate_control_batch_total_example :
    IsChecked world
      (approved_bid ∷ [])
      no_result
      tables
      (validate_control_batch world (approved_bid ∷ []) no_result tables)
      (select (is_free world locked) (approved_bid ∷ []))
validate_control_batch_total_example =
    validate_control_batch_total world (approved_bid ∷ []) no_result tables (refl, tt)

validate_live_batch_total_example :
    IsChecked world
      (approved_bid ∷ [])
      no_result
      tables
      (validate_live_batch world (approved_bid ∷ []) open_config 0 0 no_result tables)
      (admitted world (approved_bid ∷ []) open_config 0 0)
validate_live_batch_total_example =
    validate_live_batch_total world (approved_bid ∷ []) open_config 0 0 no_result tables (refl, tt)

left_lem :
    (tally : WorkerResult) × (db' : Tables Ticks) × (validate_live_batch world
        (approved_bid ∷ [])
        open_config
        3
        0
        no_result
        tables
      ≡ ok ((approved_bid ∷ [], tally), db'))
unfolding validate_live_batch validate_apply_guardrails rebuild load_apply_evidence tagged
    read_counts count_of count_or_zero are_impossible to_number to_datetime accept
    budget_increase_of opt_eqb get find json_eq is_truthy float_of int_of size check is_diagnostic
    data_quality is_stale is_unsettled is_thin member cooldown_guard blast_guard is_blast
    change_guard is_change_limit size_guard is_sized clamp_change apply_bounds budget_guard
    over_daily_budget check_change clamp_step target_value
left_lem = (no_result, tables, refl)

run_once_all_or_nothing_example :
    ((x : Fault) × (s' : ℕ) × (run_once world "t-1" 25 (some (client none)) false 0 tables
        ≡ (raised x, tables, s')))
    ⊎ ((r : WorkerResult) × (db' : Tables Ticks) × (s' : ℕ) × (run_once world "t-1" 25
            (some (client none))
            false
            0
            tables
          ≡ (ok r, db', s'))
        × IsAccounted world 25 r)
run_once_all_or_nothing_example =
    run_once_all_or_nothing world "t-1" 25 (client none) false 0 tables

-- The tenant has no row of settings, whose defaults are off.
abbrev unset : Tables Ticks
unset = record tables { settings = none }

lacks_lem : LacksConsent world unset
unfolding require_current_live_consent load_tenant_guard_config
lacks_lem = (automation_is_off, refl)

run_once_needs_consent_example :
    (r : WorkerResult) × (db' : Tables Ticks) × (run_once world "t-1" 25
        (some (client none))
        true
        0
        unset
      ≡ (ok r, db', 0))
    × (r.applied ≡ 0)
    × (r.failed ≡ r.scanned)
    × (r.scanned ≡ length (fetch_approved "t-1" 25 unset))
    × (db'.controls ≡ locked)
run_once_needs_consent_example =
    run_once_needs_consent world "t-1" 25 (some (client none)) 0 unset lacks_lem
