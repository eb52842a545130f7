-- ===== src/Samples.antt =====
-- Small inputs that the tests share.
use amz_command_center.Base.{◌∷◌, [], str_eq, true, false, ◌*◌, ◌-◌, some, none}
use amz_command_center.Number.{Ticks, ticks}
use amz_command_center.Json.{text, dict, boolean, integer, Members, Repr, real, empty, entry}
use amz_command_center.StateMachine.{day, hour, Action, pending}
use amz_command_center.Base.Int.{pos}
use amz_command_center.Guardrails.{TenantGuardConfig, RunContext, Proposal}
use amz_command_center.HumanControl.{Control, ControlEvent, Controls, TextCase}
use amz_command_center.Audit.{Redactor}
use amz_command_center.ApplyGuardrails.{EvidenceRow, IsoFormat, aware}

instance abbrev pub ticks_repr : Repr Ticks
ticks_repr = record { show = λ d. "{}" }

-- {"value": x}
abbrev pub valued : Ticks → Members Ticks
valued x = entry "value" (real x) empty

-- A bid of 1.00 that is proposed to become 1.10, at the moment 0.
abbrev pub bid_change : Action Ticks
bid_change = record {
  id = "a-1";
  tenant_id = "t-1";
  entity_type = "keyword";
  entity_id = "kw-1";
  action_type = "set_bid";
  before_value = some (valued 10_000);
  after_value = valued 11_000;
  status = pending;
  requested_by = some "u-analyst";
  requested_at = some 0;
  approved_by = none;
  approved_at = none;
  applied_at = none;
  verified_at = none;
  rolled_back_at = none;
  outcome = none;
  error = none;
  idempotency_key = none;
  control_id = none;
  request_origin = "automation";
}

-- A tenant's settings with automation on, in amounts of a hundredth of a penny.
abbrev pub open_config : TenantGuardConfig Ticks
open_config = record {
  automation_enabled = true;
  dry_run = false;
  max_change_pct = 2_500;
  cooldown_days = 3;
  max_changes_per_day = 10;
  max_budget_increase_per_day = 500_000;
  blast_radius_pct = 3_000;
  min_bid = 200;
  max_bid = 50_000;
  max_daily_budget = 1_000_000;
  max_data_age_hours = 48;
  settlement_lag_days = 3;
}

-- The row of `tenant_settings` with these values.
abbrev pub open_row : Members Ticks
open_row = entry "automation_enabled" (boolean true) (
    entry "dry_run" (boolean false) (
      entry "max_change_pct" (real 2_500) (
        entry "cooldown_days" (integer (pos 3)) (
          entry "max_changes_per_day" (integer (pos 10)) (
            entry "max_budget_increase_per_day" (real 500_000) (
              entry "blast_radius_pct" (real 3_000) (
                entry "min_bid" (real 200) (
                  entry "max_bid" (real 50_000) (
                    entry "max_daily_budget" (real 1_000_000) (
                      entry "max_data_age_hours" (integer (pos 48))
                        (entry "settlement_lag_days" (integer (pos 3)) empty)))))))))))

-- A run on the tenth day, on data of the fifth that was loaded an hour ago.
abbrev pub tenth_day : RunContext Ticks
tenth_day = record {
  now = 10 * day;
  data_through = 5;
  data_loaded_at = 10 * day - hour;
  changes_applied_today = 2;
  budget_increase_today = 100_000;
  entities_evaluated = 40;
  entities_matched = 4;
  last_applied_at = none;
}

-- A bid of 1.00 that a rule would raise to 1.10, on enough data.
abbrev pub bid_proposal : Proposal Ticks
bid_proposal = record {
  entity_type = "keyword";
  entity_id = "kw-1";
  action_type = "set_bid";
  before_value = some 10_000;
  after_value = some 11_000;
  clicks = pos 40;
  impressions = pos 900;
  break_even_acos = none;
}

-- A daily budget of 20.00 that would become 23.00.
abbrev pub budget_proposal : Proposal Ticks
budget_proposal = record bid_proposal {
  entity_type = "campaign";
  action_type = "set_budget";
  before_value = some 200_000;
  after_value = some 230_000;
}

-- Texts are compared as they are.
instance abbrev pub same_case : TextCase
same_case = record { lower = λ s. s; strip = λ s. s }

-- A one-time control of the keyword, which a person took over at the moment 1.
abbrev pub once_control : Control
once_control = record {
  id = "c-1";
  tenant_id = "t-1";
  entity_type = "keyword";
  entity_id = "kw-1";
  product_scope = "*";
  duration = "one_time";
  expires_at = none;
  reason = "launch week";
  created_by = "u-analyst";
  created_at = 1;
}

abbrev pub taken_over : ControlEvent
taken_over = record {
  id = "e-1";
  tenant_id = "t-1";
  control_id = "c-1";
  state = "HUMAN_OVERRIDE";
  reason = "launch week";
  actor_user_id = "u-analyst";
  occurred_at = 1;
}

abbrev pub locked : Controls
locked = record { rows = once_control ∷ []; events = taken_over ∷ [] }

-- Only this key names a secret, and texts are not clipped.
instance abbrev pub token_redactor : Redactor
token_redactor = record { is_secret = λ k. str_eq k "token"; clip = λ s. s }

-- Every stamp is an hour before the tenth day.
instance abbrev pub one_stamp : IsoFormat
one_stamp = record { from_iso = λ s. some (aware (10 * day - hour)) }

-- What the rule run of the action has left.
abbrev pub snapshot : Members Ticks
snapshot = entry "clicks" (integer (pos 40)) (
    entry "impressions" (integer (pos 900)) (
      entry "guardrail_context"
        (dict (
          entry "version" (integer (pos 1)) (
            entry "entities_evaluated" (integer (pos 40)) (
              entry "entities_matched" (integer (pos 4)) (
                entry "min_clicks" (integer (pos 15)) (
                  entry "min_impressions" (integer (pos 500)) (
                    entry "source_freshness"
                      (dict
                        (entry "state" (text "fresh") (entry "data_loaded_at" (text "Z") empty)))
                      empty)))))))
        empty))

abbrev pub evidence_row : EvidenceRow Ticks
evidence_row = record {
  data_through = some 5;
  metrics_snapshot = dict snapshot;
  applied_today = 2;
  budget_delta_today = 100_000;
  last_applied_at = none;
}
