-- ===== src/Tests/Verification.antt =====
-- A bid change that was sent on the day 10, and seven days of its keyword on either side.
use amz_command_center.Base.{[], insert_by, none, ok, refl, some, sort_by, true, ℕ, ◌*◌, ◌∷◌, ◌≡◌}
use amz_command_center.Number.{Ticks, ticks}
use amz_command_center.Samples.{bid_change, one_stamp, same_case, ticks_repr, token_redactor}
use amz_command_center.StateMachine.{Action, applied, day, status_eq}
use amz_command_center.Verification.{
  Evidence, Judged, MartRow, Marts, VerificationResult, VerifyWorld, due_horizons, due_pairs,
  fetch_due_snapshots, is_complete, is_due_pair, is_horizon, is_mature, judge, keyword_window,
  measure, measure_horizon, metrics_of, performance_window, run_verification, score_pair,
  verify_horizon, verify_pair, verify_pairs, window_from,
}
use amz_command_center.Verification.Unscored.{run_verification-IsUnscored}
use amz_command_center.Verification.Final.{IsKept}

abbrev world : VerifyWorld Ticks
world = record {
  redactor = token_redactor;
  total = λ xs. 10_000;
  iso_date = λ d. "2026-08-01";
  iso_moment = λ t. "2026-08-01T00:00:00";
  split_colon = λ s. none;
}

abbrev a_day : ℕ → MartRow Ticks
a_day date = record {
  tenant_id = "t-1";
  entity_id = "kw-1";
  placement = "";
  report_date = date;
  is_settled = true;
  cost = 5_000;
  sales = 10_000;
  clicks = 4;
  orders = 1;
}

-- Only the day before the change and that of it are there.
abbrev few_days : Marts Ticks
few_days = record {
  keywords = a_day 9 ∷ a_day 10 ∷ [];
  campaigns = [];
  placements = [];
  search_terms = [];
}

abbrev sent : Action Ticks
sent = record bid_change { status = applied; applied_at = some (10 * day) }

abbrev sent_row : Judged Ticks
sent_row = record { action = sent; impact = none }

abbrev sent_evidence : Evidence Ticks
sent_evidence = record { marts = few_days; rows = sent_row ∷ []; snapshots = []; journal = [] }

run_lem :
    (result : VerificationResult) × (db' : Evidence Ticks) × (run_verification world "t-1" 50
        (17 * day)
        sent_evidence
      ≡ ok (result, db'))
unfolding run_verification verify_pairs verify_pair verify_horizon measure_horizon measure
    performance_window keyword_window window_from is_mature judge score_pair fetch_due_snapshots
    due_pairs due_horizons is_due_pair sort_by insert_by status_eq is_complete is_horizon metrics_of
run_lem = (_, _, refl)

run_verification-IsUnscored_example :
    (run_lem.0.verified ≡ 0)
    × (run_lem.1.rows ≡ sent_evidence.rows)
    × (run_lem.1.journal ≡ sent_evidence.journal)
    × IsKept sent_evidence.snapshots run_lem.1.snapshots
run_verification-IsUnscored_example =
    run_verification-IsUnscored world "t-1" 50 (17 * day) sent_evidence run_lem.2
