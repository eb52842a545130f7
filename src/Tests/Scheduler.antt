-- ===== src/Tests/Scheduler.antt =====
-- One successful run, of the day 9, and the window of the two days before the day 10.
use amz_command_center.Base.{
  All, List, [], arith, exists, false, none, ok, some, true, ℕ, ◌++◌, ◌↔◌, ◌∷◌, ◌≡◌, ◌≤◌,
}
use amz_command_center.Number.{ticks}
use amz_command_center.Samples.{one_stamp, same_case, ticks_repr, token_redactor}
use amz_command_center.Scheduler.{
  CatchUpPlan, PipelineRun, ads_datasets, build_catch_up_plan, evaluate_alerts, sorted_set,
}
use amz_command_center.Scheduler.Missing.{
  IsMissed, build_catch_up_plan_complete, is_covered, is_planned,
}
use amz_command_center.Scheduler.Open.{IsHealthy, evaluate_alerts-IsHealthy_iff}

abbrev good_run : PipelineRun
good_run = record {
  tenant_id = "t-1";
  dataset = "rules";
  status = "success";
  started_at = 5;
  finished_at = some 6;
  rows_loaded = some 3;
  error = none;
  date_from = some 9;
  date_to = some 9;
}

build_catch_up_plan_complete_example :
    (plans : List CatchUpPlan) × (build_catch_up_plan
        (good_run ∷ [])
        "t-1"
        10
        2
        (some ("rules" ∷ []))
      ≡ ok plans)
    × All (IsMissed (good_run ∷ []) "t-1" 8 9) plans
    × ((d : ℕ)
        → 8 ≤ d
        → d ≤ 9
        → All
            (λ dataset.
              is_covered (good_run ∷ []) "t-1" dataset d ≡ false
              → exists (is_planned dataset d) plans ≡ true)
            ("rules" ∷ []))
build_catch_up_plan_complete_example =
    build_catch_up_plan_complete (good_run ∷ []) "t-1" 10 2 (some ("rules" ∷ [])) (omega arith)
      (omega arith)

evaluate_alerts-IsHealthy_iff_example :
    (evaluate_alerts (λ age. "40.0") (good_run ∷ []) "t-1" 7 36 ("rules" ∷ []) ≡ [])
    ↔ All (IsHealthy (good_run ∷ []) "t-1" 7 36) (sorted_set (("rules" ∷ []) ++ ads_datasets))
evaluate_alerts-IsHealthy_iff_example =
    evaluate_alerts-IsHealthy_iff (λ age. "40.0") (good_run ∷ []) "t-1" 7 36 ("rules" ∷ [])
