-- ===== src/Scheduler/Alerts.antt =====
-- `evaluate_alerts` and `persist_alerts`.
use Prim.Native.String.{◌++◌ as append, compare}
use package.text.Mathlib.Text.{is_lt}
use amz_command_center.Base.{
  Bool, List, Option, String, [], best, exists, false, if◌then◌else◌, ltb, member, none, not,
  select, some, str_eq, ℕ, ◌&&◌, ◌*◌, ◌++◌, ◌+◌, ◌-◌, ◌||◌, ◌∷◌,
}
use amz_command_center.Json.{Members, empty, entry, text}
use amz_command_center.StateMachine.{hour}
use amz_command_center.Scheduler.CatchUp.{PipelineRun, ads_datasets}

pub record Alert : Type 0 where
  pub dataset : String
  pub kind : String
  pub severity : String
  pub message : String

-- A row of the table `alert`, of those with an entity.
pub record AlertRow (W : Type 0) : Type 0 where
  pub tenant_id : String
  pub kind : String
  pub severity : String
  pub title : String
  pub detail : Members W
  pub entity_ref : String
  pub is_resolved : Bool

-- `distinct on (dataset) … order by dataset, started_at desc`, for one dataset.
unfoldable pub latest_run : String → String → List PipelineRun → Option PipelineRun
unfolding best
latest_run tenant dataset runs =
    best (λ (x : PipelineRun) (y : PipelineRun). ltb y.started_at x.started_at)
      (select (λ (r : PipelineRun). str_eq r.tenant_id tenant && str_eq r.dataset dataset) runs)

-- A sorted set of names.
unfoldable pub insert_name : String → List String → List String
insert_name s [] = s ∷ []
insert_name s (t ∷ ts) =
    let rest = insert_name s ts in
    if str_eq s t then t ∷ ts else if is_lt (compare s t) then s ∷ t ∷ ts else t ∷ rest

unfoldable pub sorted_set : List String → List String
unfolding insert_name
sorted_set [] = []
sorted_set (s ∷ names) = insert_name s (sorted_set names)

-- `run["error"] or "no error recorded"`
abbrev pub error_or : Option String → String
error_or none = "no error recorded"
error_or (some e) = if str_eq e "" then "no error recorded" else e

-- The body of the loop; `show` is the age in hours with one place.
unfoldable pub alert_of : (ℕ → String) → ℕ → ℕ → String → Option PipelineRun → Option Alert
alert_of show now stale_hours dataset none = some (record {
  dataset = dataset;
  kind = "missing";
  severity = "warning";
  message = append dataset " has never run";
})
alert_of show now stale_hours dataset (some run) =
    if str_eq run.status "failed" || str_eq run.status "partial"
    then some (record {
      dataset = dataset;
      kind = "failed";
      severity = "critical";
      message =
          append dataset
            (append " last run ended " (append run.status (append ": " (error_or run.error))));
    })
    else elim run.finished_at [
      | none ↦ some (record {
        dataset = dataset;
        kind = "running";
        severity = "warning";
        message = append dataset " has a run still marked running";
      })
      | some finished ↦
          if ltb (finished + stale_hours * hour) now
          then some (record {
            dataset = dataset;
            kind = "stale";
            severity = "warning";
            message = append dataset (append " is " (append (show (now - finished)) "h old"));
          })
          else none
    ]

abbrev pub with_alert : Option Alert → List Alert → List Alert
with_alert none alerts = alerts
with_alert (some a) alerts = a ∷ alerts

unfoldable pub alerts_of :
    (ℕ → String) → List PipelineRun → String → ℕ → ℕ → List String → List Alert
unfolding alert_of latest_run
alerts_of show runs tenant now stale_hours [] = []
alerts_of show runs tenant now stale_hours (dataset ∷ rest) =
    with_alert (alert_of show now stale_hours dataset (latest_run tenant dataset runs))
      (alerts_of show runs tenant now stale_hours rest)

unfoldable pub evaluate_alerts :
    (ℕ → String) → List PipelineRun → String → ℕ → ℕ → List String → List Alert
unfolding alerts_of sorted_set
evaluate_alerts show runs tenant now stale_hours expected =
    alerts_of show runs tenant now stale_hours (sorted_set (expected ++ ads_datasets))

-- The kind of the row.
unfoldable pub row_kind : Alert → String
unfolding member
row_kind a =
    if member a.kind ("failed" ∷ "running" ∷ "missing" ∷ [])
    then "pipeline_failed"
    else "data_stale"

module _ {W : Type 0} where
  abbrev pub is_open : String → Alert → AlertRow W → Bool
  is_open tenant a r =
      str_eq r.tenant_id tenant
      && str_eq r.kind (row_kind a)
      && str_eq r.entity_ref a.dataset
      && not r.is_resolved

  abbrev pub alert_row : String → Alert → AlertRow W
  alert_row tenant a = record {
    tenant_id = tenant;
    kind = row_kind a;
    severity = a.severity;
    title = a.message;
    detail = entry "dataset" (text a.dataset) (entry "scheduler_kind" (text a.kind) empty);
    entity_ref = a.dataset;
    is_resolved = false;
  }

  -- The number of rows inserted, and the table.
  unfoldable pub persist_alerts : String → List Alert → List (AlertRow W) → ℕ × List (AlertRow W)
  unfolding row_kind
  persist_alerts tenant [] table = (0, table)
  persist_alerts tenant (a ∷ alerts) table =
      let is_there = exists (is_open tenant a) table in
      let (inserted, after) =
        persist_alerts tenant alerts (if is_there then table else alert_row tenant a ∷ table) in
      (if is_there then inserted else inserted + 1, after)
