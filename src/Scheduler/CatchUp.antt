-- ===== src/Scheduler/CatchUp.antt =====
-- The plan of the days to fetch again, and its replay. Days are counted from the calendar's first, and
-- an earlier one raises.
use amz_command_center.Base.{
  Bool, List, Option, Result, String, [], exists, false, if◌then◌else◌, leb, length, ltb, map,
  member, none, not, ok, raise_if, select, some, sort_by, str_eq, suc, take, zero, ℕ, ◌&&◌, ◌++◌,
  ◌+◌, ◌-◌, ◌==◌, ◌>>◌, ◌||◌, ◌∷◌,
}

-- The names of the datasets, of ingest/pipelines/sales_traffic.py and ads_daily.py.
abbrev pub sales_dataset : String
sales_dataset = "sales_traffic_asin_daily"

abbrev pub ads_datasets : List String
ads_datasets =
    "ads_sp_campaign_daily" ∷ "ads_sp_placement_daily" ∷ "ads_sp_ad_group_daily"
    ∷ "ads_sp_keyword_daily" ∷ "ads_sp_search_term_daily" ∷ "ads_sp_advertised_product_daily"
    ∷ "ads_sp_purchased_product_daily" ∷ []

-- A row of `pipeline_run`.
pub record PipelineRun : Type 0 where
  pub tenant_id : String
  pub dataset : String
  pub status : String
  pub started_at : ℕ
  pub finished_at : Option ℕ
  pub rows_loaded : Option ℕ
  pub error : Option String
  pub date_from : Option ℕ
  pub date_to : Option ℕ

pub record CatchUpPlan : Type 0 where
  pub dataset : String
  pub start : ℕ
  pub end : ℕ
  pub dates : List ℕ

pub record CatchUpReplayResult : Type 0 where
  pub dataset : String
  pub planned_days : ℕ
  pub is_replayed : Bool
  pub is_dry_run : Bool

pub record RunHistoryItem : Type 0 where
  pub dataset : String
  pub status : String
  pub started_at : ℕ
  pub finished_at : Option ℕ
  pub rows_loaded : Option ℕ
  pub error : Option String

pub data ScheduleError : Type 0 where
  days_too_few limit_too_small date_out_of_range : ScheduleError

unfoldable pub load_run_history :
    List PipelineRun → String → ℕ → Result ScheduleError (List RunHistoryItem)
unfolding sort_by
load_run_history runs tenant limit = do
  raise_if (ltb limit 1) limit_too_small
  ok (
      map
        (λ (r : PipelineRun). record {
          dataset = r.dataset;
          status = r.status;
          started_at = r.started_at;
          finished_at = r.finished_at;
          rows_loaded = r.rows_loaded;
          error = r.error;
        })
        (take limit (
          sort_by (λ (x : PipelineRun) (y : PipelineRun). ltb y.started_at x.started_at)
            (select (λ (r : PipelineRun). str_eq r.tenant_id tenant) runs))))

-- `count` days from `first` on.
unfoldable pub days_from : ℕ → ℕ → List ℕ
days_from first zero = []
days_from first (suc count) = first ∷ days_from (suc first) count

-- `_date_range`: from `start` to `end`, both included.
unfoldable pub date_range : ℕ → ℕ → List ℕ
unfolding days_from
date_range start end = if ltb end start then [] else days_from start (end - start + 1)

abbrev pub is_in : ℕ → List ℕ → Bool
is_in d = exists (λ x. d == x)

-- The `where` of the successful runs that touch the window.
abbrev pub is_successful : String → String → ℕ → ℕ → PipelineRun → Bool
is_successful tenant dataset start end r =
    str_eq r.tenant_id tenant
    && str_eq r.dataset dataset
    && str_eq r.status "success"
    && elim r.date_from [
      | none ↦ false
      | some first ↦ elim r.date_to [ none ↦ false | some last ↦ leb start last && leb first end ]
    ]

-- The days that one run adds, `while current <= last`.
unfoldable pub run_dates : ℕ → ℕ → PipelineRun → List ℕ
unfolding days_from
run_dates start end r = elim r.date_from [
  | none ↦ []
  | some first ↦ elim r.date_to [
    | none ↦ []
    | some last ↦
        let current = if ltb first start then start else first in
        let final = if ltb end last then end else last in days_from current (final + 1 - current)
  ]
]

unfoldable pub successful_run_dates : List PipelineRun → String → String → ℕ → ℕ → List ℕ
unfolding run_dates
successful_run_dates [] tenant dataset start end = []
successful_run_dates (r ∷ runs) tenant dataset start end =
    let rest = successful_run_dates runs tenant dataset start end in
    if is_successful tenant dataset start end r then run_dates start end r ++ rest else rest

-- `sorted(expected - present)`
unfoldable pub missing_dates : List PipelineRun → String → String → ℕ → ℕ → List ℕ
unfolding successful_run_dates date_range sort_by
missing_dates runs tenant dataset start end =
    let present = successful_run_dates runs tenant dataset start end in
    sort_by ltb (select (λ d. not (is_in d present)) (date_range start end))

abbrev pub last_or : ℕ → List ℕ → ℕ
last_or d [] = d
last_or d (x ∷ xs) = last_or x xs

unfoldable pub plans_for : List PipelineRun → String → ℕ → ℕ → List String → List CatchUpPlan
unfolding missing_dates
plans_for runs tenant start end [] = []
plans_for runs tenant start end (dataset ∷ rest) =
    let plans = plans_for runs tenant start end rest in
    elim (missing_dates runs tenant dataset start end) [
      | [] ↦ plans
      | d ∷ ds ↦ record { dataset = dataset; start = d; end = last_or d ds; dates = d ∷ ds } ∷ plans
    ]

-- `datasets or (DATASET, *DATASETS)`
abbrev pub selected_datasets : Option (List String) → List String
selected_datasets none = sales_dataset ∷ ads_datasets
selected_datasets (some []) = sales_dataset ∷ ads_datasets
selected_datasets (some (d ∷ ds)) = d ∷ ds

unfoldable pub build_catch_up_plan :
    List PipelineRun
    → String
    → ℕ
    → ℕ
    → Option (List String)
    → Result ScheduleError (List CatchUpPlan)
unfolding plans_for
build_catch_up_plan runs tenant today days datasets = do
  raise_if (ltb days 1) days_too_few
  raise_if (ltb today days) date_out_of_range
  ok (plans_for runs tenant (today - days) (today - 1) (selected_datasets datasets))

-- A call that a replay makes: the dataset, `dry_run` and `today`.
pub record Replay : Type 0 where
  pub dataset : String
  pub is_dry_run : Bool
  pub today : ℕ

-- The results, and the calls of the two pipelines in their order.
unfoldable pub replay_catch_up_plan :
    List CatchUpPlan → Bool → List CatchUpReplayResult × List Replay
unfolding member
replay_catch_up_plan [] dry_run = ([], [])
replay_catch_up_plan (p ∷ plans) dry_run =
    let (results, calls) = replay_catch_up_plan plans dry_run in
    let supported = str_eq p.dataset sales_dataset || member p.dataset ads_datasets in
    let call : Replay = record { dataset = p.dataset; is_dry_run = dry_run; today = p.end + 1 } in
    (
      record {
        dataset = p.dataset;
        planned_days = length p.dates;
        is_replayed = supported;
        is_dry_run = dry_run;
      }
          ∷ results,
      if supported then call ∷ calls else calls,
    )
