-- ===== src/Freshness/Defs.antt =====
-- `resolve_source_freshness` on the tables sync_watermark and pipeline_run.
use amz_command_center.Base.{
  Bool, List, Option, String, [], false, if◌then◌else◌, is_some, length, ltb, map, none, not,
  opt_str_eq, select, some, str_eq, true, ℕ, ◌&&◌, ◌*◌, ◌++◌, ◌-◌, ◌==◌, ◌||◌, ◌∷◌,
}
use amz_command_center.Scheduler.{PipelineRun, latest_run}
use amz_command_center.StateMachine.{hour}

pub data FreshnessState : Type 0 where
  fresh source_missing source_failed source_partial source_stale source_unsettled : FreshnessState

-- What the text of `detail` tells, with the dataset and the values that it shows.
pub data Detail : Type 0 where
  no_datasets_mapped watermark_or_run_missing partial_load : String → Detail
  evidence_absent no_settled_cutoff : Detail
  failed_load : String → Option String → Option String → Detail
  oldest_load : ℕ → Detail

pub record SourceFreshness : Type 0 where
  pub state : FreshnessState
  pub datasets : List String
  pub data_through : Option ℕ
  pub data_loaded_at : Option ℕ
  pub detail : Option Detail

-- `usable`
abbrev pub is_usable : FreshnessState → Bool
is_usable fresh = true
is_usable _ = false

-- `block_reason`, the value of the state.
abbrev pub block_reason : FreshnessState → String
block_reason fresh = "fresh"
block_reason source_missing = "source_missing"
block_reason source_failed = "source_failed"
block_reason source_partial = "source_partial"
block_reason source_stale = "source_stale"
block_reason source_unsettled = "source_unsettled"

-- `SCOPE_DATASETS.get(scope)`, with no dataset for a scope that is not mapped.
unfoldable pub scope_datasets : String → List String
scope_datasets scope =
    if str_eq scope "campaign"
    then "ads_sp_campaign_daily" ∷ []
    else if str_eq scope "keyword"
    then "ads_sp_keyword_daily" ∷ []
    else if str_eq scope "search_term"
    then "ads_sp_search_term_daily" ∷ []
    else if str_eq scope "placement"
    then "ads_sp_placement_daily" ∷ []
    else []

-- A row of `sync_watermark`.
pub record Watermark : Type 0 where
  pub tenant_id : String
  pub dataset : String
  pub last_complete_date : Option ℕ
  pub last_status : Option String

pub record LoadTables : Type 0 where
  pub watermarks : List Watermark
  pub runs : List PipelineRun

-- A row of the query.
pub record RequiredLoad : Type 0 where
  pub dataset : String
  pub last_complete_date : Option ℕ
  pub last_status : Option String
  pub run_status : Option String
  pub finished_at : Option ℕ

-- The left joins for one dataset: a row for each watermark, or one without.
unfoldable pub required_row : String → Option PipelineRun → Option Watermark → RequiredLoad
required_row dataset run w = record {
  dataset = dataset;
  last_complete_date = elim w [ none ↦ none | some m ↦ m.last_complete_date ];
  last_status = elim w [ none ↦ none | some m ↦ m.last_status ];
  run_status = elim run [ none ↦ none | some r ↦ some r.status ];
  finished_at = elim run [ none ↦ none | some r ↦ r.finished_at ];
}

abbrev pub joined : List Watermark → List (Option Watermark)
joined [] = none ∷ []
joined (w ∷ ws) = map some (w ∷ ws)

unfoldable pub required_rows : LoadTables → String → List String → List RequiredLoad
unfolding required_row latest_run
required_rows db tenant [] = []
required_rows db tenant (dataset ∷ datasets) =
    map (required_row dataset (latest_run tenant dataset db.runs)) (
      joined (
        select (λ (w : Watermark). str_eq w.tenant_id tenant && str_eq w.dataset dataset)
          db.watermarks))
    ++ required_rows db tenant datasets

abbrev pub refused : FreshnessState → List String → Detail → SourceFreshness
refused state datasets detail = record {
  state = state;
  datasets = datasets;
  data_through = none;
  data_loaded_at = none;
  detail = some detail;
}

-- The body of the loop; `none` goes on to the next row.
unfoldable pub load_fault : List String → RequiredLoad → Option SourceFreshness
load_fault datasets row =
    if not (is_some row.last_complete_date) || not (is_some row.finished_at)
    then some (refused source_missing datasets (watermark_or_run_missing row.dataset))
    else if opt_str_eq row.last_status (some "partial")
        || opt_str_eq row.run_status (some "partial")
    then some (refused source_partial datasets (partial_load row.dataset))
    else if not (opt_str_eq row.last_status (some "success"))
        || not (opt_str_eq row.run_status (some "success"))
    then some
        (refused source_failed datasets (failed_load row.dataset row.last_status row.run_status))
    else none

unfoldable pub first_fault : List String → List RequiredLoad → Option SourceFreshness
unfolding load_fault
first_fault datasets [] = none
first_fault datasets (row ∷ rows) = elim (load_fault datasets row) [
  | none ↦ first_fault datasets rows
  | some refusal ↦ some refusal
]

-- The values of a column; the loop has left no row without one.
abbrev pub with_value : Option ℕ → List ℕ → List ℕ
with_value none vs = vs
with_value (some v) vs = v ∷ vs

abbrev pub values_of : (RequiredLoad → Option ℕ) → List RequiredLoad → List ℕ
values_of column [] = []
values_of column (row ∷ rows) = with_value (column row) (values_of column rows)

-- `min` of values that are there.
abbrev pub least : List ℕ → ℕ
least [] = 0
least (v ∷ []) = v
least (v ∷ w ∷ vs) = let rest = least (w ∷ vs) in if ltb rest v then rest else v

abbrev pub min_of : ℕ → ℕ → ℕ
min_of a b = if ltb b a then b else a

-- The age in hours is compared as microseconds; a load after `now` is not old, as `-` stops at 0.
unfoldable pub assess : List String → ℕ → ℕ → ℕ → List RequiredLoad → SourceFreshness
assess datasets now settled_cutoff max_age_hours rows =
    let loaded_at = least (values_of (λ (r : RequiredLoad). r.finished_at) rows) in
    let through =
      min_of (least (values_of (λ (r : RequiredLoad). r.last_complete_date) rows)) settled_cutoff in
    if ltb settled_cutoff through
    then refused source_unsettled datasets no_settled_cutoff
    else if ltb (max_age_hours * hour) (now - loaded_at)
    then record {
      state = source_stale;
      datasets = datasets;
      data_through = some through;
      data_loaded_at = some loaded_at;
      detail = some (oldest_load (now - loaded_at));
    }
    else record {
      state = fresh;
      datasets = datasets;
      data_through = some through;
      data_loaded_at = some loaded_at;
      detail = none;
    }

abbrev pub is_empty_list {ℓ} : {A : Type ℓ} → List A → Bool
is_empty_list [] = true
is_empty_list (x ∷ xs) = false

unfoldable pub resolve_source_freshness : LoadTables → String → String → ℕ → ℕ → ℕ → SourceFreshness
unfolding first_fault assess scope_datasets required_rows
resolve_source_freshness db tenant scope now settled_cutoff max_age_hours =
    let datasets = scope_datasets scope in
    let rows = required_rows db tenant datasets in
    if is_empty_list datasets
    then refused source_missing [] (no_datasets_mapped scope)
    else if not (length rows == length datasets)
    then refused source_missing datasets evidence_absent
    else elim (first_fault datasets rows) [
      | none ↦ assess datasets now settled_cutoff max_age_hours rows
      | some refusal ↦ refusal
    ]
