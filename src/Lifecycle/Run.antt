-- ===== src/Lifecycle/Run.antt =====
-- `run_analysis`: each family of recommendations is gated on the freshness of its sources.
use Prim.Native.String.{◌++◌ as append}
use amz_command_center.Base.{
  Bool, List, Option, Result, String, [], exists, false, if◌then◌else◌, is_blank, is_some, none,
  not, ok, raise_if, some, str_eq, true, ℕ, ◌&&◌, ◌++◌, ◌+◌, ◌>>◌, ◌||◌, ◌∷◌,
}
use amz_command_center.Number.{Number, lt, nought, ticks}
use amz_command_center.Json.{Members}
use amz_command_center.Harvest.{or_nought}
use amz_command_center.Freshness.{LoadTables, SourceFreshness, block_reason}
use amz_command_center.Lifecycle.Defs.{
  BlockedReason, Finding, Keyword, Lineage, OpenAction, Thresholds, already_negative, bid_unknown,
  destination_inactive, destination_missing, destination_no_traffic, duplicate, economics_unknown,
  poor_history, protected, recent_traffic, same_ad_group, source_no_traffic, thin_history,
  unsupported_match_type,
}
use amz_command_center.Lifecycle.Isolation.{Isolating, is_protected}
use amz_command_center.Lifecycle.Revive.{LifecycleError, recommendation_refused}

-- A row of `search_term_lifecycle_recommendation`.
pub record Recommendation (W : Type 0) : Type 0 where
  pub tenant_id : String
  pub run_id : String
  pub finding : Finding W
  pub thresholds : Thresholds W
  pub data_through : ℕ

-- The tables that a run reads, with the queries on the marts up to a date, and the one it writes.
-- `numeric` is the database's numeric(12,2) of a float: none if it does not fit.
pub record LifecycleTables (W : Type 0) : Type 0 where
  pub settings : String → Option (Members W)
  pub numeric : W → Option W
  pub loads : LoadTables
  pub isolating : ℕ → Isolating W
  pub lineages : List Lineage
  pub keywords : ℕ → List (Keyword W)
  pub last_applied : String → Option ℕ
  pub actions : List OpenAction
  pub recommendations : List (Recommendation W)

pub record LifecycleRun : Type 0 where
  pub run_id : String
  pub tenant_id : String
  pub status : List (String × String)
  pub through_dates : List (String × ℕ)
  pub decisions : List (String × ℕ)

abbrev pub started : String → String → LifecycleRun
started tenant run_id = record {
  run_id = run_id;
  tenant_id = tenant;
  status = [];
  through_dates = [];
  decisions = [];
}

-- `d[key] = value`
unfoldable pub set_key {ℓ} : {A : Type ℓ} → String → A → List (String × A) → List (String × A)
set_key key value [] = (key, value) ∷ []
set_key key value ((k, v) ∷ d) =
    let rest = set_key key value d in if str_eq k key then (key, value) ∷ d else (k, v) ∷ rest

-- `d[label] = d.get(label, 0) + 1`
unfoldable pub count_label : String → List (String × ℕ) → List (String × ℕ)
count_label label [] = (label, 1) ∷ []
count_label label ((k, v) ∷ d) =
    let rest = count_label label d in if str_eq k label then (k, v + 1) ∷ d else (k, v) ∷ rest

abbrev pub reason_text : BlockedReason → String
reason_text unsupported_match_type = "unsupported_match_type"
reason_text same_ad_group = "same_ad_group"
reason_text duplicate = "duplicate"
reason_text already_negative = "already_negative"
reason_text protected = "protected"
reason_text destination_missing = "destination_missing"
reason_text destination_inactive = "destination_inactive"
reason_text destination_no_traffic = "destination_no_traffic"
reason_text source_no_traffic = "source_no_traffic"
reason_text recent_traffic = "recent_traffic"
reason_text thin_history = "thin_history"
reason_text economics_unknown = "economics_unknown"
reason_text poor_history = "poor_history"
reason_text bid_unknown = "bid_unknown"
reason_text BlockedReason.bounds = "bounds"
reason_text BlockedReason.cooldown = "cooldown"

abbrev pub same_bool : Bool → Bool → Bool
same_bool true b = b
same_bool false b = not b

abbrev pub isolation_family : String
isolation_family = "isolation_negative"

abbrev pub revive_family : String
revive_family = "revive_target"

-- The date of a source that is usable, which has one.
abbrev pub through_of : SourceFreshness → ℕ
through_of s = or_nought s.data_through

-- Without keyword data, neither family runs.
unfoldable pub unusable_run : LifecycleRun → SourceFreshness → LifecycleRun
unfolding set_key
unusable_run run keyword = record run {
  status =
      set_key revive_family (block_reason keyword.state)
        (set_key isolation_family (block_reason keyword.state) run.status);
}

module _ {W : Type 0} where
  -- `f.blocked_reason or f.decision`, where a finding that is not blocked is recommended.
  abbrev pub label_of : String → Finding W → String
  label_of family f = append family (
      append ":"
        (elim f.blocked_reason [ none ↦ "recommended" | some reason ↦ reason_text reason ]))

abbrev pub is_blocked_by_protection : Option BlockedReason → Bool
is_blocked_by_protection none = false
is_blocked_by_protection (some reason) = is_protected reason

module _ {W : Type 0} where
  abbrev pub is_family : String → Recommendation W → Bool
  is_family family row = str_eq row.finding.recommendation_type family

  -- The unique key, and that of the recommended isolations.
  abbrev pub same_subject : Recommendation W → Recommendation W → Bool
  same_subject x y =
      str_eq x.tenant_id y.tenant_id
      && str_eq x.run_id y.run_id
      && str_eq x.finding.recommendation_type y.finding.recommendation_type
      && str_eq x.finding.subject_key y.finding.subject_key

  abbrev pub is_isolation : Recommendation W → Bool
  is_isolation x = is_family isolation_family x && x.finding.is_recommended

  abbrev pub same_isolation : Recommendation W → Recommendation W → Bool
  same_isolation x y =
      is_isolation x
      && is_isolation y
      && str_eq x.tenant_id y.tenant_id
      && str_eq x.run_id y.run_id
      && str_eq x.finding.campaign_id y.finding.campaign_id
      && str_eq x.finding.ad_group_id y.finding.ad_group_id
      && str_eq x.finding.term y.finding.term

module _ {W : Type 0} ⦃n : Number W⦄ where
  -- The check on a bid, by the value that its column holds.
  abbrev pub fits_bid : (W → Option W) → (W → Bool) → Option W → Bool
  fits_bid numeric fits none = true
  fits_bid numeric fits (some bid) = elim (numeric bid) [ none ↦ false | some x ↦ fits x ]

  -- The checks of `search_term_lifecycle_recommendation` on what a finding puts in its columns, and
  -- its unique keys (packages/db/migrations/0049_search_term_lifecycle_recommendation.sql). The
  -- foreign keys are those of rows that the run has read.
  unfoldable pub accepts_recommendation :
      (W → Option W) → List (Recommendation W) → Recommendation W → Bool
  accepts_recommendation numeric rows row =
      let f = row.finding in
      (is_family isolation_family row || is_family revive_family row)
      && not (is_blank f.subject_key)
      && fits_bid numeric (λ x. not (lt x nought)) f.current_bid
      && fits_bid numeric (λ x. lt nought x) f.proposed_bid
      && same_bool f.is_recommended (not (is_some f.blocked_reason))
      && same_bool (is_blocked_by_protection f.blocked_reason) (is_some f.protection_id)
      && (not (is_family isolation_family row)
          || (is_some f.lineage_id
              && str_eq f.match_type "negative_exact"
              && not (is_some f.proposed_bid)))
      && (not (is_family revive_family row)
          || (is_some f.keyword_id
              && not (is_some f.lineage_id)
              && same_bool (not f.is_recommended) (not (is_some f.proposed_bid))))
      && not (exists (same_subject row) rows)
      && not (exists (same_isolation row) rows)

  abbrev pub recommendation_of : Thresholds W → ℕ → LifecycleRun → Finding W → Recommendation W
  recommendation_of t through run f = record {
    tenant_id = run.tenant_id;
    run_id = run.run_id;
    finding = f;
    thresholds = t;
    data_through = through;
  }

  -- The loop over the findings of a family; an insertion that the database refuses raises, and the
  -- transaction is lost.
  unfoldable pub store_findings :
      (W → Option W)
      → Thresholds W
      → String
      → ℕ
      → List (Finding W)
      → LifecycleRun
      → List (Recommendation W)
      → Result LifecycleError (LifecycleRun × List (Recommendation W))
  unfolding count_label accepts_recommendation
  store_findings numeric t family through [] run rows = ok (run, rows)
  store_findings numeric t family through (f ∷ fs) run rows = do
    raise_if (not (accepts_recommendation numeric rows (recommendation_of t through run f)))
        recommendation_refused
    store_findings numeric t family through fs
        (record run { decisions = count_label (label_of family f) run.decisions })
        (rows ++ recommendation_of t through run f ∷ [])

  -- The body of the loop over the families.
  unfoldable pub store_family :
      (W → Option W)
      → Thresholds W
      → String
      → ℕ
      → List (Finding W)
      → LifecycleRun × List (Recommendation W)
      → Result LifecycleError (LifecycleRun × List (Recommendation W))
  unfolding store_findings set_key
  store_family numeric t family through findings (run, rows) =
      store_findings numeric t family through findings
        (record run {
          status = set_key family "success" run.status;
          through_dates = set_key family through run.through_dates;
        })
        rows
