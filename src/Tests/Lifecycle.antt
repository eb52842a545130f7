-- ===== src/Tests/Lifecycle.antt =====
-- A promoted term whose destination is live, and a paused keyword that sold well.
use amz_command_center.Base.{
  is_blank, raised, [], false, member, none, ok, opt_str_eq, refl, some, true, ◌*◌, ◌-◌, ◌↔◌, ◌∷◌,
  ◌≡◌,
}
use amz_command_center.Number.{Ticks, Ticks-IsOrdered, ticks}
use amz_command_center.Harvest.{TermText}
use amz_command_center.StateMachine.{day, hour}
use amz_command_center.Settings.{
  validated_values, missing_fields, typed_values, bool_field, int_field, float_field, check_ranges,
  load_tenant_guard_config,
}
use amz_command_center.Json.{get, float_of}
use amz_command_center.Lifecycle.{
  accepts_recommendation, recommendation_refused, started, store_findings, Finding, Isolating,
  Keyword, LifecycleRun, LifecycleTables, Lineage, Recommendation, SourceUse, Target,
  decide_isolation, decide_revive, default_thresholds, isolation_findings, key_of, revive_finding,
  run_analysis,
}
use amz_command_center.Lifecycle.Once.{
  IsOnce, IsIsolable, decide_isolation-IsIsolable_iff, isolation_findings-IsOnce,
}
use amz_command_center.Lifecycle.Bids.{Revives, decide_revive-Revives}
use amz_command_center.Samples.{
  one_stamp, open_config, open_row, same_case, ticks_repr, token_redactor,
}

instance abbrev plain_terms : TermText
plain_terms = record { lower = λ s. s; split = λ s. s ∷ []; is_asin_term = λ s. false }

abbrev promoted : Lineage
promoted = record {
  id = "l-1";
  action_id = "a-1";
  route_code = "wide";
  normalized_term = "shoes";
  source_campaign_id = "c-1";
  source_ad_group_id = "g-1";
  destination_campaign_id = "c-9";
  destination_ad_group_id = "g-9";
  destination_match_type = "exact";
  applied_at = 1;
}

abbrev live_target : Target Ticks
live_target = record {
  keyword_id = "k-9";
  status = some "enabled";
  impressions = some 5_000_000;
  clicks = some 200_000;
  cost = none;
  orders = none;
}

abbrev competing_source : SourceUse Ticks
competing_source = record {
  clicks = some 30_000;
  cost = none;
  orders = none;
  is_already_negative = false;
}

decide_isolation-IsIsolable_iff_example :
    ((decide_isolation default_thresholds promoted
        (some live_target)
        competing_source
        none
        none
        []).0.is_recommended
      ≡ true)
    ↔ (IsIsolable default_thresholds promoted (some live_target) competing_source none none
        × (member (key_of promoted) [] ≡ false))
decide_isolation-IsIsolable_iff_example =
    decide_isolation-IsIsolable_iff default_thresholds promoted (some live_target) competing_source
      none none []

isolated_lem :
    (decide_isolation default_thresholds promoted
      (some live_target)
      competing_source
      none
      none
      []).0.is_recommended
    ≡ true
unfolding decide_isolation member
isolated_lem = refl

abbrev one_lineage : Isolating Ticks
one_lineage = record {
  destination_of = λ l. some live_target;
  source_of = λ l. competing_source;
  protections = record { rows = []; events = [] };
  actions = [];
}

isolation_findings-IsOnce_example :
    IsOnce (isolation_findings one_lineage "t-1" 5 default_thresholds (promoted ∷ promoted ∷ []))
isolation_findings-IsOnce_example =
    isolation_findings-IsOnce one_lineage "t-1" 5 default_thresholds (promoted ∷ promoted ∷ [])

abbrev winner : Keyword Ticks
winner = record {
  keyword_id = "k-1";
  campaign_id = "c-1";
  ad_group_id = "g-1";
  keyword_text = some "shoes";
  match_type = some "exact";
  keyword_status = some "paused";
  clicks = some 400_000;
  orders = some 60_000;
  cost = some 200_000;
  sales = some 1_000_000;
  break_even_acos = some 3_000;
  last_bid = some 9_000;
  last_click_date = none;
  recent_clicks = none;
}

abbrev revival : Finding Ticks
revival = record (revive_finding winner open_config none []) {
  break_even_cpc = some 7_500;
  proposed_bid = some 7_500;
}

revived_lem : decide_revive default_thresholds winner [] none none open_config 9 ≡ ok revival
unfolding decide_revive
revived_lem = refl

decide_revive-Revives_example :
    (f : Finding Ticks) × (decide_revive default_thresholds winner [] none none open_config 9
      ≡ ok f)
    × Revives default_thresholds winner [] none none open_config 9 f
decide_revive-Revives_example =
    decide_revive-Revives Ticks-IsOrdered default_thresholds winner [] none none open_config 9 refl
      refl

-- The keywords are loaded up to the day 6, and the search terms are not.
abbrev lifecycle_tables : LifecycleTables Ticks
lifecycle_tables = record {
  settings = λ tenant. some open_row;
  numeric = λ x. some x;
  loads = record {
    watermarks =
        record {
          tenant_id = "t-1";
          dataset = "ads_sp_keyword_daily";
          last_complete_date = some 6;
          last_status = some "success";
        }
        ∷ [];
    runs =
        record {
          tenant_id = "t-1";
          dataset = "ads_sp_keyword_daily";
          status = "success";
          started_at = 1;
          finished_at = some (10 * day - hour);
          rows_loaded = some 3;
          error = none;
          date_from = some 6;
          date_to = some 6;
        }
        ∷ [];
  };
  isolating = λ through. one_lineage;
  lineages = promoted ∷ [];
  keywords = λ through. winner ∷ [];
  last_applied = λ id. none;
  actions = [];
  recommendations = [];
}

abbrev revived_row : Recommendation Ticks
revived_row = record {
  tenant_id = "t-1";
  run_id = "run-1";
  finding = revival;
  thresholds = default_thresholds;
  data_through = 6;
}

abbrev finished_run : LifecycleRun
finished_run = record {
  run_id = "run-1";
  tenant_id = "t-1";
  status = ("isolation_negative", "source_missing") ∷ ("revive_target", "success") ∷ [];
  through_dates = ("revive_target", 6) ∷ [];
  decisions = ("revive_target:recommended", 1) ∷ [];
}

analysed_lem :
    run_analysis lifecycle_tables "t-1" "run-1" (10 * day) default_thresholds
    ≡ ok (finished_run, revived_row ∷ [])
unfolding run_analysis load_tenant_guard_config opt_str_eq is_blank validated_values missing_fields
    get typed_values bool_field int_field float_field float_of check_ranges
analysed_lem = refl

-- With a least bid of nothing, which is valid, a revival may be proposed at 0.00. The table refuses
-- it, and the run is lost.
abbrev cheap : Keyword Ticks
cheap = record winner { last_bid = some 40 }

cheap_lem :
    (f : Finding Ticks) × (decide_revive default_thresholds cheap [] none none
        (record open_config { min_bid = 0 })
        9
      ≡ ok f)
    × (f.proposed_bid ≡ some 0)
    × (store_findings lifecycle_tables.numeric default_thresholds "revive_target" 6
          (f ∷ [])
          (started "t-1" "run-1")
          []
        ≡ raised recommendation_refused)
unfolding decide_revive store_findings accepts_recommendation is_blank
cheap_lem = (_, refl, refl, refl)
