-- ===== src/Harvest/Plans.antt =====
-- `plan_harvest`. The queries on the marts are parameters; of the tables of the database, those of
-- another tenant are not seen.
use amz_command_center.Base.{
  Bool, List, Option, Result, String, best, false, ltb, map, member, none, ok, raised, select, some,
  str_eq, ℕ, ◌&&◌, ◌==◌, ◌||◌,
}
use amz_command_center.Number.{Number, ticks}
use amz_command_center.Scheduler.{sorted_set}
use amz_command_center.Guardrails.{Guard, duplicate_target, harvest_route_missing}
use amz_command_center.Harvest.Terms.{
  Source, SourceRow, TermText, before_text, choose_source, normalize_term, open_action_statuses,
}
use amz_command_center.Harvest.Routes.{Candidate, Route, RouteReason, build_candidate, select_route}

pub record BrandTerm : Type 0 where
  pub tenant_id : String
  pub term : String
  pub brand_class : String

pub record StrategyVersion : Type 0 where
  pub tenant_id : String
  pub code : String
  pub version : ℕ
  pub is_enabled : Bool

pub record RouteRow : Type 0 where
  pub tenant_id : String
  pub is_enabled : Bool
  pub route : Route

-- A row of the lineage, joined with its action's status.
pub record Promotion : Type 0 where
  pub tenant_id : String
  pub id : String
  pub action_id : String
  pub action_status : String
  pub normalized_term : String
  pub destination_match_type : String
  pub destination_ad_group_id : String
  pub created_at : ℕ

pub record HarvestTables (W : Type 0) : Type 0 where
  pub fetch_sources : String → String → ℕ → ℕ → List (SourceRow W)
  pub existing_target : String → String → String → Option String
  pub brand_terms : List BrandTerm
  pub strategies : List StrategyVersion
  pub promotions : List Promotion
  pub routes : List RouteRow

pub data HarvestNote : Type 0 where
  no_settled_source : HarvestNote
  already_covered : String → String → String → HarvestNote
  already_promoted : String → String → String → String → HarvestNote
  decided : RouteReason → HarvestNote

pub record HarvestPlan (W : Type 0) : Type 0 where
  pub blocked_by : Option Guard
  pub note : HarvestNote
  pub candidate : Option Candidate
  pub source : Option (Source W)
  pub route : Option Route

pub data HarvestError : Type 0 where
  key_error plan_not_allowed lineage_refused : HarvestError

-- `HarvestPlan.destination`
pub record Destination : Type 0 where
  pub campaign_id : String
  pub ad_group_id : String
  pub match_type : String
  pub route_code : String

abbrev pub destination_for : Option Route → Option Candidate → Option Destination
destination_for (some r) (some c) = some (record {
  campaign_id = r.destination_campaign_id;
  ad_group_id = r.destination_ad_group_id;
  match_type = c.match_type;
  route_code = r.code;
})
destination_for _ _ = none

module _ {W : Type 0} where
  unfoldable pub plan_destination : HarvestPlan W → Option Destination
  plan_destination p = destination_for p.route p.candidate

-- `_open_promotion`
abbrev pub promotes : String → String → String → Promotion → Bool
promotes tenant term match_type p =
    str_eq p.tenant_id tenant
    && str_eq p.normalized_term term
    && str_eq p.destination_match_type match_type
    && member p.action_status open_action_statuses

abbrev pub promotion_before : Promotion → Promotion → Bool
promotion_before p q =
    ltb p.created_at q.created_at || (p.created_at == q.created_at && before_text p.id q.id)

unfoldable pub open_promotion : List Promotion → String → String → String → Option Promotion
unfolding best
open_promotion rows tenant term match_type =
    best promotion_before (select (promotes tenant term match_type) rows)

-- `_enabled_strategy_codes`: the codes whose latest version is enabled.
abbrev pub latest_enabled : List StrategyVersion → String → Bool
latest_enabled rows code =
    elim (best (λ (v : StrategyVersion) (u : StrategyVersion). ltb u.version v.version)
      (select (λ (v : StrategyVersion). str_eq v.code code) rows)) [
        | none ↦ false
        | some v ↦ v.is_enabled
      ]

unfoldable pub enabled_strategy_codes : List StrategyVersion → String → List String
unfolding sorted_set best
enabled_strategy_codes rows tenant =
    let own = select (λ (v : StrategyVersion). str_eq v.tenant_id tenant) rows in
    select (latest_enabled own) (sorted_set (map (λ (v : StrategyVersion). v.code) own))

-- `_routes`
unfoldable pub enabled_routes : List RouteRow → String → List Route
enabled_routes rows tenant =
    map (λ (r : RouteRow). r.route)
      (select (λ (r : RouteRow). str_eq r.tenant_id tenant && r.is_enabled) rows)

abbrev pub own_brand_terms : List BrandTerm → String → List (String × String)
own_brand_terms rows tenant =
    map (λ (b : BrandTerm). (b.term, b.brand_class))
      (select (λ (b : BrandTerm). str_eq b.tenant_id tenant) rows)

module _ {W : Type 0} where
  -- The plan when no source has settled.
  abbrev pub unplanned : HarvestPlan W
  unplanned = record {
    blocked_by = some harvest_route_missing;
    note = no_settled_source;
    candidate = none;
    source = none;
    route = none;
  }

  -- The end of `plan_harvest`, from the duplicates on.
  unfoldable pub plan_candidate :
      HarvestTables W → String → String → Source W → Candidate → HarvestPlan W
  unfolding open_promotion enabled_routes
  plan_candidate db tenant term source c = elim (db.existing_target tenant term c.match_type) [
    | some keyword ↦ record {
      blocked_by = some duplicate_target;
      note = already_covered c.match_type keyword term;
      candidate = some c;
      source = some source;
      route = none;
    }
    | none ↦ elim (open_promotion db.promotions tenant term c.match_type) [
      | some p ↦ record {
        blocked_by = some duplicate_target;
        note = already_promoted term p.action_id p.action_status p.destination_ad_group_id;
        candidate = some c;
        source = some source;
        route = none;
      }
      | none ↦
          let d = select_route c (enabled_routes db.routes tenant) in
          record {
            blocked_by = d.blocked_by;
            note = decided d.reason;
            candidate = some c;
            source = some source;
            route = d.route;
          }
    ]
  ]

module _ {W : Type 0} ⦃n : Number W⦄ ⦃t : TermText⦄ (upper : String → String) where
  unfoldable pub plan_harvest :
      HarvestTables W → String → String → ℕ → ℕ → Result HarvestError (HarvestPlan W)
  unfolding plan_candidate choose_source build_candidate enabled_strategy_codes normalize_term
  plan_harvest db tenant search_term lookback_days through =
      let term = normalize_term search_term in
      elim (choose_source (db.fetch_sources tenant term lookback_days through)) [
        | none ↦ ok unplanned
        | some source ↦
            elim (build_candidate upper search_term source.advertised_asin
              (own_brand_terms db.brand_terms tenant)
              (enabled_strategy_codes db.strategies tenant)) [
                | none ↦ raised key_error
                | some c ↦ ok (plan_candidate db tenant term source c)
              ]
      ]
