-- ===== src/Tests/Harvest.antt =====
-- A generic term with two routes, one of them for its product.
use amz_command_center.Base.{
  is_blank, member, List, [], false, inl, inr, none, ok, opt_str_eq, raised, refl, some, true, ◌∷◌,
  ◌≡◌, ◌⊎◌, Among,
}
use amz_command_center.Number.{Ticks, ticks}
use amz_command_center.Guardrails.{Guard}
use amz_command_center.Harvest.{
  accepts_lineage, lineage_refused, Candidate, HarvestPlan, HarvestTables, LineageRow, Route,
  Source, TermText, decided, normalize_term, plan_harvest, plan_not_allowed, record_lineage, routed,
  select_route,
}
use amz_command_center.Harvest.Winner.{IsDecided, select_route-IsDecided}
use amz_command_center.Harvest.Stable.{select_route_order, sent}
use amz_command_center.Harvest.Promotions.{IsStored, IsStored, IsClear, plan_harvest-recorded}
use amz_command_center.Scheduler.{sorted_set}

instance abbrev plain_terms : TermText
plain_terms = record { lower = λ s. s; split = λ s. s ∷ []; is_asin_term = λ s. false }

abbrev wide_route : Route
wide_route = record {
  id = "r-1";
  code = "wide";
  priority = 1;
  asin = "*";
  brand_class = "*";
  match_type = "exact";
  strategy_code = "*";
  funnel_purpose = "performance";
  destination_campaign_id = "c-9";
  destination_ad_group_id = "g-9";
}

abbrev product_route : Route
product_route = record wide_route {
  id = "r-2";
  code = "product";
  priority = 5;
  asin = "B01";
  destination_ad_group_id = "g-8";
}

abbrev generic_candidate : Candidate
generic_candidate = record {
  search_term = "shoes";
  normalized_term = "shoes";
  asin = some "B01";
  brand_class = "generic";
  brand_term = none;
  match_type = "exact";
  funnel_purpose = "performance";
  strategy_codes = [];
}

abbrev two_routes : List Route
two_routes = wide_route ∷ product_route ∷ []

select_route-IsDecided_example :
    IsDecided generic_candidate two_routes (select_route generic_candidate two_routes)
select_route-IsDecided_example = select_route-IsDecided generic_candidate two_routes

specific_lem : (select_route generic_candidate two_routes).route ≡ some product_route
unfolding select_route opt_str_eq
specific_lem = refl

swapped : (r : Route) → Among r two_routes → Among r (product_route ∷ wide_route ∷ [])
swapped r (inl e) = inr (inl e)
swapped r (inr (inl e)) = inl e
swapped r (inr (inr m)) = inr (inr m)

unswapped : (r : Route) → Among r (product_route ∷ wide_route ∷ []) → Among r two_routes
unswapped r (inl e) = inr (inl e)
unswapped r (inr (inl e)) = inl e
unswapped r (inr (inr m)) = inr (inr m)

select_route_order_example :
    sent (select_route generic_candidate two_routes)
    ≡ sent (select_route generic_candidate (product_route ∷ wide_route ∷ []))
select_route_order_example =
    select_route_order generic_candidate two_routes (product_route ∷ wide_route ∷ []) swapped
      unswapped

abbrev harvest_tables : HarvestTables Ticks
harvest_tables = record {
  fetch_sources = λ tenant term days through.
      record {
        campaign_id = some "c-1";
        ad_group_id = some "g-1";
        matched_keyword_id = none;
        matched_match_type = some "broad";
        advertised_asin = some "B01";
        orders = some 3;
        sales = some 300_000;
        clicks = some 20;
      }
      ∷ [];
  existing_target = λ tenant term match_type. none;
  brand_terms = record { tenant_id = "t-1"; term = "acme"; brand_class = "own_brand" } ∷ [];
  strategies = [];
  promotions = [];
  routes = record { tenant_id = "t-1"; is_enabled = true; route = wide_route } ∷ [];
}

abbrev shoe_source : Source Ticks
shoe_source = record {
  campaign_id = "c-1";
  ad_group_id = "g-1";
  keyword_id = none;
  match_type = some "broad";
  advertised_asin = some "B01";
  orders = 3;
  sales = 300_000;
  clicks = 20;
}

abbrev shoe_plan : HarvestPlan Ticks
shoe_plan = record {
  blocked_by = none;
  note = decided (routed "generic" "exact" wide_route);
  candidate = some generic_candidate;
  source = some shoe_source;
  route = some wide_route;
}

planned_lem :
    plan_harvest ⦃t = plain_terms⦄ (λ s. s) harvest_tables "t-1" "shoes" 30 9 ≡ ok shoe_plan
unfolding plan_harvest select_route opt_str_eq sorted_set
planned_lem = refl

plan_harvest-recorded_example :
    (p : HarvestPlan Ticks) × (plan_harvest (λ s. s) harvest_tables "t-1" "shoes" 30 9 ≡ ok p)
    × (((g : Guard) × (p.blocked_by ≡ some g)
          × (record_lineage "t-1" "run" "ev" "a-1" p [] ≡ raised plan_not_allowed))
        ⊎ (IsClear harvest_tables "t-1" (normalize_term "shoes") p
            × ((row : LineageRow Ticks) × (some row.route ≡ p.route)
                × (some row.candidate ≡ p.candidate)
                × (row.action_id ≡ "a-1")
                × IsStored [] row (record_lineage "t-1" "run" "ev" "a-1" p []))))
plan_harvest-recorded_example =
    plan_harvest-recorded (λ s. s) harvest_tables "t-1" "shoes" 30 9 (refl, tt) "run" "ev" "a-1" []

-- A second row of the same action is refused.
again_lem :
    (row : LineageRow Ticks) × (record_lineage "t-1" "run" "ev" "a-1" shoe_plan [] ≡ ok (row ∷ []))
    × (record_lineage "t-1" "run" "ev" "a-1" shoe_plan (row ∷ []) ≡ raised lineage_refused)
unfolding record_lineage accepts_lineage is_blank member
again_lem = (_, refl, refl)
