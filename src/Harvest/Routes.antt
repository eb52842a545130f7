-- ===== src/Harvest/Routes.antt =====
-- A candidate for promotion, and the route that is selected for it.
use amz_command_center.Base.{
  Bool, List, Option, String, [], exists, if◌then◌else◌, length, ltb, map, member, none, opt_str_eq,
  select, some, sort_by, str_eq, ℕ, ◌&&◌, ◌+◌, ◌==◌, ◌||◌, ◌∷◌,
}
use amz_command_center.Guardrails.{Guard, harvest_route_conflict, harvest_route_missing}
use amz_command_center.Harvest.Terms.{
  TermText, before_text, classify_brand, destination_match_type, funnel_by_brand_class,
  normalize_term, wildcard,
}

pub record Route : Type 0 where
  pub id : String
  pub code : String
  pub priority : ℕ
  pub asin : String
  pub brand_class : String
  pub match_type : String
  pub strategy_code : String
  pub funnel_purpose : String
  pub destination_campaign_id : String
  pub destination_ad_group_id : String

pub record Candidate : Type 0 where
  pub search_term : String
  pub normalized_term : String
  pub asin : Option String
  pub brand_class : String
  pub brand_term : Option String
  pub match_type : String
  pub funnel_purpose : String
  pub strategy_codes : List String

unfoldable pub is_narrow : String → ℕ
is_narrow value = if str_eq value wildcard then 0 else 1

-- `Route.specificity` and `Route.destination`
unfoldable pub specificity : Route → ℕ
unfolding is_narrow
specificity r = is_narrow r.asin + is_narrow r.brand_class + is_narrow r.strategy_code

abbrev pub destination_of : Route → String × String
destination_of r = (r.destination_campaign_id, r.destination_ad_group_id)

-- `_eligible`
unfoldable pub is_eligible : Candidate → Route → Bool
is_eligible c r =
    str_eq r.match_type c.match_type
    && str_eq r.funnel_purpose c.funnel_purpose
    && (str_eq r.asin wildcard || opt_str_eq (some r.asin) c.asin)
    && (str_eq r.brand_class wildcard || str_eq r.brand_class c.brand_class)
    && (str_eq r.strategy_code wildcard || member r.strategy_code c.strategy_codes)

pub data RouteReason : Type 0 where
  no_enabled_route : String → String → String → Option String → RouteReason
  competing_destinations : ℕ → ℕ → List String → RouteReason
  routed : String → String → Route → RouteReason

pub record RouteDecision : Type 0 where
  pub route : Option Route
  pub blocked_by : Option Guard
  pub reason : RouteReason
  pub considered : List String

-- The part of the sort's key that decides: more specific, then a lower number.
abbrev pub outranks : Route → Route → Bool
outranks r s =
    ltb (specificity s) (specificity r)
    || (specificity r == specificity s && ltb r.priority s.priority)

abbrev pub same_rank : Route → Route → Bool
same_rank r s = specificity r == specificity s && r.priority == s.priority

-- `key=lambda r: (-r.specificity, r.priority, r.code, r.id)`
abbrev pub route_before : Route → Route → Bool
route_before r s =
    outranks r s
    || (same_rank r s
        && (before_text r.code s.code || (str_eq r.code s.code && before_text r.id s.id)))

unfoldable pub same_destination : String × String → String × String → Bool
same_destination (c, g) (d, h) = str_eq c d && str_eq g h

-- The set of the destinations, each once.
unfoldable pub destinations : List Route → List (String × String)
unfolding same_destination
destinations [] = []
destinations (r ∷ routes) =
    let rest = destinations routes in
    if exists (same_destination (destination_of r)) rest then rest else destination_of r ∷ rest

abbrev pub codes_of : List Route → List String
codes_of = map (λ (r : Route). r.code)

unfoldable pub decide_route : Candidate → List Route → RouteDecision
unfolding destinations specificity
decide_route c [] = record {
  route = none;
  blocked_by = some harvest_route_missing;
  reason = no_enabled_route c.match_type c.brand_class c.funnel_purpose c.asin;
  considered = [];
}
decide_route c (first ∷ others) =
    let eligible = first ∷ others in
    let top = select (λ r. same_rank r first) eligible in
    if ltb 1 (length (destinations top))
    then record {
      route = none;
      blocked_by = some harvest_route_conflict;
      reason =
          competing_destinations (specificity first) first.priority
            (sort_by before_text (codes_of top));
      considered = codes_of eligible;
    }
    else record {
      route = some first;
      blocked_by = none;
      reason = routed c.brand_class c.match_type first;
      considered = codes_of eligible;
    }

unfoldable pub select_route : Candidate → List Route → RouteDecision
unfolding decide_route is_eligible sort_by
select_route c routes = decide_route c (sort_by route_before (select (is_eligible c) routes))

module _ ⦃t : TermText⦄ (upper : String → String) where
  -- `none` is the KeyError of a brand class that has no funnel.
  unfoldable pub build_candidate :
      String → Option String → List (String × String) → List String → Option Candidate
  unfolding classify_brand destination_match_type normalize_term
  build_candidate search_term asin brand_terms strategy_codes =
      let (cls, brand) = classify_brand search_term brand_terms in
      elim (funnel_by_brand_class cls) [
        | none ↦ none
        | some funnel ↦ some (record {
          search_term = search_term;
          normalized_term = normalize_term search_term;
          asin = elim asin [ none ↦ none | some a ↦ if str_eq a "" then none else some (upper a) ];
          brand_class = cls;
          brand_term = brand;
          match_type = destination_match_type search_term;
          funnel_purpose = funnel;
          strategy_codes = strategy_codes;
        })
      ]
