-- ===== src/Verification/Windows.antt =====
-- The performance of an entity over a window of days, and the verdict on two windows. Days are
-- counted from the calendar's first, and an earlier one raises.
use amz_command_center.Base.{
  Bool, List, Option, Result, String, [], exists, false, if◌then◌else◌, leb, ltb, map, none, not,
  ok, raised, select, some, str_eq, suc, ℕ, ◌&&◌, ◌+◌, ◌==◌, ◌||◌, ◌∷◌,
}
use amz_command_center.Base.Int.{pos}
use amz_command_center.Number.{Number, nought, of_nat, ticks}
use amz_command_center.Json.{Json, Members, dict, empty, entry, integer, null, real, text}
use amz_command_center.StateMachine.{Action, Refusal}
use amz_command_center.Audit.{Redactor}

abbrev pub window_days : ℕ
window_days = 7

abbrev pub horizons : List ℕ
horizons = 1 ∷ 3 ∷ 7 ∷ 14 ∷ 30 ∷ []

unfoldable pub is_horizon : ℕ → List ℕ → Bool
is_horizon d [] = false
is_horizon d (h ∷ hs) = d == h || is_horizon d hs

abbrev pub action_metrics : List (String × List String)
action_metrics =
    ("set_bid", "cost" ∷ "sales" ∷ "clicks" ∷ "orders" ∷ "acos" ∷ "cvr" ∷ "cpc" ∷ [])
    ∷ ("set_budget", "cost" ∷ "sales" ∷ "orders" ∷ "acos" ∷ [])
    ∷ ("set_placement_modifier", "cost" ∷ "sales" ∷ "clicks" ∷ "orders" ∷ "acos" ∷ "cvr" ∷ [])
    ∷ ("pause", "cost" ∷ "sales" ∷ "orders" ∷ [])
    ∷ ("enable", "cost" ∷ "sales" ∷ "orders" ∷ [])
    ∷ ("create_keyword", "cost" ∷ "sales" ∷ "clicks" ∷ "orders" ∷ "acos" ∷ "cvr" ∷ [])
    ∷ ("add_negative_exact", "cost" ∷ "sales" ∷ "clicks" ∷ "orders" ∷ [])
    ∷ ("add_negative_phrase", "cost" ∷ "sales" ∷ "clicks" ∷ "orders" ∷ [])
    ∷ []

unfoldable pub metrics_of : String → List (String × List String) → Option (List String)
metrics_of kind [] = none
metrics_of kind ((k, keys) ∷ rest) = if str_eq k kind then some keys else metrics_of kind rest

-- The AssertionError, the ValueErrors, the OverflowError of a date, the TypeError of json.dumps, and
-- the TransitionError.
pub data VerifyError : Type 0 where
  unsupported_horizon not_wired bad_placement date_out_of_range not_serializable : VerifyError
  refused : Refusal → VerifyError

pub record MetricWindow (W : Type 0) : Type 0 where
  pub cost : W
  pub sales : W
  pub clicks : ℕ
  pub orders : ℕ
  pub observed_days : ℕ
  pub data_through : Option ℕ

-- A row of one of the marts by day; `entity_id` is its keyword, campaign or search term.
pub record MartRow (W : Type 0) : Type 0 where
  pub tenant_id : String
  pub entity_id : String
  pub placement : String
  pub report_date : ℕ
  pub is_settled : Bool
  pub cost : W
  pub sales : W
  pub clicks : ℕ
  pub orders : ℕ

pub record Marts (W : Type 0) : Type 0 where
  pub keywords : List (MartRow W)
  pub campaigns : List (MartRow W)
  pub placements : List (MartRow W)
  pub search_terms : List (MartRow W)

-- What comes from outside: the database's `sum` of amounts as a float, `isoformat` of a date and of
-- a moment, and `split(":", 1)` where it finds a colon.
pub record VerifyWorld (W : Type 0) : Type 0 where
  pub redactor : Redactor
  pub total : List W → W
  pub iso_date : ℕ → String
  pub iso_moment : ℕ → String
  pub split_colon : String → Option (String × String)

-- `coalesce(sum(x), 0)` and `max(x)` over days and counts.
abbrev pub sum_of : List ℕ → ℕ
sum_of [] = 0
sum_of (x ∷ xs) = x + sum_of xs

abbrev pub latest : List ℕ → Option ℕ
latest [] = none
latest (x ∷ xs) = elim (latest xs) [ none ↦ some x | some y ↦ some (if ltb x y then y else x) ]

abbrev pub count_distinct : List ℕ → ℕ
count_distinct [] = 0
count_distinct (x ∷ xs) =
    let rest = count_distinct xs in if exists (λ y. x == y) xs then rest else suc rest

module _ {W : Type 0} ⦃n : Number W⦄ where
  -- The properties `acos`, `cvr` and `cpc`.
  unfoldable pub acos : MetricWindow W → Option W
  acos m = if not (n.lt nought m.sales) then none else some (n.div m.cost m.sales)

  unfoldable pub cvr : MetricWindow W → Option W
  cvr m = if m.clicks == 0 then none else some (n.div (of_nat m.orders) (of_nat m.clicks))

  unfoldable pub cpc : MetricWindow W → Option W
  cpc m = if ltb 0 m.clicks then some (n.div m.cost (of_nat m.clicks)) else none

  abbrev pub or_null_real : Option W → Json W
  or_null_real none = null
  or_null_real (some x) = real x

  abbrev pub or_null_date : VerifyWorld W → Option ℕ → Json W
  or_null_date w none = null
  or_null_date w (some d) = text (w.iso_date d)

  unfoldable pub metrics : VerifyWorld W → MetricWindow W → Members W
  unfolding acos cvr cpc
  metrics w m = entry "cost" (real m.cost) (
      entry "sales" (real m.sales) (
        entry "clicks" (integer (pos m.clicks)) (
          entry "orders" (integer (pos m.orders)) (
            entry "acos" (or_null_real (acos m)) (
              entry "cvr" (or_null_real (cvr m)) (
                entry "cpc" (or_null_real (cpc m)) (
                  entry "observed_days" (integer (pos m.observed_days))
                    (entry "data_through" (or_null_date w m.data_through) empty))))))))

  -- One side of the impact that `judge` returns.
  unfoldable pub impact_of : MetricWindow W → Members W
  unfolding acos cvr
  impact_of m = entry "cost" (real m.cost) (
      entry "sales" (real m.sales) (
        entry "clicks" (integer (pos m.clicks)) (
          entry "orders" (integer (pos m.orders))
            (entry "acos" (or_null_real (acos m)) (entry "cvr" (or_null_real (cvr m)) empty)))))

  -- The aggregates of a query, as `_window_from_row` reads them.
  unfoldable pub window_from : VerifyWorld W → List (MartRow W) → MetricWindow W
  window_from w rows = record {
    cost = w.total (map (λ (x : MartRow W). x.cost) rows);
    sales = w.total (map (λ (x : MartRow W). x.sales) rows);
    clicks = sum_of (map (λ (x : MartRow W). x.clicks) rows);
    orders = sum_of (map (λ (x : MartRow W). x.orders) rows);
    observed_days = count_distinct (map (λ (x : MartRow W). x.report_date) rows);
    data_through = latest (map (λ (x : MartRow W). x.report_date) rows);
  }

  abbrev pub in_window : String → String → ℕ → ℕ → MartRow W → Bool
  in_window tenant id start end x =
      str_eq x.tenant_id tenant
      && str_eq x.entity_id id
      && x.is_settled
      && leb start x.report_date
      && ltb x.report_date end

  -- The four queries, each on its mart.
  unfoldable pub keyword_window : VerifyWorld W → Marts W → String → String → ℕ → ℕ → MetricWindow W
  unfolding window_from
  keyword_window w db tenant id start end =
      window_from w (select (in_window tenant id start end) db.keywords)

  unfoldable pub campaign_window :
      VerifyWorld W → Marts W → String → String → ℕ → ℕ → MetricWindow W
  unfolding window_from
  campaign_window w db tenant id start end =
      window_from w (select (in_window tenant id start end) db.campaigns)

  unfoldable pub placement_window :
      VerifyWorld W → Marts W → String → String → ℕ → ℕ → Result VerifyError (MetricWindow W)
  unfolding window_from
  placement_window w db tenant id start end = elim (w.split_colon id) [
    | none ↦ raised bad_placement
    | some (campaign, placement) ↦ ok (
        window_from w (
          select (λ x. in_window tenant campaign start end x && str_eq x.placement placement)
            db.placements))
  ]

  unfoldable pub search_term_window :
      VerifyWorld W → Marts W → String → String → ℕ → ℕ → MetricWindow W
  unfolding window_from
  search_term_window w db tenant term start end =
      window_from w (select (in_window tenant term start end) db.search_terms)

  unfoldable pub performance_window :
      VerifyWorld W → Marts W → Action W → ℕ → ℕ → Result VerifyError (MetricWindow W)
  unfolding keyword_window campaign_window placement_window search_term_window
  performance_window w db a start end =
      if str_eq a.entity_type "keyword" || str_eq a.entity_type "target"
      then ok (keyword_window w db a.tenant_id a.entity_id start end)
      else if str_eq a.entity_type "campaign"
      then ok (campaign_window w db a.tenant_id a.entity_id start end)
      else if str_eq a.entity_type "placement"
      then placement_window w db a.tenant_id a.entity_id start end
      else if str_eq a.entity_type "search_term"
      then ok (search_term_window w db a.tenant_id a.entity_id start end)
      else raised not_wired

  -- `0.9`, `1.1` and `1.2`: the quotients of Python's division.
  abbrev pub tenths : ℕ → W
  tenths k = n.div (of_nat k) (of_nat 10)

  -- The verdict where both windows have ten clicks, from the two ACOS.
  abbrev pub judge_acos : MetricWindow W → MetricWindow W → Option W → Option W → String
  judge_acos before after (some x) (some y) =
      if not (n.lt (n.mul x (tenths 9)) y)
      then "improved"
      else if not (n.lt y (n.mul x (tenths 11)))
      then "worsened"
      else "neutral"
  judge_acos before after x y =
      if ltb before.orders after.orders && not (n.lt (n.mul before.cost (tenths 12)) after.cost)
      then "improved"
      else "inconclusive"

  unfoldable pub judge : MetricWindow W → MetricWindow W → String × Members W
  unfolding impact_of acos
  judge before after = (
    if ltb before.clicks 10 || ltb after.clicks 10
        then "inconclusive"
        else judge_acos before after (acos before) (acos after),
    entry "before" (dict (impact_of before)) (entry "after" (dict (impact_of after)) empty),
  )
