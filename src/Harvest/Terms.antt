-- ===== src/Harvest/Terms.antt =====
-- A search term and the source that it comes from. `lower` and `split` are Python's; `re.match` of
-- ASIN_TERM is the regular expression's.
use Prim.Native.String.{compare, count, ◌++◌ as append}
use text.Mathlib.Text.{find?, is_lt}
use amz_command_center.Base.{
  Bool, List, Option, String, [], best, if◌then◌else◌, is_some, ltb, none, not, some, str_eq, ℕ,
  ◌&&◌, ◌==◌, ◌||◌, ◌∷◌,
}
use amz_command_center.Number.{Number, eqb, lt, nought, ticks}

pub record TermText : Type 0 where
  pub lower : String → String
  pub split : String → List String
  pub is_asin_term : String → Bool

abbrev pub wildcard : String
wildcard = "*"

abbrev pub duplicate_target_code : String
duplicate_target_code = "duplicate_target"

abbrev pub open_action_statuses : List String
open_action_statuses = "pending" ∷ "approved" ∷ "applied" ∷ "verified" ∷ []

-- `" ".join(words)`
unfoldable pub join_words : List String → String
join_words [] = ""
join_words (w ∷ []) = w
join_words (w ∷ v ∷ words) = append w (append " " (join_words (v ∷ words)))

-- The order of texts, which is Python's on code points.
abbrev pub before_text : String → String → Bool
before_text s t = is_lt (compare s t)

-- `s in t` of two texts.
abbrev pub is_within : String → String → Bool
is_within s t = is_some (find? t s)

-- `_BRAND_CLASS_ORDER.get(cls, 9)`
abbrev pub brand_class_order : String → ℕ
brand_class_order cls =
    if str_eq cls "own_brand" then 0 else if str_eq cls "competitor" then 1 else 9

-- FUNNEL_BY_BRAND_CLASS; `none` is the KeyError.
abbrev pub funnel_by_brand_class : String → Option String
funnel_by_brand_class cls =
    if str_eq cls "own_brand"
    then some "brand_defense"
    else if str_eq cls "competitor"
    then some "conquest"
    else if str_eq cls "generic"
    then some "performance"
    else none

-- `key=lambda h: (-len(h[0]), order, h[0])`, of a term and its class.
abbrev pub hit_before : String × String → String × String → Bool
hit_before (s, c) (t, d) =
    ltb (count t) (count s)
    || (count s == count t
        && (ltb (brand_class_order c) (brand_class_order d)
            || (brand_class_order c == brand_class_order d && before_text s t)))

module _ ⦃t : TermText⦄ where
  unfoldable pub normalize_term : String → String
  unfolding join_words
  normalize_term term = join_words (t.split (t.lower term))

  unfoldable pub destination_match_type : String → String
  unfolding normalize_term
  destination_match_type term = if t.is_asin_term (normalize_term term) then "product" else "exact"

  -- The brand's term is not blank, and stands in the search term as whole words.
  unfoldable pub is_hit : String → String → Bool
  unfolding normalize_term
  is_hit term bt =
      let brand = normalize_term bt in
      not (str_eq brand "")
      && is_within (append " " (append brand " ")) (append " " (append (normalize_term term) " "))

  unfoldable pub brand_hits : String → List (String × String) → List (String × String)
  unfolding normalize_term is_hit
  brand_hits term [] = []
  brand_hits term ((bt, cls) ∷ brand_terms) =
      let rest = brand_hits term brand_terms in
      if is_hit term bt then (normalize_term bt, cls) ∷ rest else rest

  unfoldable pub classify_brand : String → List (String × String) → String × Option String
  unfolding brand_hits best
  classify_brand term brand_terms = elim (best hit_before (brand_hits term brand_terms)) [
    | none ↦ ("generic", none)
    | some (brand, cls) ↦ (cls, some brand)
  ]

-- A row of `_fetch_sources`; a sum over no value is null.
pub record SourceRow (W : Type 0) : Type 0 where
  pub campaign_id : Option String
  pub ad_group_id : Option String
  pub matched_keyword_id : Option String
  pub matched_match_type : Option String
  pub advertised_asin : Option String
  pub orders : Option ℕ
  pub sales : Option W
  pub clicks : Option ℕ

pub record Source (W : Type 0) : Type 0 where
  pub campaign_id : String
  pub ad_group_id : String
  pub keyword_id : Option String
  pub match_type : Option String
  pub advertised_asin : Option String
  pub orders : ℕ
  pub sales : W
  pub clicks : ℕ

-- `x or 0` of a count, and `s or ""`.
abbrev pub or_nought : Option ℕ → ℕ
or_nought none = 0
or_nought (some k) = k

abbrev pub or_blank : Option String → String
or_blank none = ""
or_blank (some s) = s

module _ {W : Type 0} ⦃n : Number W⦄ where
  abbrev pub source_of : SourceRow W → String → String → Source W
  source_of r campaign ad_group = record {
    campaign_id = campaign;
    ad_group_id = ad_group;
    keyword_id = r.matched_keyword_id;
    match_type = r.matched_match_type;
    advertised_asin = r.advertised_asin;
    orders = or_nought r.orders;
    sales = elim r.sales [ none ↦ nought | some x ↦ x ];
    clicks = or_nought r.clicks;
  }

  unfoldable pub sources_of : List (SourceRow W) → List (Source W)
  sources_of [] = []
  sources_of (r ∷ rows) = elim r.campaign_id [
    | none ↦ sources_of rows
    | some campaign ↦ elim r.ad_group_id [
      | none ↦ sources_of rows
      | some ad_group ↦ source_of r campaign ad_group ∷ sources_of rows
    ]
  ]

  -- `key=lambda s: (-s.orders, -s.sales, -s.clicks, s.campaign_id, s.ad_group_id, …)`
  abbrev pub source_before : Source W → Source W → Bool
  source_before s u =
      if not (s.orders == u.orders)
      then ltb u.orders s.orders
      else if not (eqb s.sales u.sales)
      then lt u.sales s.sales
      else if not (s.clicks == u.clicks)
      then ltb u.clicks s.clicks
      else if not (str_eq s.campaign_id u.campaign_id)
      then before_text s.campaign_id u.campaign_id
      else if not (str_eq s.ad_group_id u.ad_group_id)
      then before_text s.ad_group_id u.ad_group_id
      else before_text (or_blank s.keyword_id) (or_blank u.keyword_id)

  unfoldable pub choose_source : List (SourceRow W) → Option (Source W)
  unfolding sources_of best
  choose_source rows = best source_before (sources_of rows)
