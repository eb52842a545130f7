-- ===== src/Harvest/Planned.antt =====
-- The brand classes of `plan_harvest` (services/rules/harvest.py), which its table of funnels is
-- asked for.
use amz_command_center.Base.{
  All, Bool, Bool-cases, List, Option, Option-cases, String, [], arith, best, best-All, inl, inr,
  is_some, map-All, ok, refl, select, str_eq, true, ℕ, ◌∷◌, ◌≡◌,
}
use amz_command_center.Number.{Number, ticks}
use amz_command_center.Harvest.Terms.{
  TermText, brand_hits, choose_source, classify_brand, funnel_by_brand_class, hit_before, is_hit,
  normalize_term,
}
use amz_command_center.Harvest.Routes.{build_candidate}
use amz_command_center.Harvest.Plans.{
  BrandTerm, HarvestPlan, HarvestTables, enabled_strategy_codes, own_brand_terms, plan_candidate,
  plan_harvest, unplanned,
}

abbrev pub has_funnel : String → Bool
has_funnel cls = is_some (funnel_by_brand_class cls)

All-kept {κ} :
    {A : Type 0} (P : A → Type κ) (p : A → Bool) (xs : List A) → All P xs → All P (select p xs)
All-kept P p [] h = tt
All-kept P p (x ∷ xs) h = elim (Bool-cases (p x)) [
  | inl e ↦ rw e (h.0, All-kept P p xs h.1)
  | inr e ↦ rw e (All-kept P p xs h.1)
]

own_terms_lem :
    (rows : List BrandTerm) (tenant : String)
    → All (λ b. has_funnel b.brand_class ≡ true) rows
    → All (λ t. has_funnel t.1 ≡ true) (own_brand_terms rows tenant)
own_terms_lem rows tenant h =
    map-All _ _ (select (λ (b : BrandTerm). str_eq b.tenant_id tenant) rows) (All-kept _ _ rows h)

module _ ⦃t : TermText⦄ where
  hits_lem :
      (term : String) (brand_terms : List (String × String))
      → All (λ t. has_funnel t.1 ≡ true) brand_terms
      → All (λ t. has_funnel t.1 ≡ true) (brand_hits term brand_terms)
  unfolding brand_hits
  hits_lem term [] h = tt
  hits_lem term ((bt, cls) ∷ brand_terms) h = elim (Bool-cases (is_hit term bt)) [
    | inl e ↦ rw e (h.0, hits_lem term brand_terms h.1)
    | inr e ↦ rw e (hits_lem term brand_terms h.1)
  ]

  class_lem :
      (term : String) (brand_terms : List (String × String))
      → All (λ t. has_funnel t.1 ≡ true) brand_terms
      → has_funnel (classify_brand term brand_terms).0 ≡ true
  unfolding classify_brand
  class_lem term brand_terms h =
      elim (Option-cases (best hit_before (brand_hits term brand_terms))) [
        | inl e ↦ rw (classify_brand, e) refl
        | inr (hit, e) ↦
            rw (classify_brand, e)
              (best-All _ hit_before (brand_hits term brand_terms) hit (hits_lem term brand_terms h)
                e)
      ]

  candidate_lem :
      (upper : String → String) (term : String) (asin : Option String)
      (brand_terms : List (String × String)) (codes : List String)
      → All (λ t. has_funnel t.1 ≡ true) brand_terms
      → is_some (build_candidate upper term asin brand_terms codes) ≡ true
  unfolding build_candidate
  candidate_lem upper term asin brand_terms codes h =
      let e = class_lem term brand_terms h in
      elim (Option-cases (funnel_by_brand_class (classify_brand term brand_terms).0)) [
        | inl q ↦ absurd (ground (arith, e, q))
        | inr (funnel, q) ↦ rw (build_candidate, q) refl
      ]

  module _ {W : Type 0} ⦃n : Number W⦄ (upper : String → String) (db : HarvestTables W)
      (tenant search_term : String) (lookback_days through : ℕ)
      (known : All (λ b. has_funnel b.brand_class ≡ true) db.brand_terms) where
    pub plan_harvest_ok :
        (p : HarvestPlan W) × (plan_harvest upper db tenant search_term lookback_days through
          ≡ ok p)
    unfolding plan_harvest
    plan_harvest_ok =
        let term = normalize_term search_term in
        elim (Option-cases (choose_source (db.fetch_sources tenant term lookback_days through))) [
          | inl a ↦ (unplanned, rw (plan_harvest, a) refl)
          | inr (s, a) ↦
              let e =
                candidate_lem upper search_term s.advertised_asin
                  (own_brand_terms db.brand_terms tenant)
                  (enabled_strategy_codes db.strategies tenant)
                  (own_terms_lem db.brand_terms tenant known) in
              elim (Option-cases (
                build_candidate upper search_term s.advertised_asin
                  (own_brand_terms db.brand_terms tenant)
                  (enabled_strategy_codes db.strategies tenant))) [
                    | inl b ↦ absurd (ground (arith, e, b))
                    | inr (c, b) ↦ (plan_candidate db tenant term s c, rw (plan_harvest, a, b) refl)
                  ]
        ]
