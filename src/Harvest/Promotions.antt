-- ===== src/Harvest/Promotions.antt =====
-- What a plan has that nothing blocks, and its record.
use amz_command_center.Base.{
  Result, true, All, Bool, Bool-cases, List, Option, Option-cases, String, [], ap, arith, best,
  false, inl, inr, none, ok, raised, refl, select, some, sym, true, ℕ, ◌∙◌, ◌∷◌, ◌≡◌, ◌≢◌, ◌⊎◌,
}
use amz_command_center.Number.{Number, ticks}
use amz_command_center.Guardrails.{Guard}
use amz_command_center.Harvest.Terms.{Source, TermText, choose_source, normalize_term}
use amz_command_center.Harvest.Routes.{Candidate, Route, build_candidate, select_route}
use amz_command_center.Harvest.Plans.{
  HarvestError, lineage_refused, HarvestPlan, HarvestTables, decided, enabled_routes,
  enabled_strategy_codes, open_promotion, own_brand_terms, plan_candidate, plan_harvest,
  plan_not_allowed, promotes, promotion_before,
}
use amz_command_center.Harvest.Lineages.{accepts_lineage, LineageRow, lineage_row, record_lineage}
use amz_command_center.Harvest.Winner.{Agrees, Called, IsTop, select_route-IsDecided}
use amz_command_center.Harvest.Planned.{has_funnel, plan_harvest_ok}

-- The term has a source, no target and no open promotion has it already, and its route wins.
pub record IsClear {W : Type 0} (db : HarvestTables W) (tenant term : String) (p : HarvestPlan W)
    : Type 0 where
  pub source : Source W
  pub candidate : Candidate
  pub route : Route
  pub has_source : p.source ≡ some source
  pub has_candidate : p.candidate ≡ some candidate
  pub has_route : p.route ≡ some route
  pub no_target : db.existing_target tenant term candidate.match_type ≡ none
  pub no_promotion : All (λ q. promotes tenant term candidate.match_type q ≡ false) db.promotions
  pub wins : IsTop candidate (enabled_routes db.routes tenant) route
  pub agrees : Agrees candidate (enabled_routes db.routes tenant) route

-- No row of the condition, where a query with an order finds none.
none-All {ℓ} :
    {A : Type ℓ} (p : A → Bool) (before : A → A → Bool) (xs : List A)
    → best before (select p xs) ≡ none
    → All (λ x. p x ≡ false) xs
unfolding best
none-All p before [] e = tt
none-All {A} p before (x ∷ xs) e = elim (Bool-cases (p x)) [
  | inl h ↦ absurd (some_lem x (select p xs) (rw h at e))
  | inr h ↦ (h, none-All p before xs (rw h at e))
]
  where
    some_lem : (x : A) (xs : List A) → best before (x ∷ xs) ≢ none
    some_lem x xs e = cc

called_lem :
    (c : Candidate) (routes : List Route) (o : Option Route) (b : Option Guard)
    → Called c routes o b
    → b ≡ none
    → (r : Route) × (o ≡ some r) × IsTop c routes r × Agrees c routes r
called_lem c routes (some r) b (t, agrees, e) h = (r, refl, t, agrees)
called_lem c routes none b (inl (e, k)) h = absurd (cc)
called_lem c routes none b (inr (e, k)) h = absurd (cc)

module _ {W : Type 0} where
  -- What an insertion of the row comes to.
  abbrev pub IsStored :
      List (LineageRow W) → LineageRow W → Result HarvestError (List (LineageRow W)) → Type 0
  IsStored rows row end =
      ((accepts_lineage rows row ≡ true) × (end ≡ ok (row ∷ rows)))
      ⊎ ((accepts_lineage rows row ≡ false) × (end ≡ raised lineage_refused))

  stored_lem :
      (tenant run evaluation action : String) (p : HarvestPlan W) (rows : List (LineageRow W))
      (r : Route) (c : Candidate) (s : Source W)
      → p.blocked_by ≡ none
      → p.route ≡ some r
      → p.candidate ≡ some c
      → p.source ≡ some s
      → IsStored rows
          (lineage_row tenant run evaluation action p r c s)
          (record_lineage tenant run evaluation action p rows)
  unfolding record_lineage
  stored_lem tenant run evaluation action p rows r c s free has_route has_candidate has_source =
      let row = lineage_row tenant run evaluation action p r c s in
      elim (Bool-cases (accepts_lineage rows row)) [
        | inl e ↦ inl (e, rw (record_lineage, free, has_route, has_candidate, has_source, e) refl)
        | inr e ↦ inr (e, rw (record_lineage, free, has_route, has_candidate, has_source, e) refl)
      ]

  blocked_lem :
      (tenant run evaluation action : String) (p : HarvestPlan W) (rows : List (LineageRow W))
      (g : Guard)
      → p.blocked_by ≡ some g
      → record_lineage tenant run evaluation action p rows ≡ raised plan_not_allowed
  unfolding record_lineage
  blocked_lem tenant run evaluation action p rows g e = rw (record_lineage, e) refl

module _ {W : Type 0} (db : HarvestTables W) (tenant term : String) (s : Source W)
    (c : Candidate) where
  routed_lem :
      db.existing_target tenant term c.match_type ≡ none
      → open_promotion db.promotions tenant term c.match_type ≡ none
      → plan_candidate db tenant term s c ≡ record {
        blocked_by = (select_route c (enabled_routes db.routes tenant)).blocked_by;
        note = decided (select_route c (enabled_routes db.routes tenant)).reason;
        candidate = some c;
        source = some s;
        route = (select_route c (enabled_routes db.routes tenant)).route;
      }
  unfolding plan_candidate
  routed_lem a b = rw (plan_candidate, a, b) refl

  clear_lem :
      (p : HarvestPlan W)
      → plan_candidate db tenant term s c ≡ p
      → p.blocked_by ≡ none
      → IsClear db tenant term p
  unfolding plan_candidate open_promotion
  clear_lem p e free = elim (Option-cases (db.existing_target tenant term c.match_type)) [
    | inr (k, a) ↦ absurd (ground (arith, a))
    | inl a ↦ elim (Option-cases (open_promotion db.promotions tenant term c.match_type)) [
      | inr (q, b) ↦ absurd (ground (arith, a, b))
      | inl b ↦
          let routes = enabled_routes db.routes tenant in
          let q = sym (routed_lem a b) ∙ e in
          let (r, o, t, agrees) =
            called_lem c routes _ _ (select_route-IsDecided c routes)
              (ap (λ (p : HarvestPlan W). p.blocked_by) q ∙ free) in
          record {
            source = s;
            candidate = c;
            route = r;
            has_source = sym (ap (λ (p : HarvestPlan W). p.source) q);
            has_candidate = sym (ap (λ (p : HarvestPlan W). p.candidate) q);
            has_route = sym (ap (λ (p : HarvestPlan W). p.route) q) ∙ o;
            no_target = a;
            no_promotion = none-All _ promotion_before db.promotions b;
            wins = t;
            agrees = agrees;
          }
    ]
  ]

module _ {W : Type 0} ⦃n : Number W⦄ ⦃t : TermText⦄ (upper : String → String) (db : HarvestTables W)
    (tenant search_term : String) (lookback_days through : ℕ) (p : HarvestPlan W)
    (planned : plan_harvest upper db tenant search_term lookback_days through ≡ ok p)
    (free : p.blocked_by ≡ none) where
  plan_harvest-IsClear : IsClear db tenant (normalize_term search_term) p
  unfolding plan_harvest
  plan_harvest-IsClear =
      let term = normalize_term search_term in
      elim (Option-cases (choose_source (db.fetch_sources tenant term lookback_days through))) [
        | inl a ↦ absurd (ground (arith, a))
        | inr (s, a) ↦
            elim (Option-cases (
              build_candidate upper search_term s.advertised_asin
                (own_brand_terms db.brand_terms tenant)
                (enabled_strategy_codes db.strategies tenant))) [
                  | inl b ↦ absurd (ground (arith, a, b))
                  | inr (c, b) ↦ clear_lem db tenant term s c p (ground (arith, a, b)) free
                ]
      ]

module _ {W : Type 0} ⦃n : Number W⦄ ⦃t : TermText⦄ (upper : String → String) (db : HarvestTables W)
    (tenant search_term : String) (lookback_days through : ℕ)
    (known : All (λ b. has_funnel b.brand_class ≡ true) db.brand_terms) where
  -- Where every brand class of the table has a funnel, a plan is returned. Either a guard blocks
  -- it, and it is not recorded, or it has a source, no target and no open promotion of the term,
  -- and the winning route among the enabled ones. A row with that route and its candidate is then
  -- put in front of the lineage where the table's checks accept it, with the action unrecorded and
  -- the candidate's terms not blank; where they refuse it, an error is raised.
  pub plan_harvest-recorded :
      (run evaluation action : String) (rows : List (LineageRow W))
      → (p : HarvestPlan W) × (plan_harvest upper db tenant search_term lookback_days through
          ≡ ok p)
        × (((g : Guard) × (p.blocked_by ≡ some g)
              × (record_lineage tenant run evaluation action p rows ≡ raised plan_not_allowed))
            ⊎ (IsClear db tenant (normalize_term search_term) p
                × ((row : LineageRow W) × (some row.route ≡ p.route)
                    × (some row.candidate ≡ p.candidate)
                    × (row.action_id ≡ action)
                    × IsStored rows row (record_lineage tenant run evaluation action p rows))))
  plan_harvest-recorded run evaluation action rows =
      let (p, planned) = plan_harvest_ok upper db tenant search_term lookback_days through known in
      (
        p,
        planned,
        elim (Option-cases p.blocked_by) [
          | inr (g, e) ↦ inl (g, e, blocked_lem tenant run evaluation action p rows g e)
          | inl free ↦
              let clear =
                plan_harvest-IsClear upper db tenant search_term lookback_days through p planned
                  free in
              inr (
                clear,
                (
                  lineage_row tenant run evaluation action p clear.route clear.candidate
                      clear.source,
                  sym clear.has_route,
                  sym clear.has_candidate,
                  refl,
                  stored_lem tenant run evaluation action p rows clear.route clear.candidate
                      clear.source free clear.has_route clear.has_candidate clear.has_source,
                ),
              )
        ],
      )
