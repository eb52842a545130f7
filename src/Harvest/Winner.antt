-- ===== src/Harvest/Winner.antt =====
-- The route that wins: the most specific of the eligible ones, then the one of the lowest number,
-- where the routes of its rank agree on the destination.
use mathlib.Core.Path.{subst}
use amz_command_center.Base.{
  All, All-imp, Bool-cases, List, Option, String, [], ap, arith, false, inl, inr, length, ltb, none,
  refl, select, some, sort_by, sort_by-All, suc, sym, true, ◌∙◌, ◌∷◌, ◌≡◌, ◌≢◌, ◌⊎◌, Among, IsFirst,
  sort_by-IsFirst, All-select, Among-All, All-sort_by,
}
use amz_command_center.Guardrails.{Guard, harvest_route_conflict, harvest_route_missing}
use amz_command_center.Harvest.Routes.{
  Candidate, Route, RouteDecision, decide_route, destination_of, destinations, is_eligible,
  outranks, route_before, same_rank, select_route,
}
use amz_command_center.Harvest.Destinations.{
  List-cases, destinations_none, destinations_one, destinations_two,
}

-- A route that no eligible one outranks.
pub record IsTop (c : Candidate) (routes : List Route) (r : Route) : Type 0 where
  pub among : Among r routes
  pub eligible : is_eligible c r ≡ true
  pub top : All (λ s. is_eligible c s ≡ true → outranks s r ≡ false) routes

-- The eligible routes of its rank send the term to the same place.
abbrev pub Agrees : Candidate → List Route → Route → Type 0
Agrees c routes r =
    All (λ s. is_eligible c s ≡ true → same_rank s r ≡ true → destination_of s ≡ destination_of r)
      routes

-- Two routes of the highest rank send it to different places.
abbrev pub IsContested : Candidate → List Route → Type 0
IsContested c routes =
    (r : Route) × (s : Route) × IsTop c routes r
    × IsTop c routes s
    × (same_rank s r ≡ true)
    × (destination_of s ≢ destination_of r)

-- The decision that the routes call for: a route or none, and what blocks it.
abbrev pub Called : Candidate → List Route → Option Route → Option Guard → Type 0
Called c routes (some r) blocked = IsTop c routes r × Agrees c routes r × (blocked ≡ none)
Called c routes none blocked =
    ((blocked ≡ some harvest_route_missing) × All (λ s. is_eligible c s ≡ false) routes)
    ⊎ ((blocked ≡ some harvest_route_conflict) × IsContested c routes)

abbrev pub IsDecided : Candidate → List Route → RouteDecision → Type 0
IsDecided c routes d = Called c routes d.route d.blocked_by

outranks_trans :
    (r s u : Route) → outranks s r ≡ false → outranks u s ≡ false → outranks u r ≡ false
outranks_trans r s u e f = ground arith

sorted_lem :
    (routes : List Route) → IsFirst (λ r s. outranks s r ≡ false) (sort_by route_before routes)
sorted_lem routes =
    sort_by-IsFirst route_before (λ r s. outranks s r ≡ false) outranks_trans before_lem after_lem
      routes
  where
    before_lem : (r s : Route) → route_before r s ≡ true → outranks s r ≡ false
    before_lem r s e = ground arith

    after_lem : (r s : Route) → route_before r s ≡ false → outranks r s ≡ false
    after_lem r s e = ground arith

same_rank_refl : (r : Route) → same_rank r r ≡ true
same_rank_refl r = ground arith

outranks_rank :
    (u s first : Route) → outranks u first ≡ false → same_rank s first ≡ true → outranks u s ≡ false
outranks_rank u s first e f = ground arith

same_rank_trans :
    (r s first : Route) → same_rank r first ≡ true → same_rank s first ≡ true → same_rank s r ≡ true
same_rank_trans r s first e f = ground arith

not_above_lem : (r s : Route) → same_rank s r ≡ true → outranks s r ≡ false
not_above_lem r s e = ground arith

-- Where the routes of a rank have one destination, it is that of the first.
one_lem :
    (first : Route) (tops : List Route)
    → ltb 1 (length (destinations (first ∷ tops))) ≡ false
    → All (λ s. destination_of s ≡ destination_of first) (first ∷ tops)
one_lem first tops e = elim (List-cases (destinations (first ∷ tops))) [
  | inl q ↦ absurd (destinations_none first tops q)
  | inr (d, ds, q) ↦
      let single : ds ≡ [] = short ds (subst (λ l. ltb 1 (length l) ≡ false) q e) in
      let all = destinations_one (first ∷ tops) d (q ∙ ap (λ l. d ∷ l) single) in
      All-imp _ _ (first ∷ tops) (λ s z. z ∙ sym (all.0)) all
]
  where
    short : (ds : List (String × String)) → ltb 1 (suc (length ds)) ≡ false → ds ≡ []
    short [] q = refl
    short (d ∷ ds) q = absurd (ground arith)

module _ (c : Candidate) (routes : List Route) where
  -- A route that no sorted one outranks, and those of its rank.
  first_IsTop :
      (first : Route) (sorted : List Route)
      → All (λ r. Among r routes × (is_eligible c r ≡ true)) sorted
      → All (λ s. is_eligible c s ≡ true → outranks s first ≡ false) routes
      → All
          (λ s. IsTop c routes s × (same_rank s first ≡ true))
          (select (λ r. same_rank r first) sorted)
  first_IsTop first [] a t = tt
  first_IsTop first (s ∷ sorted) a t = elim (Bool-cases (same_rank s first)) [
    | inl e ↦ rw e (
      (
        record {
          among = a.0.0;
          eligible = a.0.1;
          top = All-imp _ _ routes (λ u k q. outranks_rank u s first (k q) e) t;
        },
        e,
      ),
      first_IsTop first sorted a.1 t,
    )
    | inr e ↦ rw e (first_IsTop first sorted a.1 t)
  ]

  -- The decision on the sorted list of the eligible routes.
  decide_route-IsDecided :
      (sorted : List Route)
      → All (λ r. Among r routes × (is_eligible c r ≡ true)) sorted
      → IsFirst (λ r s. outranks s r ≡ false) sorted
      → ((P : Route → Type 0) → All P sorted → All (λ s. is_eligible c s ≡ true → P s) routes)
      → IsDecided c routes (decide_route c sorted)
  unfolding decide_route
  decide_route-IsDecided [] a h back =
      inl (refl, All-imp _ _ routes (λ s k. ground (arith, k)) (back (λ s. ⊥) tt))
  decide_route-IsDecided (first ∷ others) a h back =
      let top =
        back (λ s. outranks s first ≡ false)
          (not_above_lem first first (same_rank_refl first), h) in
      let ranked = first_IsTop first (first ∷ others) a top in
      let tops = select (λ r. same_rank r first) (first ∷ others) in
      let me : IsTop c routes first = record { among = a.0.0; eligible = a.0.1; top = top } in
      elim (Bool-cases (ltb 1 (length (destinations tops)))) [
        | inl e ↦
            let (r, s, p, q, differ) = destinations_two _ tops e ranked in
            rw (decide_route, e)
              (inr (refl, (r, s, p.0, q.0, same_rank_trans r s first p.1 q.1, differ)))
        | inr e ↦
            let kept : tops ≡ first ∷ select (λ r. same_rank r first) others =
              rw (same_rank_refl first) refl in
            let one : All (λ s. destination_of s ≡ destination_of first) tops =
              subst (All (λ s. destination_of s ≡ destination_of first)) (sym kept)
                (one_lem first _ (subst (λ l. ltb 1 (length (destinations l)) ≡ false) kept e)) in
            rw (decide_route, e)
              (
                me,
                back (λ s. same_rank s first ≡ true → destination_of s ≡ destination_of first)
                    (All-select _ (λ r. same_rank r first) (first ∷ others) one),
                refl,
              )
      ]

  -- A route is selected exactly as the rule says: an eligible one that no eligible one outranks, and
  -- with whose destination the eligible ones of its rank agree. With no eligible route the decision is
  -- that the route is missing, and that it is contested where two of the highest rank disagree.
  pub select_route-IsDecided : IsDecided c routes (select_route c routes)
  unfolding select_route
  select_route-IsDecided =
      let eligible = select (is_eligible c) routes in
      let sorted = sort_by route_before eligible in
      decide_route-IsDecided sorted
        (sort_by-All _ route_before eligible (eligible_lem routes (Among-All routes)))
        (sorted_lem eligible)
        (λ P h. All-select P (is_eligible c) routes (All-sort_by P route_before eligible h))
    where
      eligible_lem :
          (rs : List Route)
          → All (λ r. Among r routes) rs
          → All (λ r. Among r routes × (is_eligible c r ≡ true)) (select (is_eligible c) rs)
      eligible_lem [] h = tt
      eligible_lem (r ∷ rs) h = elim (Bool-cases (is_eligible c r)) [
        | inl e ↦ rw e ((h.0, e), eligible_lem rs h.1)
        | inr e ↦ rw e (eligible_lem rs h.1)
      ]
