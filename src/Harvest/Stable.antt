-- ===== src/Harvest/Stable.antt =====
-- The decision does not depend on the order in which the query gives the routes.
use amz_command_center.Base.{
  All, List, Option, String, [], arith, false, inl, inr, none, refl, some, sym, true, ◌∙◌, ◌∷◌, ◌≡◌,
  Among, All-Among,
}
use amz_command_center.Guardrails.{Guard}
use amz_command_center.Harvest.Routes.{
  Candidate, Route, RouteDecision, destination_of, is_eligible, outranks, same_rank, select_route,
}
use amz_command_center.Harvest.Winner.{
  Agrees, Called, IsContested, IsDecided, IsTop, select_route-IsDecided,
}

-- Where a decision sends a term, and what blocks it.
abbrev pub sent : RouteDecision → Option (String × String) × Option Guard
sent d = (elim d.route [ none ↦ none | some r ↦ some (destination_of r) ], d.blocked_by)

All-of_Among : (P : Route → Type 0) (xs : List Route) → ((r : Route) → Among r xs → P r) → All P xs
All-of_Among P [] k = tt
All-of_Among P (x ∷ xs) k = (k x (inl refl), All-of_Among P xs (λ r m. k r (inr m)))

equal_rank : (r s : Route) → outranks r s ≡ false → outranks s r ≡ false → same_rank r s ≡ true
equal_rank r s e f = ground arith

module _ (c : Candidate) (routes : List Route) where
  top_unique :
      (r s : Route)
      → IsTop c routes r
      → IsTop c routes s
      → Agrees c routes s
      → destination_of r ≡ destination_of s
  top_unique r s t u agrees =
      let above = All-Among _ s routes t.top u.among u.eligible in
      let below = All-Among _ r routes u.top t.among t.eligible in
      All-Among _ r routes agrees t.among t.eligible (equal_rank r s below above)

  missing_lem : (r : Route) → IsTop c routes r → All (λ s. is_eligible c s ≡ false) routes → ⊥
  missing_lem r t none_eligible =
      let e = t.eligible in let f = All-Among _ r routes none_eligible t.among in cc

  contested_lem : (r : Route) → IsTop c routes r → Agrees c routes r → IsContested c routes → ⊥
  contested_lem r t agrees (a, b, p, q, same, differ) =
      differ (top_unique b r q t agrees ∙ sym (top_unique a r p t agrees))

  IsDecided-unique :
      (d e : RouteDecision) → IsDecided c routes d → IsDecided c routes e → sent d ≡ sent e
  IsDecided-unique d e h k = by_route d.route e.route d.blocked_by e.blocked_by h k
    where
      by_route :
          (o p : Option Route) (b g : Option Guard)
          → Called c routes o b
          → Called c routes p g
          → ◌≡◌ {A = Option (String × String) × Option Guard}
              (elim o [ none ↦ none | some r ↦ some (destination_of r) ], b)
              (elim p [ none ↦ none | some r ↦ some (destination_of r) ], g)
      by_route (some r) (some s) b g h k = cc (top_unique r s h.0 k.0 k.1)
      by_route (some r) none b g h (inl k) = absurd (missing_lem r h.0 k.1)
      by_route (some r) none b g h (inr k) = absurd (contested_lem r h.0 h.1 k.1)
      by_route none (some s) b g (inl h) k = absurd (missing_lem s k.0 h.1)
      by_route none (some s) b g (inr h) k = absurd (contested_lem s k.0 k.1 h.1)
      by_route none none b g (inl h) (inl k) = cc
      by_route none none b g (inl h) (inr (k, w)) = absurd (missing_lem w.0 w.2 h.1)
      by_route none none b g (inr (h, w)) (inl k) = absurd (missing_lem w.0 w.2 k.1)
      by_route none none b g (inr h) (inr k) = cc

IsTop-moves :
    (c : Candidate) (xs ys : List Route) (r : Route)
    → ((s : Route) → Among s xs → Among s ys)
    → ((s : Route) → Among s ys → Among s xs)
    → IsTop c xs r
    → IsTop c ys r
IsTop-moves c xs ys r to from t = record {
  among = to r t.among;
  eligible = t.eligible;
  top = All-of_Among _ ys (λ s m. All-Among _ s xs t.top (from s m));
}

IsDecided-moves :
    (c : Candidate) (xs ys : List Route) (d : RouteDecision)
    → ((s : Route) → Among s xs → Among s ys)
    → ((s : Route) → Among s ys → Among s xs)
    → IsDecided c xs d
    → IsDecided c ys d
IsDecided-moves c xs ys d to from h = by_route d.route d.blocked_by h
  where
    by_route : (o : Option Route) (b : Option Guard) → Called c xs o b → Called c ys o b
    by_route (some r) b (t, agrees, e) = (
      IsTop-moves c xs ys r to from t,
      All-of_Among _ ys (λ s m. All-Among _ s xs agrees (from s m)),
      e,
    )
    by_route none b (inl (e, k)) = inl (e, All-of_Among _ ys (λ s m. All-Among _ s xs k (from s m)))
    by_route none b (inr (e, (r, s, p, q, same, differ))) =
        inr (
          e,
          (r, s, IsTop-moves c xs ys r to from p, IsTop-moves c xs ys s to from q, same, differ),
        )

-- Two queries with the same routes, in whatever order and number, send a term to the same place, or
-- block it for the same cause.
pub select_route_order :
    (c : Candidate) (xs ys : List Route)
    → ((r : Route) → Among r xs → Among r ys)
    → ((r : Route) → Among r ys → Among r xs)
    → sent (select_route c xs) ≡ sent (select_route c ys)
select_route_order c xs ys to from =
    IsDecided-unique c ys (select_route c xs) (select_route c ys)
      (IsDecided-moves c xs ys (select_route c xs) to from (select_route-IsDecided c xs))
      (select_route-IsDecided c ys)
