-- ===== src/Harvest/Destinations.antt =====
-- The set of the destinations of some routes: what one and what two of them say.
use mathlib.Core.Path.{subst}
use amz_command_center.Base.{
  All, Bool-cases, List, String, [], ap, arith, exists, false, inl, inr, length, ltb, refl,
  str_eq_iff, sym, true, ◌↔◌, ◌∙◌, ◌∷◌, ◌≡◌, ◌≢◌, ◌⊎◌,
}
use amz_command_center.Harvest.Routes.{Route, destination_of, destinations, same_destination}

pub same_destination_iff : (d e : String × String) → (same_destination d e ≡ true) ↔ (d ≡ e)
unfolding same_destination
same_destination_iff (a, b) (x, y) = (
  λ h. ground (arith, str_eq_iff a x, str_eq_iff b y),
  λ h. ground (arith, str_eq_iff a x, str_eq_iff b y, ap (λ p. p.0) h, ap (λ p. p.1) h),
)

known_lem :
    (r : Route) (routes : List Route)
    → exists (same_destination (destination_of r)) (destinations routes) ≡ true
    → destinations (r ∷ routes) ≡ destinations routes
unfolding destinations
known_lem r routes e = rw (destinations, e) refl

new_lem :
    (r : Route) (routes : List Route)
    → exists (same_destination (destination_of r)) (destinations routes) ≡ false
    → destinations (r ∷ routes) ≡ destination_of r ∷ destinations routes
unfolding destinations
new_lem r routes e = rw (destinations, e) refl

-- The first destination is that of a route.
from_lem :
    (P : Route → Type 0) (routes : List Route) (d : String × String) (ds : List (String × String))
    → destinations routes ≡ d ∷ ds
    → All P routes
    → (s : Route) × P s × (destination_of s ≡ d)
unfolding destinations
from_lem P [] d ds e h = absurd (cc)
from_lem P (r ∷ routes) d ds e h =
    elim (Bool-cases (exists (same_destination (destination_of r)) (destinations routes))) [
      | inl f ↦ from_lem P routes d ds (sym (known_lem r routes f) ∙ e) h.1
      | inr f ↦
          let new : destination_of r ∷ destinations routes ≡ d ∷ ds =
            sym (new_lem r routes f) ∙ e in
          (r, h.0, cc)
    ]

pub List-cases :
    (ds : List (String × String))
    → (ds ≡ []) ⊎ ((d : String × String) × (rest : List (String × String)) × (ds ≡ d ∷ rest))
List-cases [] = inl refl
List-cases (d ∷ ds) = inr (d, ds, refl)

pub destinations_none : (r : Route) (routes : List Route) → destinations (r ∷ routes) ≢ []
unfolding destinations
destinations_none r [] e = cc
destinations_none r (s ∷ routes) e =
    elim (Bool-cases (exists (same_destination (destination_of r)) (destinations (s ∷ routes)))) [
      | inl f ↦ destinations_none s routes (sym (known_lem r (s ∷ routes) f) ∙ e)
      | inr f ↦
          let new : destination_of r ∷ destinations (s ∷ routes) ≡ [] =
            sym (new_lem r (s ∷ routes) f) ∙ e in
          cc
    ]

-- Where there is one destination, each route has it.
pub destinations_one :
    (routes : List Route) (d : String × String)
    → destinations routes ≡ d ∷ []
    → All (λ r. destination_of r ≡ d) routes
destinations_one [] d e = tt
destinations_one (r ∷ routes) d e =
    elim (Bool-cases (exists (same_destination (destination_of r)) (destinations routes))) [
      | inl f ↦
          let one : destinations routes ≡ d ∷ [] = sym (known_lem r routes f) ∙ e in
          let found : exists (same_destination (destination_of r)) (d ∷ []) ≡ true =
            subst (λ ds. exists (same_destination (destination_of r)) ds ≡ true) one f in
          (
            (same_destination_iff (destination_of r) d).0 (ground arith),
            destinations_one routes d one,
          )
      | inr f ↦
          let new : destination_of r ∷ destinations routes ≡ d ∷ [] =
            sym (new_lem r routes f) ∙ e in
          (cc, alone routes cc)
    ]
  where
    alone : (rs : List Route) → destinations rs ≡ [] → All (λ r. destination_of r ≡ d) rs
    alone [] q = tt
    alone (s ∷ rs) q = absurd (destinations_none s rs q)

-- Where there are more, two routes differ.
pub destinations_two :
    (P : Route → Type 0) (routes : List Route)
    → ltb 1 (length (destinations routes)) ≡ true
    → All P routes
    → (r : Route) × (s : Route) × P r × P s × (destination_of s ≢ destination_of r)
unfolding destinations
destinations_two P [] e h = absurd (ground arith)
destinations_two P (r ∷ routes) e h =
    elim (Bool-cases (exists (same_destination (destination_of r)) (destinations routes))) [
      | inl f ↦ destinations_two P routes (rw (← known_lem r routes f) e) h.1
      | inr f ↦
          let more : ltb 1 (length (destination_of r ∷ destinations routes)) ≡ true =
            subst (λ ds. ltb 1 (length ds) ≡ true) (new_lem r routes f) e in
          elim (List-cases (destinations routes)) [
            | inl q ↦ absurd (ground arith)
            | inr (d, ds, q) ↦
                let (s, p, at) = from_lem P routes d ds q h.1 in
                let other : exists (same_destination (destination_of r)) (d ∷ ds) ≡ false =
                  subst (λ l. exists (same_destination (destination_of r)) l ≡ false) q f in
                (
                  r,
                  s,
                  h.0,
                  p,
                  λ z.
                      let same : same_destination (destination_of r) d ≡ true =
                        (same_destination_iff (destination_of r) d).1 (sym z ∙ at) in
                      absurd (ground arith),
                )
          ]
    ]
