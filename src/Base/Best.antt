-- ===== src/Base/Best.antt =====
-- Queries over the rows of a table: `where`, `exists`, and `order by … limit 1`, the row that no
-- other row goes before, the earliest of them on a tie.
use amz_command_center.Base.Tests.{Bool-cases, if◌then◌else◌}
use amz_command_center.Base.Lists.{All}
use mathlib.Core.Path.{◌≡◌, refl}
use mathlib.Core.Logic.{inl, inr}
use mathlib.Core.Bool.{Bool, true, false}
use mathlib.Core.Option.{Option, none, some, some-injective}
use mathlib.Core.List.{List, [], ◌∷◌}

module _ {ℓ} {A : Type ℓ} where
  abbrev pub select : (A → Bool) → List A → List A
  select p [] = []
  select p (x ∷ xs) = let rest = select p xs in if p x then x ∷ rest else rest

  abbrev pub exists : (A → Bool) → List A → Bool
  exists p [] = false
  exists p (x ∷ xs) = let rest = exists p xs in if p x then true else rest

  -- `fetchone` of a query without an order.
  abbrev pub first_of : List A → Option A
  first_of [] = none
  first_of (x ∷ xs) = some x

  abbrev pub better_of : (A → A → Bool) → A → Option A → A
  better_of before x none = x
  better_of before x (some y) = if before y x then y else x

  unfoldable pub best : (A → A → Bool) → List A → Option A
  best before [] = none
  best before (x ∷ xs) = some (better_of before x (best before xs))

  -- A stable sort: a row goes behind those that come before it.
  unfoldable pub insert_by : (A → A → Bool) → A → List A → List A
  insert_by before x [] = x ∷ []
  insert_by before x (y ∷ ys) =
      let rest = insert_by before x ys in if before y x then y ∷ rest else x ∷ y ∷ ys

  unfoldable pub sort_by : (A → A → Bool) → List A → List A
  unfolding insert_by
  sort_by before [] = []
  sort_by before (x ∷ xs) = insert_by before x (sort_by before xs)

  pub select-All {κ} :
      (P : A → Type κ) (p : A → Bool) (xs : List A)
      → ((x : A) → p x ≡ true → P x)
      → All P (select p xs)
  select-All P p [] h = tt
  select-All P p (x ∷ xs) h = elim (Bool-cases (p x)) [
    | inl e ↦ rw e (h x e, select-All P p xs h)
    | inr e ↦ rw e (select-All P p xs h)
  ]

  pub best-All {κ} :
      (P : A → Type κ) (before : A → A → Bool) (xs : List A) (b : A)
      → All P xs
      → best before xs ≡ some b
      → P b
  unfolding best
  best-All P before [] b h e = cc
  best-All P before (x ∷ xs) b h e =
      chosen (best before xs) (λ y q. best-All P before xs y h.1 q) (some-injective _ _ e)
    where
      chosen : (o : Option A) → ((y : A) → o ≡ some y → P y) → better_of before x o ≡ b → P b
      chosen none k q = rw (← q) h.0
      chosen (some y) k q = elim (Bool-cases (before y x)) [
        | inl s ↦ rw (← q, s) (k y refl)
        | inr s ↦ rw (← q, s) h.0
      ]

  -- A row that no other goes before is the one chosen, if it stands first.
  pub best-cons :
      (before : A → A → Bool) (x : A) (xs : List A)
      → All (λ y. before y x ≡ false) xs
      → best before (x ∷ xs) ≡ some x
  unfolding best
  best-cons before x xs h = rest (best before xs) (λ y q. best-All _ before xs y h q)
    where
      rest :
          (o : Option A)
          → ((y : A) → o ≡ some y → before y x ≡ false)
          → some (better_of before x o) ≡ some x
      rest none k = refl
      rest (some y) k = rw (k y refl)

  pub insert_by-All {κ} :
      (P : A → Type κ) (before : A → A → Bool) (x : A) (xs : List A)
      → P x
      → All P xs
      → All P (insert_by before x xs)
  unfolding insert_by
  insert_by-All P before x [] p h = (p, tt)
  insert_by-All P before x (y ∷ ys) p h = elim (Bool-cases (before y x)) [
    | inl e ↦ rw (insert_by, e) (h.0, insert_by-All P before x ys p h.1)
    | inr e ↦ rw (insert_by, e) (p, h)
  ]

  -- A sort keeps what holds of every row.
  pub sort_by-All {κ} :
      (P : A → Type κ) (before : A → A → Bool) (xs : List A) → All P xs → All P (sort_by before xs)
  unfolding sort_by
  sort_by-All P before [] h = tt
  sort_by-All P before (x ∷ xs) h =
      insert_by-All P before x (sort_by before xs) h.0 (sort_by-All P before xs h.1)
