-- ===== src/Base/Rows.antt =====
-- Statements on the rows of a table: `update … where`, and what the rows of a query have.
use amz_command_center.Base.Tests.{Bool-cases, Option-cases, if◌then◌else◌}
use amz_command_center.Base.Lists.{All}
use amz_command_center.Base.Best.{best, better_of, exists, first_of, select}
use mathlib.Core.Path.{◌≡◌, refl}
use mathlib.Core.Logic.{inl, inr}
use mathlib.Core.Bool.{Bool, true, false}
use mathlib.Core.Option.{none, some}
use mathlib.Core.List.{List, [], ◌∷◌}
use native.Mathlib.Omega.{arith}

module _ {ℓ} {A : Type ℓ} where
  -- `update … where p`: the rows of the condition are changed.
  unfoldable pub update_where : (A → Bool) → (A → A) → List A → List A
  update_where p f [] = []
  update_where p f (x ∷ xs) = let rest = update_where p f xs in if p x then f x ∷ rest else x ∷ rest

  pub All-imp {κ μ} :
      (P : A → Type κ) (Q : A → Type μ) (xs : List A) → ((x : A) → P x → Q x) → All P xs → All Q xs
  All-imp P Q [] k h = tt
  All-imp P Q (x ∷ xs) k h = (k x h.0, All-imp P Q xs k h.1)

  pub update-All {κ} :
      (P : A → Type κ) (p : A → Bool) (f : A → A) (xs : List A)
      → ((x : A) → p x ≡ true → P x → P (f x))
      → All P xs
      → All P (update_where p f xs)
  unfolding update_where
  update-All P p f [] k h = tt
  update-All P p f (x ∷ xs) k h = elim (Bool-cases (p x)) [
    | inl e ↦ rw (update_where, e) (k x e h.0, update-All P p f xs k h.1)
    | inr e ↦ rw (update_where, e) (h.0, update-All P p f xs k h.1)
  ]

  -- After an update whose rows no longer meet a condition `q`, no row does.
  pub select-update :
      (p q : A → Bool) (f : A → A) (xs : List A)
      → ((x : A) → p x ≡ true → q (f x) ≡ false)
      → ((x : A) → p x ≡ false → q x ≡ false)
      → select q (update_where p f xs) ≡ []
  unfolding update_where
  select-update p q f [] k l = refl
  select-update p q f (x ∷ xs) k l = elim (Bool-cases (p x)) [
    | inl e ↦ rw (update_where, e, k x e, select-update p q f xs k l) refl
    | inr e ↦ rw (update_where, e, l x e, select-update p q f xs k l) refl
  ]

  -- What `fetchone` returns meets the condition of its query.
  pub first-holds :
      (p : A → Bool) (xs : List A) (x : A) → first_of (select p xs) ≡ some x → p x ≡ true
  first-holds p [] x e = cc
  first-holds p (y ∷ ys) x e = elim (Bool-cases (p y)) [
    | inl h ↦ ground arith
    | inr h ↦ first-holds p ys x (ground arith)
  ]

  -- A query that has a row returns one.
  pub first-exists :
      (p : A → Bool) (xs : List A)
      → exists p xs ≡ true
      → (x : A) × (first_of (select p xs) ≡ some x)
  first-exists p [] e = cc
  first-exists p (y ∷ ys) e = elim (Bool-cases (p y)) [
    | inl h ↦ (y, rw h refl)
    | inr h ↦ let (x, q) = first-exists p ys (ground arith) in (x, rw h q)
  ]

  -- A row of one query is found by a query that asks for it.
  pub select-finds :
      (p : A → Bool) (r : A → A → Bool) (xs : List A)
      → ((x : A) → p x ≡ true → r x x ≡ true)
      → All (λ x. exists (r x) xs ≡ true) (select p xs)
  select-finds p r [] k = tt
  select-finds p r (y ∷ ys) k =
      let wider : All (λ x. exists (r x) (y ∷ ys) ≡ true) (select p ys) =
        All-imp _ _ (select p ys) (λ x e. ground arith) (select-finds p r ys k) in
      elim (Bool-cases (p y)) [ inl h ↦ rw h (rw (k y h) refl, wider) | inr h ↦ rw h wider ]

  pub best-exists :
      (p : A → Bool) (before : A → A → Bool) (xs : List A)
      → exists p xs ≡ true
      → (x : A) × (best before (select p xs) ≡ some x)
  unfolding best
  best-exists p before [] e = cc
  best-exists p before (y ∷ ys) e = elim (Bool-cases (p y)) [
    | inl h ↦ (better_of before y (best before (select p ys)), rw h refl)
    | inr h ↦ let (x, q) = best-exists p before ys (ground arith) in (x, rw h q)
  ]

  -- The row that a query with an order and a limit of 1 returns: no other row goes before it.
  pub best-least :
      (before : A → A → Bool) (xs : List A) (b : A)
      → ((x y : A) → before x y ≡ true → before y x ≡ false)
      → ((x y z : A) → before y x ≡ false → before z y ≡ false → before z x ≡ false)
      → best before xs ≡ some b
      → All (λ x. before x b ≡ false) xs
  unfolding best
  best-least before [] b asym trans e = tt
  best-least before (x ∷ xs) b asym trans e = elim (Option-cases (best before xs)) [
    | inl u ↦ (first_lem b e u, none_lem xs u b)
    | inr (y, u) ↦ elim (Bool-cases (before y x)) [
      | inl s ↦ later b (ground arith) (asym y x s) (best-least before xs y asym trans u)
      | inr s ↦
          later b (ground arith) (asym-refl x)
            (All-imp _ _ xs (λ z e. trans x y z s e) (best-least before xs y asym trans u))
    ]
  ]
    where
      asym-refl : (z : A) → before z z ≡ false
      asym-refl z = ground (arith, asym z z)

      first_lem :
          (b : A) → best before (x ∷ xs) ≡ some b → best before xs ≡ none → before x b ≡ false
      first_lem b e u = ground (arith, asym-refl x)

      none_lem : (ys : List A) → best before ys ≡ none → (b : A) → All (λ z. before z b ≡ false) ys
      none_lem [] u b = tt
      none_lem (y ∷ ys) u b = cc

      later :
          {c : A} (b : A)
          → c ≡ b
          → before x c ≡ false
          → All (λ z. before z c ≡ false) xs
          → All (λ z. before z b ≡ false) (x ∷ xs)
      later {c} b q s h = (ground arith, All-imp _ _ xs (λ z e. ground arith) h)
