-- ===== src/Base/Sorted.antt =====
-- What comes first in a sorted list, and what its rows are.
use amz_command_center.Base.Tests.{Bool-cases}
use amz_command_center.Base.Lists.{All}
use amz_command_center.Base.Best.{insert_by, insert_by-All, select, sort_by}
use amz_command_center.Base.Rows.{All-imp}
use mathlib.Core.Path.{◌≡◌, refl, subst}
use mathlib.Core.Logic.{◌⊎◌, inl, inr}
use mathlib.Core.Bool.{Bool, true, false}
use mathlib.Core.List.{List, [], ◌∷◌}

module _ {A : Type 0} where
  -- A row is in the list.
  abbrev pub Among : A → List A → Type 0
  Among x [] = ⊥
  Among x (y ∷ ys) = (y ≡ x) ⊎ Among x ys

  pub All-Among {κ} : (P : A → Type κ) (x : A) (xs : List A) → All P xs → Among x xs → P x
  All-Among P x [] h m = elim m [ ]
  All-Among P x (y ∷ ys) h (inl e) = subst P e h.0
  All-Among P x (y ∷ ys) h (inr m) = All-Among P x ys h.1 m

  pub Among-All : (xs : List A) → All (λ x. Among x xs) xs
  Among-All [] = tt
  Among-All (x ∷ xs) = (inl refl, All-imp _ _ xs (λ y m. inr m) (Among-All xs))

module _ {ℓ} {A : Type ℓ} where
  -- What holds of the selected rows holds of each row that the condition selects.
  pub All-select {κ} :
      (P : A → Type κ) (p : A → Bool) (xs : List A)
      → All P (select p xs)
      → All (λ x. p x ≡ true → P x) xs
  All-select P p [] h = tt
  All-select P p (x ∷ xs) h = elim (Bool-cases (p x)) [
    | inl e ↦ let h' : All P (x ∷ select p xs) = rw e at h in (λ q. h'.0, All-select P p xs h'.1)
    | inr e ↦ let h' : All P (select p xs) = rw e at h in (λ q. absurd (cc), All-select P p xs h')
  ]

  All-insert_by {κ} :
      (P : A → Type κ) (before : A → A → Bool) (x : A) (xs : List A)
      → All P (insert_by before x xs)
      → P x × All P xs
  unfolding insert_by
  All-insert_by P before x [] h = (h.0, tt)
  All-insert_by P before x (y ∷ ys) h = elim (Bool-cases (before y x)) [
    | inl e ↦
        let h' : All P (y ∷ insert_by before x ys) = rw (insert_by, e) at h in
        let (p, rest) = All-insert_by P before x ys h'.1 in (p, (h'.0, rest))
    | inr e ↦ let h' : All P (x ∷ y ∷ ys) = rw (insert_by, e) at h in h'
  ]

  pub All-sort_by {κ} :
      (P : A → Type κ) (before : A → A → Bool) (xs : List A) → All P (sort_by before xs) → All P xs
  unfolding sort_by
  All-sort_by P before [] h = tt
  All-sort_by P before (x ∷ xs) h =
      let (p, rest) = All-insert_by P before x (sort_by before xs) h in
      (p, All-sort_by P before xs rest)

-- The head of the list is at most each other row.
abbrev pub IsFirst {ℓ κ} : {A : Type ℓ} → (A → A → Type κ) → List A → Type κ
IsFirst Le [] = Unit
IsFirst Le (x ∷ xs) = All (Le x) xs

module _ {ℓ κ} {A : Type ℓ} (before : A → A → Bool) (Le : A → A → Type κ)
    (trans : (x y z : A) → Le x y → Le y z → Le x z)
    (sound : (x y : A) → before x y ≡ true → Le x y)
    (complete : (x y : A) → before x y ≡ false → Le y x) where
  insert_by-IsFirst : (x : A) (xs : List A) → IsFirst Le xs → IsFirst Le (insert_by before x xs)
  unfolding insert_by
  insert_by-IsFirst x [] h = tt
  insert_by-IsFirst x (y ∷ ys) h = elim (Bool-cases (before y x)) [
    | inl e ↦ rw (insert_by, e) (insert_by-All (Le y) before x ys (sound y x e) h)
    | inr e ↦
        rw (insert_by, e) (complete y x e, All-imp _ _ ys (λ z q. trans x y z (complete y x e) q) h)
  ]

  pub sort_by-IsFirst : (xs : List A) → IsFirst Le (sort_by before xs)
  unfolding sort_by
  sort_by-IsFirst [] = tt
  sort_by-IsFirst (x ∷ xs) = insert_by-IsFirst x (sort_by before xs) (sort_by-IsFirst xs)
