-- ===== src/Protections/Blocking.antt =====
-- When a protection holds back an automated action.
use mathlib.Core.Path.{subst}
use amz_command_center.Base.{
  if◌then◌else◌, All, Bool, Bool-cases, List, Option-cases, String, [], arith, best, best-All,
  false, inl, inr, ltb, member, not, select, select-All, some, str_eq, str_eq_iff, true, All-imp, ℕ,
  ◌&&◌, ◌||◌, ◌∷◌, ◌↔◌, ◌≡◌, ◌⊎◌, none,
}
use amz_command_center.HumanControl.{TextCase}
use amz_command_center.Protections.{
  Protection, Protections, active_protection, destructive_actions, find_protection, is_over,
  latest_event, protection_before, protects,
}

-- The scope itself goes before all scopes, and then the newer before the older.
abbrev pub is_ahead : String → Protection → Protection → Bool
is_ahead scope p q =
    if str_eq p.product_scope scope
    then not (str_eq q.product_scope scope) || ltb q.created_at p.created_at
    else not (str_eq q.product_scope scope) && ltb q.created_at p.created_at

module _ (scope : String) where
  ahead_after : (p q : Protection) → protection_before scope p q ≡ true → is_ahead scope q p ≡ false
  ahead_after p q e = ground arith

  ahead_before :
      (p q : Protection) → protection_before scope p q ≡ false → is_ahead scope p q ≡ false
  ahead_before p q e = ground arith

  ahead_trans :
      (p q r : Protection)
      → is_ahead scope q p ≡ false
      → is_ahead scope r q ≡ false
      → is_ahead scope r p ≡ false
  ahead_trans p q r e h = ground arith

  -- No row is ahead of the one that the order picks.
  best-ahead :
      (rows : List Protection) (b : Protection)
      → best (protection_before scope) rows ≡ some b
      → All (λ q. is_ahead scope q b ≡ false) rows
  unfolding best
  best-ahead [] b e = tt
  best-ahead (x ∷ rows) b e = elim (Option-cases (best (protection_before scope) rows)) [
    | inl u ↦ (self b (ground (arith, u)), nothing b rows u)
    | inr (y, u) ↦ elim (Bool-cases (protection_before scope y x)) [
      | inl s ↦ later {y = y} b (ground (arith, u, s)) (ahead_after y x s) (best-ahead rows y u)
      | inr s ↦
          later {y = x} b (ground (arith, u, s)) (ahead_self x) (
            All-imp _ _ rows (λ z h. ahead_trans x y z (ahead_before y x s) h)
              (best-ahead rows y u))
    ]
  ]
    where
      ahead_self : (z : Protection) → is_ahead scope z z ≡ false
      ahead_self z = ground arith

      self : (c : Protection) → x ≡ c → is_ahead scope x c ≡ false
      self c q = rw (← q) (ahead_self x)

      nothing :
          (c : Protection) (ys : List Protection)
          → best (protection_before scope) ys ≡ none
          → All (λ q. is_ahead scope q c ≡ false) ys
      nothing c [] u = tt
      nothing c (y ∷ ys) u = cc

      later :
          {y : Protection} (c : Protection)
          → y ≡ c
          → is_ahead scope x y ≡ false
          → All (λ q. is_ahead scope q y ≡ false) rows
          → All (λ q. is_ahead scope q c ≡ false) (x ∷ rows)
      later {y} c q s h = subst (λ z. All (λ r. is_ahead scope r z ≡ false) (x ∷ rows)) q (s, h)

module _ ⦃t : TextCase⦄ where
  -- The row that decides is one that applies to the entity and is current, and no other such row is
  -- ahead of it.
  pub record IsDeciding (tenant entity_type entity_value scope : String) (now : ℕ)
      (db : Protections) (p : Protection) : Type 0 where
    pub found : find_protection tenant entity_type entity_value scope now db ≡ some p
    pub applies : protects tenant entity_type entity_value scope now p ≡ true
    pub first :
        All
          (λ q. is_ahead scope q p ≡ false)
          (select (protects tenant entity_type entity_value scope now) db.rows)

  -- The row that decides was neither released nor consumed, and forbids destruction.
  abbrev pub Protects : String → String → String → String → ℕ → Protections → Type 0
  Protects tenant entity_type entity_value scope now db =
      (p : Protection) × IsDeciding tenant entity_type entity_value scope now db p
      × (is_over (latest_event tenant p.id db.events) ≡ false)
      × ((p.policy ≡ "allow") ⊎ (p.policy ≡ "protect"))

  deciding_lem :
      (tenant entity_type entity_value scope : String) (now : ℕ) (db : Protections) (p : Protection)
      → find_protection tenant entity_type entity_value scope now db ≡ some p
      → IsDeciding tenant entity_type entity_value scope now db p
  unfolding find_protection
  deciding_lem tenant entity_type entity_value scope now db p e =
      let applicable = protects tenant entity_type entity_value scope now in
      record {
        found = e;
        applies =
            best-All (λ q. applicable q ≡ true) (protection_before scope)
              (select applicable db.rows) p
              (select-All (λ q. applicable q ≡ true) applicable db.rows (λ q h. h)) e;
        first = best-ahead scope (select applicable db.rows) p e;
      }

  -- An action is held back exactly when it is destructive and the one row that decides is neither
  -- released nor consumed and its policy is to allow or to protect the entity. Of the protections
  -- that apply to the entity and are current, the row that decides is one for the scope itself
  -- where there is one, and the newest of those; a row behind it counts for nothing, though it
  -- were still in force.
  pub active_protection-Protects_iff :
      (tenant entity_type entity_value scope action_type : String) (now : ℕ) (db : Protections)
      → ((active_protection tenant entity_type entity_value scope action_type now db).is_blocked
          ≡ true)
        ↔ ((member action_type destructive_actions ≡ true)
            × Protects tenant entity_type entity_value scope now db)
  unfolding active_protection
  active_protection-Protects_iff tenant entity_type entity_value scope action_type now db = (
    λ h. elim (Option-cases (find_protection tenant entity_type entity_value scope now db)) [
      | inl nothing ↦ ground arith
      | inr (p, e) ↦ (
        ground arith,
        (
          p,
          deciding_lem tenant entity_type entity_value scope now db p e,
          ground arith,
          elim (Bool-cases (str_eq p.policy "allow")) [
            | inl y ↦ inl ((str_eq_iff p.policy "allow").0 y)
            | inr y ↦ inr ((str_eq_iff p.policy "protect").0 (ground (arith, y)))
          ],
        ),
      )
    ],
    λ (m, (p, d, l, k)).
        let e = d.found in
        ground (arith, m, e, l, k, str_eq_iff p.policy "allow", str_eq_iff p.policy "protect"),
  )
