-- ===== src/Config/Caps.antt =====
-- A hard cap holds of the effective values, and a hard guard is not overridden.
use mathlib.Core.Path.{subst}
use text.Mathlib.TextPositions.{eq_refl}
use amz_command_center.Base.{
  >>=-eq-ok, Bool, Bool-cases, List, Option, Option-cases, Result, String, [], ap, arith, false,
  inl, inr, none, ok, raise_if, raised, refl, some, str_eq, str_eq_iff, sym, true, ℕ, ◌>>◌, ◌∙◌,
  ◌≡◌,
}
use amz_command_center.Base.Int.{pos}
use amz_command_center.Json.{Json, Members, empty, entry, find, integer, put, real}
use amz_command_center.Config.Tables.{
  ConfigError, ConfigWorld, DefinitionVersion, Draft, EffectiveConfiguration, OverrideVersion,
  hard_caps, scope_precedence, not_comparable, min_above_max,
}
use amz_command_center.Config.Defs.{
  apply_cap, apply_caps, apply_overrides, compared, definitions_at, resolve_effective_configuration,
  system_draft, validate_scopes, value_or,
}

find-put_same :
    {W : Type 0} (key : String) (v : Json W) (d : Members W) → find key (put key v d) ≡ some v
unfolding find put
find-put_same key v empty = rw (eq_refl key) refl
find-put_same key v (entry k x rest) = elim (Bool-cases (str_eq k key)) [
  | inl e ↦ rw (put, e, find, e) refl
  | inr e ↦ rw (put, e, find, e) (find-put_same key v rest)
]

pub find-put_other :
    {W : Type 0} (key other : String) (v : Json W) (d : Members W)
    → str_eq key other ≡ false
    → find other (put key v d) ≡ find other d
unfolding find put
find-put_other key other v empty h = rw h refl
find-put_other key other v (entry k x rest) h = elim (Bool-cases (str_eq k key)) [
  | inl e ↦
      let same : k ≡ key = (str_eq_iff k key).0 e in
      let not_other : str_eq k other ≡ false = ap (λ s. str_eq s other) same ∙ h in
      rw (put, e, find, not_other) refl
  | inr e ↦ elim (Bool-cases (str_eq k other)) [
    | inl f ↦ rw (put, e, find, f) refl
    | inr f ↦ rw (put, e, find, f) (find-put_other key other v rest h)
  ]
]

-- A comparison that returned, and did not hold.
not_above :
    (o : Option Bool) (above : Bool)
    → elim o as (λ x. Result ConfigError Bool) [ none ↦ raised not_comparable | some b ↦ ok b ]
      ≡ ok above
    → above ≡ false
    → o ≡ some false
not_above none above e f = cc
not_above (some b) above e f = ground arith

-- The last test of a resolution.
pub passed_test :
    {W : Type 0} (above : Bool) (end : EffectiveConfiguration W) {c : EffectiveConfiguration W}
    → (raise_if above min_above_max >> ok end) ≡ ok c
    → (above ≡ false) × (end ≡ c)
passed_test true end e = cc
passed_test false end e = (refl, ground arith)

module _ {W : Type 0} (w : ConfigWorld W) where
  -- Where both values are there, the local one is not above its cap.
  abbrev pub IsCapped : String → String → Members W → Type 0
  IsCapped local cap values =
      (x y : Json W)
      → find local values ≡ some x
      → find cap values ≡ some y
      → ¬ (w.greater x y ≡ some true)

  -- No value is greater than itself.
  abbrev pub IsIrreflexive : Type 0
  IsIrreflexive = (v : Json W) → ¬ (w.greater v v ≡ some true)

  -- A cap changes the local value alone.
  pub apply_cap-other :
      (local cap key : String) (draft : Draft W) {after : Draft W}
      → str_eq local key ≡ false
      → apply_cap w local cap draft ≡ ok after
      → find key after.values ≡ find key draft.values
  unfolding apply_cap
  apply_cap-other local cap key draft {after} h e = elim (Option-cases (find local draft.values)) [
    | inl p ↦ ground arith
    | inr (x, p) ↦ elim (Option-cases (find cap draft.values)) [
      | inl q ↦ ground arith
      | inr (y, q) ↦ elim (Option-cases (w.greater x y)) [
        | inl r ↦ ground arith
        | inr (b, r) ↦ elim (Bool-cases b) [
          | inl c ↦ ground (arith, find-put_other local key y draft.values h)
          | inr c ↦ ground arith
        ]
      ]
    ]
  ]

  apply_cap-IsCapped :
      (local cap : String) (draft : Draft W) {after : Draft W}
      → IsIrreflexive
      → str_eq local cap ≡ false
      → apply_cap w local cap draft ≡ ok after
      → IsCapped local cap after.values
  unfolding apply_cap
  apply_cap-IsCapped local cap draft {after} irr h e x' y' f g k =
      elim (Option-cases (find local draft.values)) [
        | inl p ↦ ground arith
        | inr (x, p) ↦ elim (Option-cases (find cap draft.values)) [
          | inl q ↦ ground arith
          | inr (y, q) ↦ elim (Option-cases (w.greater x y)) [
            | inl r ↦ ground arith
            | inr (b, r) ↦ elim (Bool-cases b) [
              | inl c ↦
                  let same = find-put_same local y draft.values in
                  let there = find-put_other local cap y draft.values h in
                  let here : x' ≡ y = ground arith in
                  let cap_here : y' ≡ y = ground arith in
                  irr y (ap (λ v. w.greater v y) (sym here) ∙ ap (w.greater x') (sym cap_here) ∙ k)
              | inr c ↦ ground arith
            ]
          ]
        ]
      ]

  -- A further cap leaves the pair as it is.
  apply_cap-keeps :
      (local cap other upper : String) (draft : Draft W) {after : Draft W}
      → apply_cap w other upper draft ≡ ok after
      → str_eq other local ≡ false
      → str_eq other cap ≡ false
      → IsCapped local cap draft.values
      → IsCapped local cap after.values
  apply_cap-keeps local cap other upper draft e a b h x y f g =
      h x y (sym (apply_cap-other other upper local draft a e) ∙ f)
        (sym (apply_cap-other other upper cap draft b e) ∙ g)

  apply_caps-IsCapped :
      (draft : Draft W) {after : Draft W}
      → IsIrreflexive
      → apply_caps w hard_caps draft ≡ ok after
      → IsCapped "max_bid" "absolute_max_bid" after.values
        × IsCapped "max_daily_budget" "absolute_max_daily_budget" after.values
        × IsCapped "max_changes_per_day" "absolute_max_changes_per_day" after.values
  unfolding apply_caps
  apply_caps-IsCapped draft {after} irr e =
      let (d1, p1, e1) = >>=-eq-ok (apply_cap w "max_bid" "absolute_max_bid" draft) _ e in
      let (d2, p2, e2) =
        >>=-eq-ok (apply_cap w "max_daily_budget" "absolute_max_daily_budget" d1) _ e1 in
      let (d3, p3, e3) =
        >>=-eq-ok (apply_cap w "max_changes_per_day" "absolute_max_changes_per_day" d2) _ e2 in
      let end : d3 ≡ after = ground arith in
      let bid = apply_cap-IsCapped "max_bid" "absolute_max_bid" draft irr refl p1 in
      let bid' =
        apply_cap-keeps "max_bid" "absolute_max_bid" "max_daily_budget" "absolute_max_daily_budget"
          d1 p2 refl refl bid in
      let bid'' =
        apply_cap-keeps "max_bid" "absolute_max_bid" "max_changes_per_day"
          "absolute_max_changes_per_day" d2 p3 refl refl bid' in
      let budget =
        apply_cap-IsCapped "max_daily_budget" "absolute_max_daily_budget" d1 irr refl p2 in
      let budget' =
        apply_cap-keeps "max_daily_budget" "absolute_max_daily_budget" "max_changes_per_day"
          "absolute_max_changes_per_day" d2 p3 refl refl budget in
      let changes =
        apply_cap-IsCapped "max_changes_per_day" "absolute_max_changes_per_day" d2 irr refl p3 in
      subst
        (λ (d : Draft W).
          IsCapped "max_bid" "absolute_max_bid" d.values
          × IsCapped "max_daily_budget" "absolute_max_daily_budget" d.values
          × IsCapped "max_changes_per_day" "absolute_max_changes_per_day" d.values)
        end (bid'', budget', changes)

  -- In every effective configuration that is returned, no bid limit, daily budget limit or number of
  -- changes a day is above its absolute cap where both are there, and the least bid is not above the
  -- greatest, as long as no value is greater than itself.
  pub resolve-IsCapped :
      (definitions : List (DefinitionVersion W)) (overrides : List (OverrideVersion W))
      (tenant : String) (scopes : List (String × String)) (at : ℕ) {c : EffectiveConfiguration W}
      → IsIrreflexive
      → resolve_effective_configuration w definitions overrides tenant scopes at ≡ ok c
      → IsCapped "max_bid" "absolute_max_bid" c.values
        × IsCapped "max_daily_budget" "absolute_max_daily_budget" c.values
        × IsCapped "max_changes_per_day" "absolute_max_changes_per_day" c.values
        × (w.greater
              (value_or (integer (pos 0)) (find "min_bid" c.values))
              (value_or (real w.infinity) (find "max_bid" c.values))
            ≡ some false)
  unfolding resolve_effective_configuration apply_caps
  resolve-IsCapped definitions overrides tenant scopes at {c} irr e =
      let start =
        system_draft w (definitions_at w at definitions)
          (record { values = empty; sources = []; hard_guards = [] }) in
      let (normalized, _, e0) = >>=-eq-ok (validate_scopes w tenant scopes) _ e in
      let (merged, _, e1) =
        >>=-eq-ok (apply_overrides w tenant normalized overrides scope_precedence start) _ e0 in
      let (draft, capped, e2) = >>=-eq-ok (apply_caps w hard_caps merged) _ e1 in
      let (above, compares, e3) =
        >>=-eq-ok
          (compared w (value_or (integer (pos 0)) (find "min_bid" draft.values))
            (value_or (real w.infinity) (find "max_bid" draft.values)))
          _ e2 in
      let (bid, budget, changes) = apply_caps-IsCapped merged irr capped in
      let (not_over, ends) =
        passed_test above
          (record { values = draft.values; sources = draft.sources; resolved_at = at }) e3 in
      let same : draft.values ≡ c.values = ap (λ (x : EffectiveConfiguration W). x.values) ends in
      (
        subst (IsCapped "max_bid" "absolute_max_bid") same bid,
        subst (IsCapped "max_daily_budget" "absolute_max_daily_budget") same budget,
        subst (IsCapped "max_changes_per_day" "absolute_max_changes_per_day") same changes,
        subst
            (λ v.
              w.greater (value_or (integer (pos 0)) (find "min_bid" v))
                (value_or (real w.infinity) (find "max_bid" v))
              ≡ some false)
            same (not_above (w.greater _ _) above compares not_over),
      )
