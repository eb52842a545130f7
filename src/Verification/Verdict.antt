-- ===== src/Verification/Verdict.antt =====
-- What the verdict and the status of an evidence say of the windows.
use amz_command_center.Base.{
  Bool, List, Option, String, ap, arith, false, if◌then◌else◌, ltb, member, none, not, refl, some,
  str_eq, true, ◌&&◌, ◌||◌, ◌↔◌, ◌≡◌, ◌≤◌,
}
use amz_command_center.Number.{Number, ticks}
use amz_command_center.StateMachine.{outcomes}
use amz_command_center.Verification.Windows.{MetricWindow, acos, judge, judge_acos, tenths}

-- The texts of a choice, compared with one of them.
abbrev choice : Bool → String → String → String
choice c s t = if c then s else t

neither : (c : Bool) {A : Type 0} → choice c "improved" "inconclusive" ≡ "worsened" → A
neither true h = let e = ap (λ s. str_eq s "worsened") h in cc
neither false h = let e = ap (λ s. str_eq s "worsened") h in cc

middle :
    (c d : Bool)
    → choice (not c) "improved" (choice (not d) "worsened" "neutral") ≡ "worsened"
    → (c ≡ true) × (d ≡ false)
middle true true h = let e = ap (λ s. str_eq s "worsened") h in cc
middle true false h = (refl, refl)
middle false d h = let e = ap (λ s. str_eq s "worsened") h in cc

conclusive :
    (c : Bool) (s : String)
    → (if c then "inconclusive" else s) ≡ "worsened"
    → (c ≡ false) × (s ≡ "worsened")
conclusive true s h = let e = ap (λ t. str_eq t "worsened") h in cc
conclusive false s h = (refl, h)

either-member :
    (c : Bool) (s t : String) (names : List String)
    → member s names ≡ true
    → member t names ≡ true
    → member (if c then s else t) names ≡ true
either-member true s t names p q = p
either-member false s t names p q = q

module _ {W : Type 0} ⦃n : Number W⦄ where
  -- The test that stands in where an ACOS is missing.
  abbrev is_cheaper : MetricWindow W → MetricWindow W → Bool
  is_cheaper before after =
      ltb before.orders after.orders && not (n.lt (n.mul before.cost (tenths 12)) after.cost)

  -- The change is found worse: its ACOS is at least 1.1 times what it was, and above 0.9 times.
  abbrev pub HasWorseAcos : MetricWindow W → MetricWindow W → Type 0
  HasWorseAcos before after =
      (x : W) × (y : W) × (acos before ≡ some x)
      × (acos after ≡ some y)
      × (n.lt (n.mul x (tenths 9)) y ≡ true)
      × (n.lt y (n.mul x (tenths 11)) ≡ false)

  worse-acos :
      (before after : MetricWindow W) (p q : Option W)
      → acos before ≡ p
      → acos after ≡ q
      → judge_acos before after p q ≡ "worsened"
      → HasWorseAcos before after
  worse-acos before after (some x) (some y) e f h =
      let (above, far) = middle (n.lt (n.mul x (tenths 9)) y) (n.lt y (n.mul x (tenths 11))) h in
      (x, y, e, f, above, far)
  worse-acos before after none q e f h = neither _ h
  worse-acos before after (some x) none e f h = neither _ h

  -- A change is judged worsened exactly when both windows have ten clicks and both have sales, and
  -- the ACOS after it is at least 1.1 times the one before and more than 0.9 times.
  pub judge-HasWorseAcos_iff :
      (before after : MetricWindow W)
      → ((judge before after).0 ≡ "worsened")
        ↔ ((10 ≤ before.clicks) × (10 ≤ after.clicks) × HasWorseAcos before after)
  unfolding judge
  judge-HasWorseAcos_iff before after = (forth, back)
    where
      forth :
          (judge before after).0 ≡ "worsened"
          → (10 ≤ before.clicks) × (10 ≤ after.clicks) × HasWorseAcos before after
      forth h =
          let (enough, verdict) = conclusive (ltb before.clicks 10 || ltb after.clicks 10) _ h in
          (ground arith, ground arith, worse-acos before after _ _ refl refl verdict)

      back :
          (10 ≤ before.clicks) × (10 ≤ after.clicks) × HasWorseAcos before after
          → (judge before after).0 ≡ "worsened"
      back (p, q, (x, y, e, f, g, h)) = ground arith

  -- The verdict is one that the state machine accepts.
  pub judge-accepted :
      (before after : MetricWindow W) → member (judge before after).0 outcomes ≡ true
  unfolding judge member
  judge-accepted before after =
      either-member (ltb before.clicks 10 || ltb after.clicks 10) "inconclusive"
        (judge_acos before after (acos before) (acos after)) outcomes refl
        (accepted (acos before) (acos after))
    where
      accepted : (p q : Option W) → member (judge_acos before after p q) outcomes ≡ true
      accepted (some x) (some y) =
          either-member (not (n.lt (n.mul x (tenths 9)) y)) "improved" _ outcomes refl (
            either-member (not (n.lt y (n.mul x (tenths 11)))) "worsened" "neutral" outcomes refl
              refl)
      accepted none q =
          either-member (is_cheaper before after) "improved" "inconclusive" outcomes refl refl
      accepted (some x) none =
          either-member (is_cheaper before after) "improved" "inconclusive" outcomes refl refl
