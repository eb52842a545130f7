-- ===== src/Lifecycle/Proposed.antt =====
-- The bounds of the bid that `propose` gives.
use amz_command_center.Base.{Bool-cases, false, inl, inr, none, refl, some, true, ◌≡◌, ◌⊎◌}
use amz_command_center.Number.{IsOrdered, Number, lt, ticks, ◌≼◌}
use amz_command_center.Harvest.{TermText}
use amz_command_center.HumanControl.{TextCase}
use amz_command_center.Guardrails.{TenantGuardConfig}
use amz_command_center.Lifecycle.Defs.{Finding, block_finding}
use amz_command_center.Lifecycle.Revive.{min_bid_of, propose}

module _ {W : Type 0} ⦃n : Number W⦄ ⦃c : TextCase⦄ ⦃u : TermText⦄ where
  -- The bounds of the bid that `propose` gives.
  pub record IsBounded (cfg : TenantGuardConfig W) (bid cpc : W) (p : W) : Type 0 where
    pub below_bid : p ≼ n.round2 bid
    pub below_cpc : p ≼ n.round2 cpc
    pub below_max : p ≼ n.round2 cfg.max_bid
    pub above_min : n.round2 cfg.min_bid ≼ p

module _ {W : Type 0} ⦃n : Number W⦄ ⦃c : TextCase⦄ ⦃u : TermText⦄ (o : IsOrdered W) where
  le_of_lt : (x y : W) → lt x y ≡ true → x ≼ y
  le_of_lt x y e = elim (o.≼_total x y) [ inl h ↦ h | inr h ↦ absurd (cc) ]

  min_left : (x y : W) → min_bid_of x y ≼ x
  min_left x y = elim (Bool-cases (lt y x)) [
    | inl e ↦ rw e (le_of_lt y x e)
    | inr e ↦ rw e (o.≼_refl x)
  ]

  min_right : (x y : W) → min_bid_of x y ≼ y
  min_right x y = elim (Bool-cases (lt y x)) [ inl e ↦ rw e (o.≼_refl y) | inr e ↦ rw e e ]

  min_above : (z x y : W) → z ≼ x → z ≼ y → z ≼ min_bid_of x y
  min_above z x y h k = elim (Bool-cases (lt y x)) [ inl e ↦ rw e k | inr e ↦ rw e h ]

  pub propose-IsBounded :
      (cfg : TenantGuardConfig W) (bid cpc : W) (f : Finding W)
      → cfg.min_bid ≼ cfg.max_bid
      → f.is_recommended ≡ true
      → f.proposed_bid ≡ none
      → (((propose cfg bid cpc f).is_recommended ≡ false)
          × ((propose cfg bid cpc f).proposed_bid ≡ none))
        ⊎ (((propose cfg bid cpc f).is_recommended ≡ true)
            × ((p : W) × ((propose cfg bid cpc f).proposed_bid ≡ some p) × IsBounded cfg bid cpc p))
  unfolding propose block_finding
  propose-IsBounded cfg bid cpc f ranged e unset =
      let target = min_bid_of bid cpc in
      let p = min_bid_of target cfg.max_bid in
      elim (Bool-cases (lt target cfg.min_bid)) [
        | inl low ↦ rw (propose, low) (inl (refl, unset))
        | inr high ↦
            rw (propose, high)
              (inr (
                e,
                (
                  n.round2 p,
                  refl,
                  record {
                    below_bid =
                        o.round2_mono p bid
                          (o.≼_trans p target bid (min_left target cfg.max_bid) (min_left bid cpc));
                    below_cpc =
                        o.round2_mono p cpc (
                          o.≼_trans p target cpc (min_left target cfg.max_bid) (min_right bid cpc));
                    below_max = o.round2_mono p cfg.max_bid (min_right target cfg.max_bid);
                    above_min =
                        o.round2_mono cfg.min_bid p
                          (min_above cfg.min_bid target cfg.max_bid high ranged);
                  },
                ),
              ))
      ]
