-- ===== src/Lifecycle/Bids.antt =====
-- The bid at which a dormant keyword is revived.
use mathlib.Core.Path.{subst}
use amz_command_center.Base.{
  Bool-cases, List, Option, Option-cases, Result, String, [], arith, false, inl, inr, none, ok,
  refl, some, sym, true, ℕ, ◌∙◌, ◌∷◌, ◌≡◌, ◌⊎◌,
}
use amz_command_center.Number.{IsOrdered, Number, eqb, lt, nought, of_nat, ticks, ◌≼◌}
use amz_command_center.Harvest.{TermText}
use amz_command_center.HumanControl.{TextCase}
use amz_command_center.Guardrails.{TenantGuardConfig}
use amz_command_center.Lifecycle.Defs.{
  BlockedReason, Finding, Keyword, Thresholds, bid_unknown, block_finding, economics_unknown,
  float_or_nought, is_given, poor_history,
}
use amz_command_center.Lifecycle.Revive.{
  LifecycleError, break_even_of, decide_bid, decide_history, decide_revive, has_any, is_cooling,
  is_poor, propose, revive_finding, traffic_fault,
}
use amz_command_center.Lifecycle.Proposed.{propose-IsBounded}
use amz_command_center.Lifecycle.Returned.{decide_revive_ok}

module _ {W : Type 0} ⦃n : Number W⦄ ⦃c : TextCase⦄ ⦃u : TermText⦄ where
  -- What a proposed revival has: a quiet history that earned it, and a bid that is neither above the
  -- last one, nor the break-even cost of a click, nor the tenant's bounds, but for the rounding.
  pub record IsRevival (t : Thresholds W) (kw : Keyword W) (siblings : List String)
      (open_id : Option String) (last : Option ℕ) (cfg : TenantGuardConfig W) (now : ℕ) (bid : W)
      : Type 0 where
    pub break_even : W
    pub last_bid : W
    pub has_break_even : kw.break_even_acos ≡ some break_even
    pub has_bid : kw.last_bid ≡ some last_bid
    pub alone : siblings ≡ []
    pub none_open : is_given open_id ≡ false
    pub dormant : lt nought (float_or_nought kw.recent_clicks) ≡ false
    pub known : lt (float_or_nought kw.clicks) (of_nat t.revive_min_clicks) ≡ false
    pub earned : is_poor t kw break_even ≡ false
    pub cooled : is_cooling cfg now last ≡ false
    pub not_above_last : bid ≼ n.round2 last_bid
    pub not_above_cost : bid ≼ n.round2 (break_even_of kw break_even)
    pub not_above_max : bid ≼ n.round2 cfg.max_bid
    pub not_below_min : n.round2 cfg.min_bid ≼ bid

  -- A finding with such a bid, or one that is blocked and has none.
  abbrev pub Revives :
      Thresholds W
      → Keyword W
      → List String
      → Option String
      → Option ℕ
      → TenantGuardConfig W
      → ℕ
      → Finding W
      → Type 0
  Revives t kw siblings open_id last cfg now f =
      ((f.is_recommended ≡ false) × (f.proposed_bid ≡ none))
      ⊎ ((f.is_recommended ≡ true)
          × ((bid : W) × (f.proposed_bid ≡ some bid)
              × IsRevival t kw siblings open_id last cfg now bid))

module _ {W : Type 0} ⦃n : Number W⦄ ⦃c : TextCase⦄ ⦃u : TermText⦄ (o : IsOrdered W) where
  module _ (t : Thresholds W) (kw : Keyword W) (siblings : List String) (open_id : Option String)
      (last : Option ℕ) (cfg : TenantGuardConfig W) (now : ℕ) (f : Finding W)
      (ranged : cfg.min_bid ≼ cfg.max_bid) where
    blocked_lem :
        (reason : BlockedReason)
        → ◌≡◌ {A = Result LifecycleError (Finding W)}
            (ok (block_finding (revive_finding kw cfg last siblings) reason))
            (ok f)
        → Revives t kw siblings open_id last cfg now f
    unfolding block_finding
    blocked_lem reason e = inl (ground arith, ground arith)

    alone_lem : (s : List String) → has_any s ≡ false → s ≡ []
    alone_lem [] e = refl
    alone_lem (x ∷ s) e = cc

    end_lem :
        (be bid : W)
        → kw.break_even_acos ≡ some be
        → kw.last_bid ≡ some bid
        → traffic_fault t kw siblings open_id ≡ none
        → is_poor t kw be ≡ false
        → is_cooling cfg now last ≡ false
        → propose cfg bid (break_even_of kw be) (revive_finding kw cfg last siblings) ≡ f
        → Revives t kw siblings open_id last cfg now f
    unfolding traffic_fault
    end_lem be bid b h a poor cool e =
        subst (Revives t kw siblings open_id last cfg now) e
          (elim (propose-IsBounded o cfg bid (break_even_of kw be)
            (revive_finding kw cfg last siblings) ranged refl refl) [
              | inl held ↦ inl held
              | inr (q, (p, set, w)) ↦ inr (
                q,
                (
                  p,
                  set,
                  record {
                    break_even = be;
                    last_bid = bid;
                    has_break_even = b;
                    has_bid = h;
                    alone = alone_lem siblings (ground arith);
                    none_open = ground arith;
                    dormant = ground arith;
                    known = ground arith;
                    earned = poor;
                    cooled = cool;
                    not_above_last = w.below_bid;
                    not_above_cost = w.below_cpc;
                    not_above_max = w.below_max;
                    not_below_min = w.above_min;
                  },
                ),
              )
            ])

    module _ (quiet : traffic_fault t kw siblings open_id ≡ none) where
      bid_lem :
          (be : W) (bid : Option W)
          → kw.break_even_acos ≡ some be
          → kw.last_bid ≡ bid
          → is_poor t kw be ≡ false
          → decide_bid kw be bid cfg now last (revive_finding kw cfg last siblings) ≡ ok f
          → Revives t kw siblings open_id last cfg now f
      unfolding decide_bid
      bid_lem be none b h poor e = blocked_lem bid_unknown e
      bid_lem be (some bid) b h poor e = elim (Bool-cases (lt nought bid)) [
        | inr x ↦ blocked_lem bid_unknown (sym (rw (decide_bid, x) refl) ∙ e)
        | inl x ↦ elim (Bool-cases (is_cooling cfg now last)) [
          | inl y ↦ blocked_lem BlockedReason.cooldown (sym (rw (decide_bid, x, y) refl) ∙ e)
          | inr y ↦ elim (Bool-cases (eqb (float_or_nought kw.clicks) nought)) [
            | inl z ↦ absurd (ground (arith, x, y, z))
            | inr z ↦
                let q : ◌≡◌ {A = Result LifecycleError (Finding W)}
                    (ok
                      (propose cfg bid (break_even_of kw be) (revive_finding kw cfg last siblings)))
                    (ok f) =
                  sym (rw (decide_bid, x, y, z) refl) ∙ e in
                end_lem be bid b h quiet poor y (cc)
          ]
        ]
      ]

      history_lem :
          (be : Option W)
          → kw.break_even_acos ≡ be
          → decide_history t kw be cfg now last (revive_finding kw cfg last siblings) ≡ ok f
          → Revives t kw siblings open_id last cfg now f
      unfolding decide_history
      history_lem none b e = blocked_lem economics_unknown e
      history_lem (some be) b e = elim (Bool-cases (is_poor t kw be)) [
        | inl x ↦ blocked_lem poor_history (sym (rw (decide_history, x) refl) ∙ e)
        | inr x ↦ bid_lem be kw.last_bid b refl x (sym (rw (decide_history, x) refl) ∙ e)
      ]

    revives_lem :
        decide_revive t kw siblings open_id last cfg now ≡ ok f
        → Revives t kw siblings open_id last cfg now f
    unfolding decide_revive
    revives_lem e = elim (Option-cases (traffic_fault t kw siblings open_id)) [
      | inr (reason, a) ↦ blocked_lem reason (sym (rw (decide_revive, a) refl) ∙ e)
      | inl a ↦ history_lem a kw.break_even_acos refl (sym (rw (decide_revive, a) refl) ∙ e)
    ]

  module _ (t : Thresholds W) (kw : Keyword W) (siblings : List String) (open_id : Option String)
      (last : Option ℕ) (cfg : TenantGuardConfig W) (now : ℕ)
      (positive : lt {W = W} nought (of_nat t.revive_min_clicks) ≡ true)
      (ranged : cfg.min_bid ≼ cfg.max_bid) where
    -- With a positive least number of clicks and a least bid that is not above the greatest, the
    -- decision returns. It recommends a revival with a bid that is neither above the last bid, nor
    -- the break-even cost of a click, nor out of the tenant's bounds, but for the rounding, of a
    -- keyword that stands alone, is dormant, has earned it and is not in its cooldown; or it
    -- recommends nothing, and has no bid.
    pub decide_revive-Revives :
        (f : Finding W) × (decide_revive t kw siblings open_id last cfg now ≡ ok f)
        × Revives t kw siblings open_id last cfg now f
    decide_revive-Revives =
        let (f, e) = decide_revive_ok o t kw siblings open_id last cfg now positive in
        (f, e, revives_lem t kw siblings open_id last cfg now f ranged e)
