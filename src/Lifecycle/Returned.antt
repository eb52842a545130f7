-- ===== src/Lifecycle/Returned.antt =====
-- A decision on a keyword divides by its clicks, of which it then has some: it returns.
use amz_command_center.Base.{
  Bool-cases, List, Option, Option-cases, String, [], arith, false, inl, inr, none, ok, refl,
  select, some, true, ℕ, ◌∷◌, ◌≡◌,
}
use amz_command_center.Number.{IsOrdered, Number, eqb, lt, nought, of_nat, ticks}
use amz_command_center.Harvest.{TermText}
use amz_command_center.HumanControl.{TextCase}
use amz_command_center.Guardrails.{TenantGuardConfig}
use amz_command_center.Lifecycle.Defs.{
  BlockedReason, Finding, Keyword, Thresholds, bid_unknown, block_finding, float_or_nought,
  open_action, poor_history,
}
use amz_command_center.Lifecycle.Revive.{
  break_even_of, decide_bid, decide_history, decide_revive, has_status, is_cooling, is_poor,
  propose, revive_all, revive_finding, revive_findings, siblings_of, traffic_fault,
}
use amz_command_center.Lifecycle.Run.{LifecycleTables}

module _ {W : Type 0} ⦃n : Number W⦄ ⦃c : TextCase⦄ ⦃u : TermText⦄ (o : IsOrdered W) where
  -- Where a history needs clicks, one that is known has some.
  pub clicks_lem :
      (t : Thresholds W) (kw : Keyword W)
      → lt {W = W} nought (of_nat t.revive_min_clicks) ≡ true
      → lt (float_or_nought kw.clicks) (of_nat t.revive_min_clicks) ≡ false
      → eqb (float_or_nought kw.clicks) nought ≡ false
  clicks_lem t kw positive known = elim (Bool-cases (lt nought (float_or_nought kw.clicks))) [
    | inl e ↦ ground (arith, e)
    | inr e ↦
        let z = o.≼_trans (of_nat t.revive_min_clicks) (float_or_nought kw.clicks) nought known e in
        absurd (cc)
  ]

  decide_bid_ok :
      (kw : Keyword W) (be : W) (bid : Option W) (cfg : TenantGuardConfig W) (now : ℕ)
      (last : Option ℕ) (f : Finding W)
      → eqb (float_or_nought kw.clicks) nought ≡ false
      → (g : Finding W) × (decide_bid kw be bid cfg now last f ≡ ok g)
  unfolding decide_bid
  decide_bid_ok kw be none cfg now last f z = (_, refl)
  decide_bid_ok kw be (some bid) cfg now last f z = elim (Bool-cases (lt nought bid)) [
    | inr x ↦ (block_finding f bid_unknown, rw (decide_bid, x) refl)
    | inl x ↦ elim (Bool-cases (is_cooling cfg now last)) [
      | inl y ↦ (block_finding f BlockedReason.cooldown, rw (decide_bid, x, y) refl)
      | inr y ↦ (propose cfg bid (break_even_of kw be) f, rw (decide_bid, x, y, z) refl)
    ]
  ]

  pub decide_history_ok :
      (t : Thresholds W) (kw : Keyword W) (be : Option W) (cfg : TenantGuardConfig W) (now : ℕ)
      (last : Option ℕ) (f : Finding W)
      → eqb (float_or_nought kw.clicks) nought ≡ false
      → (g : Finding W) × (decide_history t kw be cfg now last f ≡ ok g)
  unfolding decide_history
  decide_history_ok t kw none cfg now last f z = (_, refl)
  decide_history_ok t kw (some be) cfg now last f z = elim (Bool-cases (is_poor t kw be)) [
    | inl x ↦ (block_finding f poor_history, rw (decide_history, x) refl)
    | inr x ↦
        let (g, e) = decide_bid_ok kw be kw.last_bid cfg now last f z in
        (g, rw (decide_history, x) e)
  ]

  module _ (t : Thresholds W) (kw : Keyword W) (siblings : List String) (open_id : Option String)
      (last : Option ℕ) (cfg : TenantGuardConfig W) (now : ℕ)
      (positive : lt {W = W} nought (of_nat t.revive_min_clicks) ≡ true) where
    pub decide_revive_ok :
        (g : Finding W) × (decide_revive t kw siblings open_id last cfg now ≡ ok g)
    unfolding decide_revive traffic_fault
    decide_revive_ok = elim (Option-cases (traffic_fault t kw siblings open_id)) [
      | inr (reason, a) ↦
          (block_finding (revive_finding kw cfg last siblings) reason, rw (decide_revive, a) refl)
      | inl a ↦
          let (g, e) =
            decide_history_ok t kw kw.break_even_acos cfg now last
              (revive_finding kw cfg last siblings)
              (clicks_lem t kw positive (ground (arith, a))) in
          (g, rw (decide_revive, a) e)
    ]

  module _ (db : LifecycleTables W) (tenant : String) (now : ℕ) (cfg : TenantGuardConfig W)
      (t : Thresholds W) (positive : lt {W = W} nought (of_nat t.revive_min_clicks) ≡ true) where
    revive_all_ok :
        (rows kws : List (Keyword W))
        → (fs : List (Finding W)) × (revive_all db.last_applied db.actions tenant now cfg t rows kws
            ≡ ok fs)
    unfolding revive_all
    revive_all_ok rows [] = ([], refl)
    revive_all_ok rows (kw ∷ kws) =
        let pending_action =
          open_action db.actions tenant "keyword" kw.keyword_id ("enable" ∷ "set_bid" ∷ []) in
        let (f, e) =
          decide_revive_ok t kw (siblings_of rows kw) pending_action (db.last_applied kw.keyword_id)
            cfg now positive in
        let (fs, h) = revive_all_ok rows kws in (f ∷ fs, rw (revive_all, e, h) refl)

    pub revive_findings_ok :
        (kws : List (Keyword W))
        → (fs : List (Finding W)) × (revive_findings db.last_applied db.actions tenant now cfg t kws
            ≡ ok fs)
    unfolding revive_findings
    revive_findings_ok kws = revive_all_ok kws (select (has_status "paused") kws)
