-- ===== src/ApplyGuardrails/Sound.antt =====
-- What a change that passes the second run of the guardrails satisfies.
use amz_command_center.Base.{
  >>=-eq-ok, Option, arith, false, none, ok, refl, some, true, ℕ, ◌+◌, ◌<◌, ◌∙◌, ◌≡◌,
}
use amz_command_center.Number.{IsOrdered, Number, ticks, ◌≼◌}
use amz_command_center.Json.{get, or_empty}
use amz_command_center.StateMachine.{Action}
use amz_command_center.Guardrails.{TenantGuardConfig, is_change_limit, is_diagnostic}
use amz_command_center.Guardrails.Order.{check-IsClear}
use amz_command_center.Guardrails.Limits.{check_bid_bounds}
use amz_command_center.ApplyGuardrails.{
  EvidenceRow, IsoFormat, Question, answer, are_impossible, load_apply_evidence, opt_eqb, rebuild,
  to_number, validate_apply_guardrails,
}

module _ {W : Type 0} ⦃n : Number W⦄ ⦃t : IsoFormat⦄ where
  -- How the question is made up from the action, its row of evidence and the batch so far.
  pub record IsRebuilt (row : EvidenceRow W) (a : Action W) (now changes : ℕ) (increase : W)
      (q : Question W) : Type 0 where
    pub same_type : q.proposal.action_type ≡ a.action_type
    pub same_now : q.context.now ≡ now
    pub same_through : row.data_through ≡ some q.context.data_through
    pub changes_added : q.context.changes_applied_today ≡ row.applied_today + changes
    pub increase_added : q.context.budget_increase_today ≡ n.add row.budget_delta_today increase
    pub before_read :
        to_number (get "value" (or_empty a.before_value)) "before_value"
        ≡ ok q.proposal.before_value
    pub after_read : to_number (get "value" a.after_value) "after_value" ≡ ok q.proposal.after_value
    pub counts_possible : are_impossible q.counts ≡ false

  rebuild-IsRebuilt :
      (row : EvidenceRow W) (a : Action W) (now changes : ℕ) (increase : W) {q : Question W}
      → rebuild (some row) a now changes increase ≡ ok q
      → IsRebuilt row a now changes increase q
  unfolding rebuild load_apply_evidence
  rebuild-IsRebuilt row a now changes increase e = ground arith

  -- The change was allowed as it stands: the row of evidence, what `check` was asked, and that it
  -- allowed the approved value unchanged.
  pub record IsPassed (found : Option (EvidenceRow W)) (a : Action W) (cfg : TenantGuardConfig W)
      (now changes : ℕ) (increase : W) : Type 0 where
    pub row : EvidenceRow W
    pub question : Question W
    pub was_found : found ≡ some row
    pub rebuilt : IsRebuilt row a now changes increase question
    pub is_allowed : (answer question cfg).is_allowed ≡ true
    pub not_clamped : (answer question cfg).clamped ≡ false
    pub same_value : opt_eqb (answer question cfg).value question.proposal.after_value ≡ true

  rebuild_found :
      (found : Option (EvidenceRow W)) (a : Action W) (now changes : ℕ) (increase : W)
      {q : Question W}
      → rebuild found a now changes increase ≡ ok q
      → (row : EvidenceRow W) × (found ≡ some row)
  unfolding rebuild load_apply_evidence
  rebuild_found none a now changes increase e = cc
  rebuild_found (some row) a now changes increase e = (row, refl)

  -- A change that is validated has evidence, and `check` allowed its approved value unclamped.
  pub validate-IsPassed :
      (found : Option (EvidenceRow W)) (a : Action W) (cfg : TenantGuardConfig W) (now changes : ℕ)
      (increase : W) {added : W}
      → validate_apply_guardrails found a cfg now changes increase ≡ ok added
      → IsPassed found a cfg now changes increase
  unfolding validate_apply_guardrails
  validate-IsPassed found a cfg now changes increase e =
      let (q, built, e1) = >>=-eq-ok (rebuild found a now changes increase) _ e in
      let (row, there) = rebuild_found found a now changes increase built in
      record {
        row = row;
        question = q;
        was_found = there;
        rebuilt = rebuild-IsRebuilt row a now changes increase (rw there at built);
        is_allowed = ground arith;
        not_clamped = ground arith;
        same_value = ground arith;
      }

  -- A change that is validated, and is no diagnosis, has its row of evidence; automation is on; and
  -- with the changes of the day and of the batch so far the daily limit leaves room for one more.
  pub validate_within_limits :
      (found : Option (EvidenceRow W)) (a : Action W) (cfg : TenantGuardConfig W) (now changes : ℕ)
      (increase : W) {added : W}
      → is_diagnostic a.action_type ≡ false
      → validate_apply_guardrails found a cfg now changes increase ≡ ok added
      → (row : EvidenceRow W) × (found ≡ some row)
        × (cfg.automation_enabled ≡ true)
        × (row.applied_today + changes < cfg.max_changes_per_day)
  unfolding is_change_limit
  validate_within_limits found a cfg now changes increase g e =
      let passed = validate-IsPassed found a cfg now changes increase e in
      let q = passed.question in
      let clear =
        check-IsClear q.proposal cfg q.context q.counts.min_clicks q.counts.min_impressions
          (rw passed.rebuilt.same_type g) passed.is_allowed in
      (passed.row, passed.was_found, clear.is_on, ground (arith, clear, passed.rebuilt))

  module _ (laws : IsOrdered W) where
    open laws use {≼_trans}

    -- The approved value of a bid change that is validated lies, as it stands, within the tenant's
    -- current bid limits, given that those are in order and in whole pennies.
    pub validate_bid_bounds :
        (found : Option (EvidenceRow W)) (a : Action W) (cfg : TenantGuardConfig W)
        (now changes : ℕ) (increase value : W) {added : W}
        → a.action_type ≡ "set_bid"
        → to_number (get "value" a.after_value) "after_value" ≡ ok (some value)
        → cfg.min_bid ≼ cfg.max_bid
        → n.round2 cfg.min_bid ≡ cfg.min_bid
        → n.round2 cfg.max_bid ≡ cfg.max_bid
        → validate_apply_guardrails found a cfg now changes increase ≡ ok added
        → (cfg.min_bid ≼ value) × (value ≼ cfg.max_bid)
    unfolding opt_eqb
    validate_bid_bounds found a cfg now changes increase value s v m lo hi e =
        let passed = validate-IsPassed found a cfg now changes increase e in
        let q = passed.question in
        let after : q.proposal.after_value ≡ some value = ground (arith, passed.rebuilt) in
        let (sent, carried, above, below) =
          check_bid_bounds laws q.proposal cfg q.context q.counts.min_clicks
            q.counts.min_impressions value (passed.rebuilt.same_type ∙ s) after m lo hi
            passed.is_allowed in
        let same : opt_eqb (some sent) (some value) ≡ true =
          ground (arith, passed.same_value, carried, after) in
        ground (
          arith,
          same,
          above,
          below,
          ≼_trans cfg.min_bid sent value,
          ≼_trans value sent cfg.max_bid,
        )
