-- ===== src/StateMachine/Windows.antt =====
-- The guards of an approval, and the time windows: a proposal can be approved up to 48 hours after
-- it was made and can expire after that; a result is judged 7 days after the change at the earliest.
use amz_command_center.Base.{
  ℕ, ◌+◌, ◌≤◌, ◌<◌, ◌≡◌, ◌≢◌, ◌⊎◌, ◌↔◌, Bool, true, false, some, String, arith, ok, raised, member,
  str_eq_iff,
}
use amz_command_center.StateMachine.Defs.{
  pending, applied, Action, Outcome, proposal_ttl, verify_after, approver_roles, outcomes,
  is_own_proposal, approve, expire, verify,
}

-- The call returned an action and did not raise.
abbrev pub Returns : {W : Type 0} → Outcome W → Type 0
Returns (ok a) = Unit
Returns (raised e) = ⊥

module _ {W : Type 0} where
  -- What an approval needs of the action, the approver and the clock.
  pub record MayApprove (approver role : String) (now made : ℕ) (allow_self : Bool) (a : Action W)
      : Type 0 where
    pub is_pending : a.status ≡ pending
    pub by_approver : member role approver_roles ≡ true
    pub in_time : now ≤ made + proposal_ttl
    pub not_own : (allow_self ≡ true) ⊎ (is_own_proposal a approver ≡ false)

  -- An approval of an action proposed at `made` returns exactly when the action is pending, the
  -- role may approve, the 48 hours are not over and the proposal is not the approver's own or the
  -- tenant allows that.
  pub approve-MayApprove_iff :
      (approver role : String) (now made : ℕ) (allow_self : Bool) (a : Action W)
      → a.requested_at ≡ some made
      → Returns (approve approver role now allow_self a)
        ↔ MayApprove approver role now made allow_self a
  unfolding approve
  approve-MayApprove_iff approver role now made allow_self a e =
      (λ h. ground arith, λ h. ground arith)

  -- For a pending action proposed at `made` and a role that may approve another's proposal, at
  -- every moment exactly one of approval and expiry returns: approval up to the end of the 48
  -- hours, expiry from then on.
  pub approve_or_expire :
      (approver role : String) (now made : ℕ) (a : Action W)
      → a.status ≡ pending
      → a.requested_at ≡ some made
      → member role approver_roles ≡ true
      → is_own_proposal a approver ≡ false
      → ((now ≤ made + proposal_ttl)
          × Returns (approve approver role now false a)
          × ¬ Returns (expire now a))
        ⊎ ((made + proposal_ttl < now)
            × (¬ Returns (approve approver role now false a))
            × Returns (expire now a))
  unfolding approve expire
  approve_or_expire approver role now made a p e m o = ground arith

  -- Nobody approves their own proposal where the tenant does not allow it.
  pub approve_own :
      (approver role : String) (now : ℕ) (a : Action W) {b : Action W}
      → approve approver role now false a ≡ ok b
      → a.requested_by ≢ some approver
  unfolding approve is_own_proposal
  approve_own approver role now a e own = ground (arith, str_eq_iff approver approver)

  -- A result of an action applied at `since` is accepted exactly when the action is applied, seven
  -- days have passed and the outcome is one of the five that are known.
  pub verify_iff :
      (now since : ℕ) (outcome : String) (a : Action W)
      → a.applied_at ≡ some since
      → Returns (verify now outcome a)
        ↔ ((a.status ≡ applied) × (since + verify_after ≤ now) × (member outcome outcomes ≡ true))
  unfolding verify
  verify_iff now since outcome a e = (λ h. ground arith, λ h. ground arith)
