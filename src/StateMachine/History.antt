-- ===== src/StateMachine/History.antt =====
-- What the fields of an action say of its past, whatever sequence of calls has been made. A call
-- that raises ends the sequence: the caller sees the exception.
use amz_command_center.Base.{
  ℕ, ◌+◌, ◌≡◌, ◌⊎◌, inl, inr, Bool, true, false, Option, some, String, List, [], ◌∷◌, arith, ok,
  is_some, leb, ◌>>=◌, >>=-eq-ok, member, str_eq, ◌&&◌, ◌||◌,
}
use text.Mathlib.TextPositions.{eq_refl}
use amz_command_center.Number.{Number}
use amz_command_center.Json.{Repr}
use amz_command_center.StateMachine.Op.{Op}
use amz_command_center.StateMachine.Defs.{
  Status, pending, applied, verified, rejected, expired, rolled_back, Action, Outcome, proposal_ttl,
  verify_after, approver_roles, approve, reject, expire, apply, verify, rollback, retry,
}
use amz_command_center.StateMachine.Moves.{perform}

abbrev pub is_past_approval : Status → Bool
is_past_approval pending = false
is_past_approval rejected = false
is_past_approval expired = false
is_past_approval _ = true

abbrev pub was_sent : Status → Bool
was_sent applied = true
was_sent verified = true
was_sent rolled_back = true
was_sent _ = false

-- `early` and `late` are both set, and `late` is within `span` of `early` or at least `span` after.
abbrev pub within : ℕ → Option ℕ → Option ℕ → Bool
within span (some early) (some late) = leb late (early + span)
within span _ _ = false

abbrev pub beyond : ℕ → Option ℕ → Option ℕ → Bool
beyond span (some early) (some late) = leb (early + span) late
beyond span _ _ = false

-- An action past its approval was approved by a named user within 48 hours of the proposal; one
-- that was sent has its time; a verified one was judged at least seven days after it was sent; one
-- that was rolled back has the baseline and the time.
pub record IsAccounted {W : Type 0} (a : Action W) : Type 0 where
  pub approved_in_time :
      is_past_approval a.status ≡ true → within proposal_ttl a.requested_at a.approved_at ≡ true
  pub approver_known : is_past_approval a.status ≡ true → is_some a.approved_by ≡ true
  pub sent_at : was_sent a.status ≡ true → is_some a.applied_at ≡ true
  pub judged_late : a.status ≡ verified → beyond verify_after a.applied_at a.verified_at ≡ true
  pub restorable : a.status ≡ rolled_back → is_some a.before_value ≡ true
  pub rolled_back_on : a.status ≡ rolled_back → is_some a.rolled_back_at ≡ true

module _ {W : Type 0} ⦃n : Number W⦄ ⦃r : Repr W⦄ where
  unfoldable pub run : List (Op W) → Action W → Outcome W
  run [] a = ok a
  run (op ∷ ops) a = perform op a >>= run ops

  perform-IsAccounted :
      (op : Op W) (a : Action W) {b : Action W}
      → IsAccounted a
      → perform op a ≡ ok b
      → IsAccounted b
  unfolding perform approve reject expire apply verify rollback retry
  perform-IsAccounted (Op.approve by role now self) a h e = ground arith
  perform-IsAccounted (Op.reject by now reason) a h e = ground arith
  perform-IsAccounted (Op.expire now) a h e = ground arith
  perform-IsAccounted (Op.apply now live api_ok error) a h e = ground arith
  perform-IsAccounted (Op.verify now outcome) a h e = ground arith
  perform-IsAccounted (Op.rollback now api_ok) a h e = ground arith
  perform-IsAccounted Op.retry a h e = ground arith

  run_from-IsAccounted :
      (ops : List (Op W)) (a : Action W) {b : Action W}
      → IsAccounted a
      → run ops a ≡ ok b
      → IsAccounted b
  unfolding run
  run_from-IsAccounted [] a h e = ground arith
  run_from-IsAccounted (op ∷ ops) a h e =
      let (mid, first, rest) = >>=-eq-ok (perform op a) (run ops) e in
      run_from-IsAccounted ops mid (perform-IsAccounted op a h first) rest

  -- Whatever calls are made of an action that starts pending, if they all return then the action
  -- at the end was approved within 48 hours if it is past its approval, by a user that it names; it
  -- has the time at which it was sent, if it was; it was verified at least seven days after that;
  -- and one that was rolled back has its baseline and the time.
  pub run-IsAccounted :
      (ops : List (Op W)) (a : Action W) {b : Action W}
      → a.status ≡ pending
      → run ops a ≡ ok b
      → IsAccounted b
  run-IsAccounted ops a s e = run_from-IsAccounted ops a (ground arith) e

  -- The call is an approval by this user in a role that may approve.
  abbrev pub approves : Option String → Op W → Bool
  approves (some user) (Op.approve by role now self) = str_eq by user && member role approver_roles
  approves _ _ = false

  abbrev pub any_approves : Option String → List (Op W) → Bool
  any_approves user [] = false
  any_approves user (op ∷ ops) = approves user op || any_approves user ops

  perform_approver :
      (op : Op W) (a : Action W) {b : Action W}
      → perform op a ≡ ok b
      → is_past_approval b.status ≡ true
      → ((is_past_approval a.status ≡ true) × (a.approved_by ≡ b.approved_by))
        ⊎ (approves b.approved_by op ≡ true)
  unfolding perform approve reject expire apply verify rollback retry
  perform_approver (Op.approve by role now self) a e p = ground (arith, eq_refl by)
  perform_approver (Op.reject by now reason) a e p = ground arith
  perform_approver (Op.expire now) a e p = ground arith
  perform_approver (Op.apply now live api_ok error) a e p = ground arith
  perform_approver (Op.verify now outcome) a e p = ground arith
  perform_approver (Op.rollback now api_ok) a e p = ground arith
  perform_approver Op.retry a e p = ground arith

  run_approver_from :
      (ops : List (Op W)) (a : Action W) {b : Action W}
      → run ops a ≡ ok b
      → is_past_approval b.status ≡ true
      → ((is_past_approval a.status ≡ true) × (a.approved_by ≡ b.approved_by))
        ⊎ (any_approves b.approved_by ops ≡ true)
  unfolding run
  run_approver_from [] a e p = ground arith
  run_approver_from (op ∷ ops) a {b} e p =
      let (mid, first, rest) = >>=-eq-ok (perform op a) (run ops) e in
      elim (run_approver_from ops mid rest p) [
        | inl (past, same) ↦ ground (arith, perform_approver op a first past)
        | inr later ↦ ground arith
      ]

  -- An action that starts pending and gets past its approval was approved, in one of the calls, by
  -- the very user that it names and in a role that may approve.
  pub run_approver :
      (ops : List (Op W)) (a : Action W) {b : Action W}
      → a.status ≡ pending
      → run ops a ≡ ok b
      → is_past_approval b.status ≡ true
      → any_approves b.approved_by ops ≡ true
  run_approver ops a s e p = ground (arith, run_approver_from ops a e p)
