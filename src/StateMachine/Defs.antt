-- ===== src/StateMachine/Defs.antt =====
-- The definitions of services/actions/state_machine.py.
use Prim.Native.String.{◌++◌ as append}
use amz_command_center.Base.{
  ℕ, ◌+◌, ◌-◌, ◌*◌, Bool, true, false, not, ◌&&◌, Option, none, some, String, List, [], ◌∷◌, Result,
  ok, raised, ◌>>=◌, ◌>>◌, raise_if, ltb, leb, is_some, member, opt_str_eq, if◌then◌else◌,
}
use amz_command_center.Number.{Number}
use amz_command_center.Json.{Members, Repr, dict_eq, is_nonempty}

pub data Status : Type 0 where
  pending approved applied verified rejected expired failed rolled_back : Status

pub Status-discrete : Discrete Status
Status-discrete = hlevel

-- One row and column for each status; the code writes `==` of an enum.
unfoldable pub status_eq : Status → Status → Bool
status_eq pending pending = true
status_eq approved approved = true
status_eq applied applied = true
status_eq verified verified = true
status_eq rejected rejected = true
status_eq expired expired = true
status_eq failed failed = true
status_eq rolled_back rolled_back = true
status_eq _ _ = false

-- `target in {…}`
unfoldable pub status_in : Status → List Status → Bool
unfolding status_eq
status_in t [] = false
status_in t (s ∷ ss) = if status_eq t s then true else status_in t ss

abbrev pub terminal : List Status
terminal = verified ∷ rejected ∷ expired ∷ rolled_back ∷ []

unfoldable pub allowed : Status → List Status
allowed pending = approved ∷ rejected ∷ expired ∷ []
allowed approved = applied ∷ failed ∷ rejected ∷ expired ∷ []
allowed applied = verified ∷ rolled_back ∷ []
allowed failed = pending ∷ []
allowed _ = []

abbrev pub approver_roles : List String
approver_roles = "owner" ∷ "admin" ∷ []

abbrev pub hour : ℕ
hour = 3_600_000_000

abbrev pub day : ℕ
day = 24 * hour

abbrev pub proposal_ttl : ℕ
proposal_ttl = 48 * hour

abbrev pub verify_after : ℕ
verify_after = 7 * day

abbrev pub outcomes : List String
outcomes = "improved" ∷ "worsened" ∷ "neutral" ∷ "inconclusive" ∷ "drifted" ∷ []

-- TransitionError by its message, and the AssertionError of a missing timestamp.
pub data Refusal : Type 0 where
  cannot_move : Status → Status → Refusal
  role_cannot_approve : String → Refusal
  proposal_expired self_approval not_yet_expired too_early no_before_value : Refusal
  unknown_outcome : String → Refusal
  assertion : Refusal

pub record Action (W : Type 0) : Type 0 where
  pub id : String
  pub tenant_id : String
  pub entity_type : String
  pub entity_id : String
  pub action_type : String
  pub before_value : Option (Members W)
  pub after_value : Members W
  pub status : Status
  pub requested_by : Option String
  pub requested_at : Option ℕ
  pub approved_by : Option String
  pub approved_at : Option ℕ
  pub applied_at : Option ℕ
  pub verified_at : Option ℕ
  pub rolled_back_at : Option ℕ
  pub outcome : Option String
  pub error : Option String
  pub idempotency_key : Option String
  pub control_id : Option String
  pub request_origin : String

-- `assert x is not None`
abbrev pub asserted {ℓ} : {A : Type ℓ} → Option A → Result Refusal A
asserted none = raised assertion
asserted (some a) = ok a

-- Every operation raises or returns the action in its new state.
abbrev pub Outcome : Type 0 → Type 0
Outcome W = Result Refusal (Action W)

-- `reason or None`
abbrev pub or_none : String → Option String
or_none String.[] = none
or_none (String.◌∷◌ c s) = some (String.◌∷◌ c s)

-- `error or "amazon api call failed"`
abbrev pub api_error : Option String → String
api_error none = "amazon api call failed"
api_error (some String.[]) = "amazon api call failed"
api_error (some (String.◌∷◌ c s)) = String.◌∷◌ c s

module _ {W : Type 0} where
  -- The property `expires_at`.
  unfoldable pub expires_at : Action W → Result Refusal ℕ
  expires_at a = asserted a.requested_at >>= λ t. ok (t + proposal_ttl)

  -- `_assert`
  unfoldable pub assert_move : Action W → Status → Result Refusal (Unit {0})
  unfolding status_in allowed
  assert_move a target =
      raise_if (not (status_in target (allowed a.status))) (cannot_move a.status target)

  unfoldable pub is_own_proposal : Action W → String → Bool
  unfolding opt_str_eq
  is_own_proposal a approver = is_some a.requested_by && opt_str_eq a.requested_by (some approver)

  unfoldable pub approve : String → String → ℕ → Bool → Action W → Outcome W
  unfolding assert_move expires_at
  approve approver role now allow_self a = do
    assert_move a approved
    raise_if (not (member role approver_roles)) (role_cannot_approve role)
    expiry ← expires_at a
    raise_if (ltb expiry now) proposal_expired
    raise_if (not allow_self && is_own_proposal a approver) self_approval
    ok (record a { status = approved; approved_by = some approver; approved_at = some now })

  unfoldable pub reject : String → ℕ → String → Action W → Outcome W
  unfolding assert_move
  reject actor now reason a = do
    assert_move a rejected
    ok (record a {
      status = rejected;
      approved_by = some actor;
      approved_at = some now;
      error = or_none reason;
    })

  unfoldable pub expire : ℕ → Action W → Outcome W
  unfolding assert_move expires_at
  expire now a = do
    assert_move a expired
    expiry ← expires_at a
    raise_if (leb now expiry) not_yet_expired
    ok (record a { status = expired })

  -- `live_before_value or action.before_value`
  abbrev pub live_or : Option (Members W) → Option (Members W) → Option (Members W)
  live_or none before = before
  live_or (some d) before = if is_nonempty d then some d else before

  -- `now - applied_at` may be negative, and is then below the window, as `-` on ℕ is.
  unfoldable pub verify : ℕ → String → Action W → Outcome W
  unfolding assert_move
  verify now result a = do
    assert_move a verified
    since ← asserted a.applied_at
    raise_if (ltb (now - since) verify_after) too_early
    raise_if (not (member result outcomes)) (unknown_outcome result)
    ok (record a { status = verified; verified_at = some now; outcome = some result })

  unfoldable pub rollback : ℕ → Bool → Action W → Outcome W
  unfolding assert_move
  rollback now api_ok a = do
    assert_move a rolled_back
    raise_if (not (is_some a.before_value)) no_before_value
    ok (
        if api_ok
        then record a { status = rolled_back; rolled_back_at = some now }
        else record a { error = some "rollback api call failed" })

  unfoldable pub retry : Action W → Outcome W
  unfolding assert_move
  retry a = do
    assert_move a pending
    ok (record a { status = pending; error = none; approved_by = none; approved_at = none })

module _ {W : Type 0} ⦃n : Number W⦄ where
  -- The values differ, and both are there.
  unfoldable pub has_drifted : Option (Members W) → Option (Members W) → Bool
  has_drifted (some live) (some before) = not (dict_eq live before)
  has_drifted _ _ = false

  abbrev pub shown : ⦃r : Repr W⦄ → Option (Members W) → String
  shown ⦃r⦄ none = "None"
  shown ⦃r⦄ (some d) = r.show d

  -- The message of a drift, from its two values.
  unfoldable pub drift_error : ⦃r : Repr W⦄ → Option (Members W) → Option (Members W) → String
  drift_error live before = append "drift:" (
      append (append " live value " (shown live)) (
        append " no longer matches the proposed baseline "
          (append (shown before) "; requires re-evaluation")))

  unfoldable pub apply :
      ⦃r : Repr W⦄ → ℕ → Option (Members W) → Bool → Option String → Action W → Outcome W
  unfolding assert_move drift_error
  apply now live api_ok error a = do
    assert_move a (if api_ok then applied else failed)
    ok (
        if api_ok && has_drifted live a.before_value
        then record a { status = failed; error = some (drift_error live a.before_value) }
        else if api_ok
        then record a {
          before_value = live_or live a.before_value;
          status = applied;
          applied_at = some now;
        }
        else record a { status = failed; error = some (api_error error) })
