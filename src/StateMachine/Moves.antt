-- ===== src/StateMachine/Moves.antt =====
-- Which statuses the operations move between.
use amz_command_center.Base.{Bool, ◌≡◌, ◌⊎◌, true, false, arith, raised}
use amz_command_center.Number.{Number}
use amz_command_center.Json.{Repr}
use amz_command_center.StateMachine.Op.{Op}
use amz_command_center.StateMachine.Defs.{
  Status, pending, approved, applied, verified, rejected, expired, failed, rolled_back, status_in,
  allowed, terminal, Refusal, Action, Outcome, approve, reject, expire, apply, verify, rollback,
  retry,
}

-- `t in ALLOWED[s]`
abbrev pub Edge : Status → Status → Type 0
Edge s t = status_in t (allowed s) ≡ true

module _ {W : Type 0} ⦃n : Number W⦄ ⦃r : Repr W⦄ where
  unfoldable pub perform : Op W → Action W → Outcome W
  perform (Op.approve by role now self) = approve by role now self
  perform (Op.reject by now reason) = reject by now reason
  perform (Op.expire now) = expire now
  perform (Op.apply now live api_ok error) = apply now live api_ok error
  perform (Op.verify now outcome) = verify now outcome
  perform (Op.rollback now api_ok) = rollback now api_ok
  perform Op.retry = retry

  -- The statuses that a call moves between, as it is asked to: a rollback whose provider call failed
  -- leaves the action applied.
  abbrev pub MovesBy : Op W → Status → Status → Type 0
  MovesBy (Op.approve by role now self) s t = (s ≡ pending) × (t ≡ approved)
  MovesBy (Op.reject by now reason) s t = ((s ≡ pending) ⊎ (s ≡ approved)) × (t ≡ rejected)
  MovesBy (Op.expire now) s t = ((s ≡ pending) ⊎ (s ≡ approved)) × (t ≡ expired)
  MovesBy (Op.apply now live true error) s t = (s ≡ approved) × ((t ≡ applied) ⊎ (t ≡ failed))
  MovesBy (Op.apply now live false error) s t = (s ≡ approved) × (t ≡ failed)
  MovesBy (Op.verify now outcome) s t = (s ≡ applied) × (t ≡ verified)
  MovesBy (Op.rollback now true) s t = (s ≡ applied) × (t ≡ rolled_back)
  MovesBy (Op.rollback now false) s t = (s ≡ applied) × (t ≡ applied)
  MovesBy Op.retry s t = (s ≡ failed) × (t ≡ pending)

  abbrev pub is_failed_rollback : Op W → Bool
  is_failed_rollback (Op.rollback now false) = true
  is_failed_rollback _ = false

  -- In a terminal status every operation raises, with the pair of statuses that it refuses.
  pub perform-terminal :
      (op : Op W) (a : Action W)
      → status_in a.status terminal ≡ true
      → (target : Status) × (perform op a ≡ raised (Refusal.cannot_move a.status target))
  unfolding perform approve reject expire apply verify rollback retry
  perform-terminal (Op.approve by role now self) a t = (approved, ground arith)
  perform-terminal (Op.reject by now reason) a t = (rejected, ground arith)
  perform-terminal (Op.expire now) a t = (expired, ground arith)
  perform-terminal (Op.apply now live true error) a t = (applied, ground arith)
  perform-terminal (Op.apply now live false error) a t = (failed, ground arith)
  perform-terminal (Op.verify now outcome) a t = (verified, ground arith)
  perform-terminal (Op.rollback now api_ok) a t = (rolled_back, ground arith)
  perform-terminal Op.retry a t = (pending, ground arith)
