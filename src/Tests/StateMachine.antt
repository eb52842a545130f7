-- ===== src/Tests/StateMachine.antt =====
-- The life of one bid change: proposed at the moment 0, approved, applied, verified.
use amz_command_center.Base.{
  List, Option, [], false, member, none, ok, refl, some, true, ◌*◌, ◌↔◌, ◌∷◌, ◌≡◌,
}
use amz_command_center.Number.{Ticks, ticks}
use amz_command_center.Json.{Members, dict_eq, size}
use amz_command_center.Samples.{bid_change, ticks_repr, valued}
use amz_command_center.StateMachine.{
  Action, applied, apply, approve, approved, day, has_drifted, hour, is_own_proposal, rollback,
  rolled_back, verified, verify,
}
use amz_command_center.StateMachine.Op.{Op}
use amz_command_center.StateMachine.Moves.{perform}
use amz_command_center.StateMachine.Windows.{MayApprove, Returns, approve-MayApprove_iff}
use amz_command_center.StateMachine.Drift.{rollback-apply}
use amz_command_center.StateMachine.History.{IsAccounted, run, run-IsAccounted}

abbrev approve_op : Op Ticks
approve_op = Op.approve "u-owner" "owner" hour false

abbrev life : List (Op Ticks)
life =
    approve_op
    ∷ Op.apply (2 * hour) (some (valued 10_000)) true none
    ∷ Op.verify (8 * day) "improved"
    ∷ []

abbrev approved_change : Action Ticks
approved_change = record bid_change {
  status = approved;
  approved_by = some "u-owner";
  approved_at = some hour;
}

abbrev applied_change : Action Ticks
applied_change = record approved_change { status = applied; applied_at = some (2 * hour) }

abbrev verified_change : Action Ticks
verified_change = record applied_change {
  status = verified;
  verified_at = some (8 * day);
  outcome = some "improved";
}

life_lem : run life bid_change ≡ ok verified_change
unfolding run perform approve apply verify member is_own_proposal has_drifted dict_eq size
life_lem = refl

apply_lem : apply (2 * hour) (some (valued 10_000)) true none approved_change ≡ ok applied_change
unfolding apply has_drifted dict_eq size
apply_lem = refl

approve-MayApprove_iff_example :
    Returns (approve "u-owner" "owner" hour false bid_change)
    ↔ MayApprove "u-owner" "owner" hour 0 false bid_change
approve-MayApprove_iff_example =
    approve-MayApprove_iff "u-owner" "owner" hour 0 false bid_change refl

abbrev drifting : Option (Members Ticks)
drifting = some (valued 12_500)

rollback-apply_example :
    (applied_change.before_value ≡ some (valued 10_000))
    × (rollback day true applied_change
        ≡ ok (record applied_change { status = rolled_back; rolled_back_at = some day }))
rollback-apply_example =
    rollback-apply (2 * hour) day (valued 10_000) true none approved_change refl apply_lem refl

run-IsAccounted_example : IsAccounted verified_change
run-IsAccounted_example = run-IsAccounted life bid_change refl life_lem
