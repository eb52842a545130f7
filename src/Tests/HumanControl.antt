-- ===== src/Tests/HumanControl.antt =====
-- A one-time control of a keyword, and the action that is linked to it.
use amz_command_center.Base.{arith, best, none, refl, some, ◌≡◌}
use amz_command_center.Number.{ticks}
use amz_command_center.Samples.{locked, once_control, same_case, ticks_repr, token_redactor}
use amz_command_center.HumanControl.{
  Controls, active_control, automated, complete_one_time_control, control_by_id, find_control,
  latest_state,
}
use amz_command_center.HumanControl.Ownership.{IsUnderWay, complete_releases}

under_way : IsUnderWay "t-1" once_control 5 locked
unfolding control_by_id latest_state best
under_way = record {
  keyed = refl;
  named = refl;
  once = refl;
  last = "HUMAN_OVERRIDE";
  latest = refl;
  not_ended = refl;
  past = (omega arith, tt);
}

found_lem : find_control "t-1" "keyword" "kw-1" "*" locked ≡ some once_control
unfolding find_control best
found_lem = refl

complete_releases_example :
    (db' : Controls) × (complete_one_time_control "t-1" (some "c-1") "e-2" 5 locked ≡ some db')
    × (active_control "t-1" "keyword" "kw-1" "*" none 7 db' ≡ automated)
    × (complete_one_time_control "t-1" (some "c-1") "e-3" 6 db' ≡ none)
complete_releases_example =
    complete_releases "t-1" "keyword" "kw-1" "*" "e-2" "e-3" none once_control 5 6 7 locked
      under_way found_lem
