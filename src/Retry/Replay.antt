-- ===== src/Retry/Replay.antt =====
-- The replay of a dead letter: who may do it, and that it is done once.
use amz_command_center.Base.{
  List, Option, String, [], arith, false, map, member, ok, raised, refl, select, true, ◌∷◌, ◌≡◌,
}
use amz_command_center.StateMachine.{approver_roles, status_eq}
use amz_command_center.Retry.{
  Failing, Queue, RetryRelease, RetryWorld, is_dead, not_found, replay_dead_letter, replay_row,
}

module _ {W : Type 0} where
  is_dead-replay_row :
      (tenant id : String) (row : Failing W) → is_dead tenant id (replay_row tenant id row) ≡ false
  unfolding replay_row status_eq
  is_dead-replay_row tenant id row = ground arith

  select-replay_row :
      (tenant id : String) (rows : List (Failing W))
      → select (is_dead tenant id) (map (replay_row tenant id) rows) ≡ []
  select-replay_row tenant id [] = refl
  select-replay_row tenant id (row ∷ rows) =
      rw (is_dead-replay_row tenant id row) (select-replay_row tenant id rows)

  found_again :
      (w : RetryWorld W) (tenant id actor role : String) (key : Option String) (q : Queue W)
      → member role approver_roles ≡ true
      → select (is_dead tenant id) q.rows ≡ []
      → replay_dead_letter w tenant id actor role key q ≡ raised not_found
  unfolding replay_dead_letter
  found_again w tenant id actor role key q m e = rw (m, e) refl

  -- A replay that returns was asked for by an owner or admin, and it replays the letter once:
  -- whoever of them asks again for the same action, on the table as it is then, is told that there
  -- is no such dead letter.
  pub replay_dead_letter_once :
      (w : RetryWorld W) (tenant id actor role other other_role : String)
      (key other_key : Option String) (q : Queue W) {r : RetryRelease} {q' : Queue W}
      → replay_dead_letter w tenant id actor role key q ≡ ok (r, q')
      → member other_role approver_roles ≡ true
      → (member role approver_roles ≡ true)
        × (replay_dead_letter w tenant id other other_role other_key q' ≡ raised not_found)
  unfolding replay_dead_letter
  replay_dead_letter_once w tenant id actor role other other_role key other_key q {r} {q'} e m =
      let rows : q'.rows ≡ map (replay_row tenant id) q.rows = ground arith in
      (
        ground arith,
        found_again w tenant id other other_role other_key q' m
            (rw rows (select-replay_row tenant id q.rows)),
      )
