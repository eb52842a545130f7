-- ===== src/Tests/Retry.antt =====
-- One failed bid change that is due for a retry, and the same as a dead letter.
use amz_command_center.Base.{
  Among, raised, ◌⊎◌, All, List, [], arith, false, length, map, member, none, ok, opt_str_eq, refl,
  some, sort_by, ◌∷◌, ◌≡◌, ◌≤◌,
}
use amz_command_center.Number.{Ticks, ticks}
use amz_command_center.Samples.{bid_change, one_stamp, same_case, ticks_repr, token_redactor}
use amz_command_center.StateMachine.{failed, status_eq}
use amz_command_center.Audit.{append_event, retry_scheduled}
use amz_command_center.Retry.{
  entity_taken, is_taken, Failing, Queue, RetryWorld, due_rows, is_due, release_all,
  release_due_retries, release_of, release_row, replay_dead_letter, replay_row, retry_event,
}
use amz_command_center.Retry.Release.{IsRefused, IsDue, release_due_retries-IsDue, released}

abbrev world : RetryWorld Ticks
world = record {
  redactor = token_redactor;
  show = λ n. "1";
  new_key = "k-1";
  is_locked = λ row. false;
}

abbrev failed_row : Failing Ticks
failed_row = record {
  action = record bid_change {
    status = failed;
    approved_by = some "u-owner";
    approved_at = some 1;
  };
  idempotency_key = "i-1";
  retry_count = 1;
  failure_classification = some "transient";
  next_attempt_at = some 5;
  last_retry_at = none;
  dead_lettered_at = none;
  dead_letter_reason = none;
  replay_count = 0;
}

abbrev dead_row : Failing Ticks
dead_row = record failed_row {
  next_attempt_at = none;
  dead_lettered_at = some 6;
  dead_letter_reason = some "retries";
}

abbrev due : Queue Ticks
due = record { rows = failed_row ∷ []; journal = [] }

abbrev dead : Queue Ticks
dead = record { rows = dead_row ∷ []; journal = [] }

release_lem :
    (q' : Queue Ticks) × (release_due_retries world "t-1" 25 9 none due
      ≡ ok (record { action_id = "a-1"; attempt = 1 } ∷ [], q'))
unfolding release_due_retries due_rows is_due sort_by release_all release_row status_eq opt_str_eq
    is_taken
release_lem = (_, refl)

release_due_retries-IsDue_example :
    (chosen : List (Failing Ticks)) × (length chosen ≤ 25)
    × All (IsDue world "t-1" 9 due.rows) chosen
    × ((length chosen ≡ 25)
        ⊎ All (λ row. IsDue world "t-1" 9 due.rows row → Among row chosen) due.rows)
    × (((q' : Queue Ticks) × (release_due_retries world "t-1" 25 9 none due
            ≡ ok (map release_of chosen, q'))
          × (q'.rows ≡ map (released "t-1" 9 chosen) due.rows))
        ⊎ ((release_due_retries world "t-1" 25 9 none due ≡ raised entity_taken)
            × IsRefused "t-1" 9 chosen due.rows))
release_due_retries-IsDue_example =
    release_due_retries-IsDue world "t-1" 25 9 none due (omega arith)

-- Two failed changes of one keyword are due: the second one is refused, and nothing is released.
abbrev second_row : Failing Ticks
second_row = record failed_row { action = record failed_row.action { id = "a-2" } }

taken_lem :
    release_due_retries world "t-1" 25 9 none (record due { rows = failed_row ∷ second_row ∷ [] })
    ≡ raised entity_taken
unfolding release_due_retries due_rows is_due sort_by release_all release_row status_eq opt_str_eq
    is_taken
taken_lem = refl

abbrev replayed : Queue Ticks
replayed = record {
  rows = replay_row "t-1" "a-1" dead_row ∷ [];
  journal =
      append_event ⦃r = token_redactor⦄
        (retry_event dead_row retry_scheduled "user" "u-owner" "run-2" "retry:1:replay:u-owner") [];
}

replay_lem :
    replay_dead_letter world "t-1" "a-1" "u-owner" "owner" (some "run-2") dead
    ≡ ok (record { action_id = "a-1"; attempt = 1 }, replayed)
unfolding replay_dead_letter member is_taken
replay_lem = refl
