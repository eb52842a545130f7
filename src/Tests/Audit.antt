-- ===== src/Tests/Audit.antt =====
-- The journal of one action that is stored with a token.
use amz_command_center.Base.{[], exists, true, ◌≡◌}
use amz_command_center.Number.{Ticks, ticks}
use amz_command_center.Json.{empty, entry, text}
use amz_command_center.Samples.{bid_change, same_case, ticks_repr, token_redactor}
use amz_command_center.Audit.{ExecutionEvent, append_event, apply_started, event_for, same_key}
use amz_command_center.Audit.Journal.{HidesSecrets, IsUnique, append_event-IsUnique}

abbrev event : ExecutionEvent Ticks
event =
    event_for (record bid_change { after_value = entry "token" (text "abc") empty }) apply_started
      "run-1" "apply:1:run-1:started"

append_event-IsUnique_example :
    IsUnique (append_event event [])
    × HidesSecrets (append_event event [])
    × (exists (same_key event) (append_event event []) ≡ true)
    × (append_event event (append_event event []) ≡ append_event event [])
append_event-IsUnique_example = append_event-IsUnique event [] tt tt
