-- ===== src/StateMachine.antt =====
-- The life of a proposed change (services/actions/state_machine.py): the statuses, the table of
-- moves, and one function for each operation. A timestamp is a number of microseconds. The text of
-- a TransitionError is its constructor; the `error` column of an action is a text, as stored.
mod Defs
pub mod Op
pub mod Moves
pub mod Windows
pub mod Drift
pub mod History
unfoldable pub use Defs.*
