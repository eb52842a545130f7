-- ===== src/StateMachine/Op.antt =====
-- The calls of the state machine's operations as data, for statements about sequences of calls.
use amz_command_center.Base.{ℕ, Bool, Option, String}
use amz_command_center.Json.{Members}

pub data Op (W : Type 0) : Type 0 where
  approve : String → String → ℕ → Bool → Op W
  reject : String → ℕ → String → Op W
  expire : ℕ → Op W
  apply : ℕ → Option (Members W) → Bool → Option String → Op W
  verify : ℕ → String → Op W
  rollback : ℕ → Bool → Op W
  retry : Op W
