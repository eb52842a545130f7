-- ===== src/Delivery/Retries.antt =====
-- When a delivery is tried again.
use amz_command_center.Base.{arith, ok, suc, zero, ℕ, ◌*◌, ◌+◌, ◌^◌, ◌≡◌, ◌≤◌}
use amz_command_center.ApplyGuardrails.{aware}
use amz_command_center.Delivery.Defs.{minute, retry_at, retry_minutes}

pow_grows : (k : ℕ) → (1 ≤ 5 ^ k) × (5 ^ k ≤ 5 ^ suc k)
pow_grows zero = (omega arith, omega arith)
pow_grows (suc k) = let (a, b) = pow_grows k in (omega arith, omega arith)

-- The attempts of a delivery from the first on wait for a minute at least and six hours at most, and
-- each waits no less than the one before it.
pub retry_at_backoff :
    (attempt now : ℕ)
    → 1 ≤ attempt
    → (t : ℕ) × (t' : ℕ) × (retry_at attempt (aware now) ≡ ok t)
      × (retry_at (suc attempt) (aware now) ≡ ok t')
      × (now + minute ≤ t)
      × (t ≤ t')
      × (t' ≤ now + 360 * minute)
unfolding retry_at
retry_at_backoff zero now h = ground arith
retry_at_backoff (suc k) now h =
    let (a, b) = pow_grows k in
    (
      now + retry_minutes (suc k) * minute,
      now + retry_minutes (suc (suc k)) * minute,
      ground arith,
      ground arith,
      ground arith,
      ground arith,
      ground arith,
    )
