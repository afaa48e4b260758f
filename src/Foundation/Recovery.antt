-- ===== src/Foundation/Recovery.antt =====
-- foundation/recovery.py: when a failed attempt is tried again. The delays, floats of seconds in
-- the code, are whole microseconds, the resolution of `timedelta`.
pub mod Delay
use shema_business_platform.Prelude.{
  ℕ, ◌+◌, ◌-◌, ◌*◌, ◌^◌, min, Bool, not, Datetime, value_error, Result, ok, err, ◌>>=◌, ◌>>◌,
  raise_if, ltb, leb,
}

pub record RetryPolicy : Type 0 where
  pub max_attempts : ℕ
  pub initial_delay : ℕ
  pub max_delay : ℕ

-- The constructor: `RetryPolicy(...)` with its `__post_init__`.
unfoldable pub new_policy : RetryPolicy → Result RetryPolicy
new_policy p = do
  raise_if (ltb p.max_attempts 1) (value_error "max_attempts must be >= 1")
  raise_if (leb p.initial_delay 0) (value_error "initial_delay_seconds must be > 0")
  raise_if (leb p.max_delay 0) (value_error "max_delay_seconds must be > 0")
  ok p

unfoldable pub delay_for : RetryPolicy → ℕ → Result ℕ
delay_for p attempt = do
  raise_if (ltb attempt 1) (value_error "attempt must be >= 1")
  ok (min (p.initial_delay * 2 ^ (attempt - 1)) p.max_delay)

unfoldable pub is_retryable : RetryPolicy → ℕ → Bool
is_retryable p attempt = ltb attempt p.max_attempts

unfoldable pub next_available_at : RetryPolicy → ℕ → Datetime → Result Datetime
unfolding is_retryable delay_for
next_available_at p attempt now = do
  raise_if (not (is_retryable p attempt)) (value_error "retry limit reached")
  raise_if (not now.tz_aware) (value_error "now must be timezone-aware")
  delay ← delay_for p attempt
  ok (record now { micros = now.micros + delay })
