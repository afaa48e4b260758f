-- ===== src/Foundation/Recovery/Delay.antt =====
-- The backoff grows with the attempts and stays below its cap.
use native.Mathlib.Nat.{add-suc, add-zero, pow-suc}
use shema_business_platform.Prelude.{
  ℕ, zero, suc, ◌+◌, ◌-◌, ◌*◌, ◌^◌, ◌≤◌, ◌<◌, ◌≡◌, true, Datetime, ok, arith,
}
use shema_business_platform.Foundation.Recovery.{
  RetryPolicy, new_policy, delay_for, next_available_at,
}

pow_pos : (n : ℕ) → 1 ≤ 2 ^ n
pow_pos zero = omega arith
pow_pos (suc n) = rw pow-suc (omega (arith, pow_pos n))

pow_mono : (m k : ℕ) → 2 ^ m ≤ 2 ^ (m + k)
pow_mono m zero = rw add-zero (omega arith)
pow_mono m (suc k) = rw (add-suc, pow-suc) (omega (arith, pow_mono m k))

pow_le : (m n : ℕ) → m ≤ n → 2 ^ (m - 1) ≤ 2 ^ (n - 1)
pow_le m n h =
    let e : n - 1 ≡ (m - 1) + (n - 1 - (m - 1)) = omega arith in
    rw e (pow_mono (m - 1) (n - 1 - (m - 1)))

scaled : (i m n : ℕ) → 0 < i → m ≤ n → (0 < i * 2 ^ (m - 1)) × (i * 2 ^ (m - 1) ≤ i * 2 ^ (n - 1))
scaled i m n pos h = (grind (arith, pow_pos (m - 1)), grind (arith, pow_le m n h))

-- Under a policy that its constructor accepts, the delay of every attempt is positive and at most
-- the cap, and a later attempt never waits for less.
pub delay_for_bounds :
    (p p' : RetryPolicy) (m n d e : ℕ)
    → new_policy p ≡ ok p'
    → m ≤ n
    → delay_for p m ≡ ok d
    → delay_for p n ≡ ok e
    → (0 < d) × (d ≤ e) × (e ≤ p.max_delay)
unfolding new_policy delay_for
delay_for_bounds p p' m n d e h le hd he = ground (arith, scaled p.initial_delay m n)

-- When a next attempt is scheduled, under a policy that its constructor accepts, the attempt was
-- below the limit, and the time is later than `now` by at most the cap and carries a time zone.
pub next_available_at_later :
    (p p' : RetryPolicy) (attempt : ℕ) (now t : Datetime)
    → new_policy p ≡ ok p'
    → next_available_at p attempt now ≡ ok t
    → (attempt < p.max_attempts)
      × (now.micros < t.micros)
      × (t.micros ≤ now.micros + p.max_delay)
      × (t.tz_aware ≡ true)
unfolding new_policy next_available_at
next_available_at_later p p' attempt now t h e =
    ground (arith, scaled p.initial_delay attempt attempt)
