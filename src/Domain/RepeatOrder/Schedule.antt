-- ===== src/Domain/RepeatOrder/Schedule.antt =====
-- The schedule of a plan: how far the next occurrence lies from the last one.
use shema_business_platform.Prelude.{ℕ, ◌+◌, ◌*◌, ◌≤◌, min, ◌≡◌, ◌∙◌, true, ok, arith}
use shema_business_platform.Domain.Calendar.{
  Timestamp, month_length, next_days, add_days, add_months,
}
use shema_business_platform.Domain.Calendar.Days.{
  IsDate, ordinal, next_days_lem, next_days_time, month_length_pos,
}
use shema_business_platform.Domain.RepeatOrder.{
  RepeatCadence, RepeatCadenceUnit, day, week, month, next_after, step_by,
}

-- The timestamp lies `n` units later: days and weeks by the number of the day, months by the
-- number of the month, on the same day or the last of a shorter month.
abbrev pub Elapsed : RepeatCadenceUnit → ℕ → Timestamp → Timestamp → Type 0
Elapsed day n t u = ordinal u ≡ ordinal t + n
Elapsed week n t u = ordinal u ≡ ordinal t + 7 * n
Elapsed month n t u =
    (u.year * 12 + u.month ≡ t.year * 12 + t.month + n)
    × (u.day ≡ min t.day (month_length u.year u.month))

abbrev Later : RepeatCadenceUnit → ℕ → Timestamp → Timestamp → Type 0
Later k n t u =
    IsDate u × (u.time ≡ t.time) × (u.tz_aware ≡ t.tz_aware) × (u.year ≤ 9999) × Elapsed k n t u

add_days_lem : (n : ℕ) (t u : Timestamp) → IsDate t → add_days n t ≡ ok u → Later day n t u
unfolding add_days
add_days_lem n t u h e =
    let (good, count) = next_days_lem n t h in
    let (time, zone) = next_days_time n t in
    let same : next_days n t ≡ u = ground arith in
    rw (← same) (good, time, zone, ground arith, count)

add_months_lem : (n : ℕ) (t u : Timestamp) → IsDate t → add_months n t ≡ ok u → Later month n t u
unfolding add_months
add_months_lem n t u h e = let long = month_length_pos u.year u.month in ground arith

step_by_lem :
    (k : RepeatCadenceUnit) (n : ℕ) (t u : Timestamp)
    → IsDate t
    → step_by k n t ≡ ok u
    → Later k n t u
step_by_lem day n t u h e = add_days_lem n t u h e
step_by_lem week n t u h e =
    let (good, time, zone, year, count) = add_days_lem (n * 7) t u h e in
    (good, time, zone, year, omega (arith, count))
step_by_lem month n t u h e = add_months_lem n t u h e

-- The next occurrence of a cadence is a date that exists, at the same time of the day, at most in the year
-- 9999, and the cadence's number of days, weeks or months later.
pub next_after_lem :
    (c : RepeatCadence) (t u : Timestamp)
    → IsDate t
    → next_after c t ≡ ok u
    → IsDate u
      × (u.time ≡ t.time)
      × (u.tz_aware ≡ true)
      × (u.year ≤ 9999)
      × Elapsed c.unit c.interval t u
unfolding next_after
next_after_lem c t u h e =
    let zone : t.tz_aware ≡ true = ground arith in
    let (good, time, same, year, elapsed) = step_by_lem c.unit c.interval t u h (ground arith) in
    (good, time, same ∙ zone, year, elapsed)
