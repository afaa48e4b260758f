-- ===== src/Domain/Calendar/Days.antt =====
-- Dates as day numbers: what a day or a month later means.
use shema_business_platform.Prelude.{
  ℕ, zero, suc, ◌+◌, ◌-◌, ◌*◌, ◌/◌, ◌≤◌, ◌≡◌, ◌∙◌, refl, inl, inr, arith, ltb, if◌then◌else◌,
  Bool-cases,
}
use shema_business_platform.Domain.Calendar.{Timestamp, is_leap, month_length, next_day, next_days}

-- A date that exists.
pub record IsDate (t : Timestamp) : Type 0 where
  pub year_pos : 1 ≤ t.year
  pub month_low : 1 ≤ t.month
  pub month_high : t.month ≤ 12
  pub day_low : 1 ≤ t.day
  pub day_high : t.day ≤ month_length t.year t.month

-- The days of a year before a month.
abbrev pub before_month : ℕ → ℕ → ℕ
before_month y zero = 0
before_month y (suc zero) = 0
before_month y (suc (suc m)) = before_month y (suc m) + month_length y (suc m)

-- The days before a year.
abbrev pub before_year : ℕ → ℕ
before_year y = (y - 1) * 365 + (y - 1) / 4 - (y - 1) / 100 + (y - 1) / 400

-- `toordinal`: the number of a date, 1 January of the year 1 being day 1.
unfoldable pub ordinal : Timestamp → ℕ
unfolding month_length
ordinal t = before_year t.year + before_month t.year t.month + t.day

year_days : (y : ℕ) → before_month y 12 + month_length y 12 ≡ (if is_leap y then 366 else 365)
unfolding month_length
year_days y = elim (Bool-cases (is_leap y)) [ inl e ↦ rw e refl | inr e ↦ rw e refl ]

next_year : (y : ℕ) → 1 ≤ y → before_year (y + 1) ≡ before_year y + (if is_leap y then 366 else 365)
next_year y h = ground arith

next_month : (y m : ℕ) → 1 ≤ m → before_month y (m + 1) ≡ before_month y m + month_length y m
next_month y zero h = absurd (omega arith)
next_month y (suc m) h = let e : suc m + 1 ≡ suc (suc m) = omega arith in rw e refl

next_day-IsDate : (t : Timestamp) → IsDate t → IsDate (next_day t)
unfolding next_day
next_day-IsDate t h = ground arith

ordinal-next_day : (t : Timestamp) → IsDate t → ordinal (next_day t) ≡ ordinal t + 1
unfolding next_day ordinal
ordinal-next_day t h = elim (Bool-cases (ltb t.day (month_length t.year t.month))) [
  | inl same ↦ rw same (omega arith)
  | inr last ↦
      let full : t.day ≡ month_length t.year t.month = ground arith in
      elim (Bool-cases (ltb t.month 12)) [
        | inl within ↦
            rw (last, within) (omega (arith, next_month t.year t.month h.month_low, full))
        | inr december ↦
            let twelve : t.month ≡ 12 = ground arith in
            rw (last, december, full, twelve)
              (omega (arith, next_year t.year h.year_pos, year_days t.year))
      ]
]

pub next_days_lem :
    (n : ℕ) (t : Timestamp)
    → IsDate t
    → IsDate (next_days n t) × (ordinal (next_days n t) ≡ ordinal t + n)
next_days_lem zero t h = (h, omega arith)
next_days_lem (suc n) t h =
    let (good, count) = next_days_lem n (next_day t) (next_day-IsDate t h) in
    (good, omega (arith, count, ordinal-next_day t h))

pub next_days_time :
    (n : ℕ) (t : Timestamp)
    → ((next_days n t).time ≡ t.time) × ((next_days n t).tz_aware ≡ t.tz_aware)
next_days_time zero t = (refl, refl)
next_days_time (suc n) t =
    let (time, zone) = next_days_time n (next_day t) in
    (time ∙ (unfold next_day in ground arith), zone ∙ (unfold next_day in ground arith))

pub month_length_pos : (y m : ℕ) → 28 ≤ month_length y m
unfolding month_length
month_length_pos y m = ground arith
