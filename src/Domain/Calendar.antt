-- ===== src/Domain/Calendar.antt =====
-- Dates of Python's `datetime`, in one time zone: their fields, and the arithmetic that
-- domain/repeat_order.py uses (`value + timedelta(days=n)`, `calendar.monthrange`, `replace`).
pub mod Days
use shema_business_platform.Prelude.{
  ℕ, zero, suc, ◌+◌, ◌-◌, ◌*◌, ◌/◌, ◌%◌, min, Bool, true, false, not, ◌&&◌, ◌||◌, String,
  value_error, overflow_error, Result, ok, err, ◌>>=◌, ◌>>◌, raise_if, str_of, format, [], ◌∷◌, ltb,
  leb, ◌==◌, if◌then◌else◌,
}

-- `datetime`: whether it has a time zone, the date, and the microseconds of the day.
pub record Timestamp : Type 0 where
  pub tz_aware : Bool
  pub year : ℕ
  pub month : ℕ
  pub day : ℕ
  pub time : ℕ

abbrev pub is_leap : ℕ → Bool
is_leap y = (y % 4 == 0 && not (y % 100 == 0)) || y % 400 == 0

-- `calendar.monthrange(year, month)[1]`
unfoldable pub month_length : ℕ → ℕ → ℕ
month_length y m =
    if m == 2
    then (if is_leap y then 29 else 28)
    else if m == 4 || m == 6 || m == 9 || m == 11
    then 30
    else 31

unfoldable pub next_day : Timestamp → Timestamp
unfolding month_length
next_day t =
    if ltb t.day (month_length t.year t.month)
    then record t { day = t.day + 1 }
    else if ltb t.month 12
    then record t { month = t.month + 1; day = 1 }
    else record t { year = t.year + 1; month = 1; day = 1 }

abbrev pub next_days : ℕ → Timestamp → Timestamp
next_days zero t = t
next_days (suc n) t = next_days n (next_day t)

-- `value + timedelta(days=n)`
unfoldable pub add_days : ℕ → Timestamp → Result Timestamp
unfolding next_day
add_days n t =
    let later = next_days n t in
    if ltb 999_999_999 n
    then err (overflow_error "timedelta out of range")
    else if ltb 9999 later.year
    then err (overflow_error "date value out of range")
    else ok later

-- The date `n` months later, on the same day or the last one of a shorter month.
unfoldable pub add_months : ℕ → Timestamp → Result Timestamp
unfolding month_length
add_months n t = do
  let index = t.month - 1 + n
  let year = t.year + index / 12
  let month = index % 12 + 1
  raise_if (ltb 9999 year) (value_error (format ("year " ∷ str_of year ∷ " is out of range" ∷ [])))
  ok (record t { year = year; month = month; day = min t.day (month_length year month) })
