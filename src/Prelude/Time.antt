-- ===== src/Prelude/Time.antt =====
-- Timestamps: whether the `datetime` carries a time zone, and its instant in microseconds.
use Prim.Native.Nat.{ℕ, ◌+◌, ◌*◌}
use mathlib.Core.Bool.{Bool}

pub record Datetime : Type 0 where
  pub tz_aware : Bool
  pub micros : ℕ

-- `now + timedelta(seconds=n)`
abbrev pub add_seconds : Datetime → ℕ → Datetime
add_seconds t n = record t { micros = t.micros + n * 1000000 }
