-- ===== src/Prelude/Int.antt =====
-- Signed integers over the native numbers, under the library's names (its ℤ stands on another ℕ).
use Prim.Native.Nat.{ℕ, suc, ◌+◌, ◌-◌, ◌*◌}
use mathlib.Core.Path.{◌≡◌}
use mathlib.Core.Logic.{◌↔◌}
use mathlib.Core.Bool.{Bool, true, false, not}
use native.Mathlib.Omega.{arith}
use shema_business_platform.Prelude.Tests.{ltb, ◌==◌, if◌then◌else◌}

-- `negsuc n` stands for -(n + 1).
pub data ℤ : Type 0 where
  pos : ℕ → ℤ
  negsuc : ℕ → ℤ

abbrev pub magnitude : ℤ → ℕ
magnitude (negsuc n) = suc n
magnitude (pos n) = n

abbrev pub is_negative : ℤ → Bool
is_negative (negsuc n) = true
is_negative (pos n) = false

-- A sign and a magnitude; there is one zero.
abbrev pub signed : Bool → ℕ → ℤ
signed negative n = if negative then (if n == 0 then pos 0 else negsuc (n - 1)) else pos n

-- What counts for, and what counts against.
abbrev pub gain : ℤ → ℕ
gain (negsuc n) = 0
gain (pos n) = n

abbrev pub loss : ℤ → ℕ
loss (negsuc n) = suc n
loss (pos n) = 0

infixl 65 ◌+ℤ◌ ◌-ℤ◌
infixl 70 ◌*ℤ◌
unfoldable pub ◌+ℤ◌ : ℤ → ℤ → ℤ
x +ℤ y =
    let up = gain x + gain y in
    let down = loss x + loss y in if ltb up down then negsuc (down - up - 1) else pos (up - down)

unfoldable pub ◌-ℤ◌ : ℤ → ℤ → ℤ
unfolding ◌+ℤ◌
x -ℤ y = x +ℤ signed (not (is_negative y)) (magnitude y)

unfoldable pub ◌*ℤ◌ : ℤ → ℤ → ℤ
x *ℤ y =
    signed (if is_negative x then not (is_negative y) else is_negative y)
      (magnitude x * magnitude y)

abbrev pub eq_ℤ : ℤ → ℤ → Bool
eq_ℤ (pos m) (pos n) = m == n
eq_ℤ (negsuc m) (negsuc n) = m == n
eq_ℤ _ _ = false

pub +ℤ-gain : (x y : ℤ) → gain (x +ℤ y) + loss x + loss y ≡ loss (x +ℤ y) + gain x + gain y
unfolding ◌+ℤ◌
+ℤ-gain x y = ground arith

pub -ℤ-gain : (x y : ℤ) → gain (x -ℤ y) + loss x + gain y ≡ loss (x -ℤ y) + gain x + loss y
unfolding ◌-ℤ◌
-ℤ-gain x y = ground arith

pub ℤ_ext : (x y : ℤ) → gain x + loss y ≡ gain y + loss x → x ≡ y
ℤ_ext x y h = ground arith

pub ruleset sums = (arith, +ℤ-gain, -ℤ-gain, ℤ_ext)

pub eq_ℤ_iff : (x y : ℤ) → (eq_ℤ x y ≡ true) ↔ (x ≡ y)
eq_ℤ_iff x y = ground arith
