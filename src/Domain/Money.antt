-- ===== src/Domain/Money.antt =====
-- domain/money.py: amounts in a currency. An amount is its cents, the decimal that the constructor
-- has quantized. Decimals have the precision of Python's default context, 28 digits.
pub mod Rounding
pub mod Stable
use Prim.Native.Char.{Char, code}
use shema_business_platform.Prelude.{
  ℕ, zero, suc, ◌+◌, ◌-◌, ◌*◌, ◌/◌, ◌%◌, ◌^◌, Bool, true, false, not, ◌&&◌, ◌||◌, Option, none,
  some, List, [], ◌∷◌, String, value_error, invalid_operation, Result, ok, err, ◌>>=◌, ◌>>◌,
  raise_if, ltb, leb, ◌==◌, str_eq, strip, if◌then◌else◌,
}
use shema_business_platform.Prelude.Int.{
  ℤ, pos, negsuc, magnitude, is_negative, signed, ◌+ℤ◌, ◌-ℤ◌, ◌*ℤ◌, eq_ℤ,
}

-- `Decimal`: `finite c s` is c / 10 ^ s. A value with a positive exponent is written out, s = 0.
pub data Decimal : Type 0 where
  finite : ℤ → ℕ → Decimal
  infinite : Bool → Decimal
  nan : Decimal

abbrev pub is_finite : Decimal → Bool
is_finite (finite c s) = true
is_finite (infinite negative) = false
is_finite nan = false

-- `value <= 0`, which raises on a NaN.
abbrev pub is_nonpositive : Decimal → Result Bool
is_nonpositive (finite c s) = ok (is_negative c || magnitude c == 0)
is_nonpositive (infinite negative) = ok negative
is_nonpositive nan = err invalid_operation

-- The context's precision: numbers below this have at most 28 digits.
abbrev pub precision : ℕ
precision = 10_000_000_000_000_000_000_000_000_000

-- c / 10 ^ s in units of 10 ^ -t, halves away from zero: ROUND_HALF_UP of the magnitude.
unfoldable pub half_up : ℕ → ℕ → ℕ → ℕ
half_up t c s = let d = 10 ^ (s - t) in if leb s t then c * 10 ^ (t - s) else (2 * c + d) / (2 * d)

-- `amount.quantize(Decimal("0.01"), rounding=ROUND_HALF_UP)`
unfoldable pub quantize : ℤ → ℕ → Result ℤ
unfolding half_up
quantize c s =
    let cents = half_up 2 (magnitude c) s in
    if leb precision cents then err invalid_operation else ok (signed (is_negative c) cents)

-- How many digits of the number stand beyond the 28 of the context; a number has at most as many
-- digits as it counts.
unfoldable pub excess : ℕ → ℕ → ℕ
excess zero c = 0
excess (suc fuel) c = let more = suc (excess fuel (c / 10)) in if ltb c precision then 0 else more

-- c / d to the nearest, halves to even.
unfoldable pub half_even : ℕ → ℕ → ℕ
half_even c d =
    if ltb (2 * (c % d)) d
    then c / d
    else if ltb d (2 * (c % d))
    then c / d + 1
    else c / d + (c / d) % 2

-- The result of an operation, rounded to the context's precision.
unfoldable pub limited : ℕ → ℕ → ℕ × ℕ
unfolding excess half_even
limited c s =
    let k = excess (suc c) c in
    let kept = half_even c (10 ^ k) in
    if ltb c precision then (c, s) else if leb k s then (kept, s - k) else (kept * 10 ^ (k - s), 0)

-- `left * right`
unfoldable pub times : ℤ → ℤ → ℕ → Decimal
unfolding limited ◌*ℤ◌
times a c s =
    let (m, t) = limited (magnitude a * magnitude c) (2 + s) in
    finite (signed (is_negative (a *ℤ c)) m) t

-- The character at a position, as a text.
abbrev pub letter_at : String → ℕ → String
letter_at String.[] n = String.[]
letter_at (String.◌∷◌ c s) zero = String.◌∷◌ c String.[]
letter_at (String.◌∷◌ c s) (suc n) = letter_at s n

-- Beside the ASCII letters, the characters whose upper case is made of ASCII letters; every other
-- character stays outside the letters of ASCII, which the constructor refuses.
abbrev pub specials : List (ℕ × String)
specials =
    (223, "SS")
    ∷ (305, "I")
    ∷ (383, "S")
    ∷ (64256, "FF")
    ∷ (64257, "FI")
    ∷ (64258, "FL")
    ∷ (64259, "FFI")
    ∷ (64260, "FFL")
    ∷ (64261, "ST")
    ∷ (64262, "ST")
    ∷ []

abbrev pub listed_or : List (ℕ × String) → ℕ → String → String
listed_or [] n other = other
listed_or ((k, s) ∷ rows) n other = if n == k then s else listed_or rows n other

-- The upper case of a character.
unfoldable pub upper_char : Char → String
upper_char c =
    let n = code c in
    if leb 97 n && leb n 122
    then letter_at "ABCDEFGHIJKLMNOPQRSTUVWXYZ" (n - 97)
    else listed_or specials n (String.◌∷◌ c String.[])

-- A text before another, by recursion.
abbrev pub before : String → String → String
before String.[] t = t
before (String.◌∷◌ c s) t = String.◌∷◌ c (before s t)

-- `str.upper`
unfoldable pub upper : String → String
unfolding upper_char
upper String.[] = String.[]
upper (String.◌∷◌ c s) = before (upper_char c) (upper s)

-- `currency.isascii() and currency.isalpha()`, of a text that is not empty.
unfoldable pub is_letters : String → Bool
is_letters String.[] = true
is_letters (String.◌∷◌ c s) =
    let n = code c in ((leb 65 n && leb n 90) || (leb 97 n && leb n 122)) && is_letters s

abbrev pub text_length : String → ℕ
text_length String.[] = 0
text_length (String.◌∷◌ c s) = suc (text_length s)

pub record Money : Type 0 where
  pub amount : ℤ
  pub currency : String

abbrev pub money_eq : Money → Money → Bool
money_eq a b = eq_ℤ a.amount b.amount && str_eq a.currency b.currency

-- `amount.quantize(...)` of a decimal that is finite.
abbrev pub cents_of : Decimal → Result ℤ
cents_of (finite c s) = quantize c s
cents_of (infinite negative) = err (value_error "amount must be finite")
cents_of nan = err (value_error "amount must be finite")

-- `Money(amount, currency)` with its `__post_init__`; the amount is what `Decimal(str(amount))`
-- yields, nothing where it raises.
unfoldable pub new_money : Option Decimal → String → Result Money
unfolding upper is_letters strip quantize
new_money none currency = err (value_error "amount must be a valid decimal")
new_money (some d) currency = do
  let name = upper (strip currency)
  raise_if (not (is_finite d)) (value_error "amount must be finite")
  raise_if (not (text_length name == 3) || not (is_letters name))
      (value_error "currency must be a 3-letter ASCII code")
  cents ← cents_of d
  ok (record { amount = cents; currency = name })

-- The decimal of an amount that has been quantized.
abbrev pub decimal_of : Money → Decimal
decimal_of m = finite m.amount 2

abbrev pub require_same_currency : Money → Money → Result (Unit {0})
require_same_currency a b =
    raise_if (not (str_eq a.currency b.currency)) (value_error "currency mismatch")

-- A sum beyond the context's precision is refused by the quantization either way.
unfoldable pub add : Money → Money → Result Money
unfolding new_money
add a b = do
  require_same_currency a b
  new_money (some (finite (a.amount +ℤ b.amount) 2)) a.currency

unfoldable pub subtract : Money → Money → Result Money
unfolding new_money
subtract a b = do
  require_same_currency a b
  new_money (some (finite (a.amount -ℤ b.amount) 2)) a.currency

-- `self.amount * quantity` of a quantity that is positive.
unfoldable pub product : ℤ → Decimal → Result Decimal
unfolding times
product a (finite c s) = ok (times a c s)
product a (infinite negative) =
    if magnitude a == 0 then err invalid_operation else ok (infinite (is_negative a))
product a nan = ok nan

unfoldable pub multiply : Money → Decimal → Result Money
unfolding new_money product
multiply m quantity = do
  small ← is_nonpositive quantity
  raise_if small (value_error "quantity must be positive")
  d ← product m.amount quantity
  new_money (some d) m.currency
