-- ===== src/Domain/Money/Stable.antt =====
-- An amount that the constructor has made is made again from what is stored of it.
use Prim.Native.Char.{Char, code}
use shema_business_platform.Prelude.{
  ℕ, zero, suc, ◌-◌, ◌≤◌, ◌<◌, ◌≡◌, ◌∙◌, refl, ap, inl, inr, Bool, true, not, ◌&&◌, Option, none,
  some, String, ok, leb, strip, lstrip, rstrip, List, [], ◌∷◌, Result-cases, Bool-cases, arith,
}
use shema_business_platform.Prelude.Int.{ℤ, pos, magnitude, ◌*ℤ◌}
use shema_business_platform.Domain.Money.{
  Decimal, finite, infinite, nan, precision, half_up, quantize, Money, new_money, cents_of, before,
  specials, listed_or, upper_char, upper, letter_at, is_letters, text_length,
}
use shema_business_platform.Domain.Money.Rounding.{signed_self, quantize_small, new_money-cents}

-- Upper-case letters of ASCII only.
abbrev pub IsUpper : String → Type 0
IsUpper String.[] = Unit
IsUpper (String.◌∷◌ c s) = (65 ≤ code c) × (code c ≤ 90) × IsUpper s

upper_char_self : (c : Char) → 65 ≤ code c → code c ≤ 90 → upper_char c ≡ String.◌∷◌ c String.[]
unfolding upper_char
upper_char_self c low high = ground arith

upper-IsUpper : (s : String) → IsUpper s → upper s ≡ s
unfolding upper
upper-IsUpper String.[] h = refl
upper-IsUpper (String.◌∷◌ c s) h =
    rw (upper_char_self c h.0 h.1) (ap (String.◌∷◌ c) (upper-IsUpper s h.2))

lstrip-IsUpper : (s : String) → IsUpper s → lstrip s ≡ s
unfolding lstrip
lstrip-IsUpper String.[] h = refl
lstrip-IsUpper (String.◌∷◌ c s) h = ground arith

rstrip-IsUpper : (s : String) → IsUpper s → rstrip s ≡ s
unfolding rstrip
rstrip-IsUpper String.[] h = refl
rstrip-IsUpper (String.◌∷◌ c s) h = ground (arith, rstrip-IsUpper s h.2)

abbrev is_lower : Char → Bool
is_lower c = leb 97 (code c) && leb (code c) 122

-- No lower-case letter of ASCII.
not_lower : String → Bool
not_lower String.[] = true
not_lower (String.◌∷◌ c s) = not (is_lower c) && not_lower s

not_lower-before :
    (s t : String) → not_lower s ≡ true → not_lower t ≡ true → not_lower (before s t) ≡ true
unfolding not_lower
not_lower-before String.[] t h k = k
not_lower-before (String.◌∷◌ c s) t h k = ground (arith, not_lower-before s t)

not_lower-letter_at : (s : String) (n : ℕ) → not_lower s ≡ true → not_lower (letter_at s n) ≡ true
unfolding not_lower
not_lower-letter_at String.[] n h = refl
not_lower-letter_at (String.◌∷◌ c s) zero h = ground arith
not_lower-letter_at (String.◌∷◌ c s) (suc n) h = ground (arith, not_lower-letter_at s n)

alphabet : not_lower "ABCDEFGHIJKLMNOPQRSTUVWXYZ" ≡ true
unfolding not_lower
alphabet = refl

all_upper : List (ℕ × String) → Bool
all_upper [] = true
all_upper ((k, s) ∷ rows) = not_lower s && all_upper rows

not_lower-listed_or :
    (rows : List (ℕ × String)) (n : ℕ) (other : String)
    → all_upper rows ≡ true
    → not_lower other ≡ true
    → not_lower (listed_or rows n other) ≡ true
unfolding all_upper
not_lower-listed_or [] n other h k = k
not_lower-listed_or ((j, s) ∷ rows) n other h k = ground (arith, not_lower-listed_or rows n other)

specials_upper : all_upper specials ≡ true
unfolding all_upper not_lower
specials_upper = refl

not_lower-upper_char : (c : Char) → not_lower (upper_char c) ≡ true
unfolding upper_char
not_lower-upper_char c = elim (Bool-cases (is_lower c)) [
  | inl low ↦ rw low (not_lower-letter_at "ABCDEFGHIJKLMNOPQRSTUVWXYZ" (code c - 97) alphabet)
  | inr other ↦ rw other (
      not_lower-listed_or specials (code c) (String.◌∷◌ c String.[]) specials_upper
        (unfold not_lower in ground arith))
]

not_lower-upper : (s : String) → not_lower (upper s) ≡ true
unfolding upper not_lower
not_lower-upper String.[] = refl
not_lower-upper (String.◌∷◌ c s) =
    not_lower-before (upper_char c) (upper s) (not_lower-upper_char c) (not_lower-upper s)

letters-IsUpper : (s : String) → is_letters s ≡ true → not_lower s ≡ true → IsUpper s
unfolding is_letters not_lower
letters-IsUpper String.[] h k = tt
letters-IsUpper (String.◌∷◌ c s) h k =
    (ground arith, ground arith, letters-IsUpper s (ground arith) (ground arith))

pub new_money_currency :
    (d : Option Decimal) (currency : String) (m : Money)
    → new_money d currency ≡ ok m
    → (m.currency ≡ upper (strip currency))
      × (is_letters m.currency ≡ true)
      × (text_length m.currency ≡ 3)
unfolding new_money
new_money_currency none currency m h = cc
new_money_currency (some d) currency m h = elim (Result-cases (cents_of d)) [
  | inl (z, done) ↦ (ground arith, ground arith, ground arith)
  | inr (e, raised) ↦ absurd (ground arith)
]

-- What the constructor has checked: the amount fits the precision, the currency is three
-- upper-case letters.
pub record IsMoney (m : Money) : Type 0 where
  pub fits : magnitude m.amount < precision
  pub letters : is_letters m.currency ≡ true
  pub upper_case : IsUpper m.currency
  pub three : text_length m.currency ≡ 3

cents_fit : (d : Decimal) (z : ℤ) → cents_of d ≡ ok z → magnitude z < precision
unfolding quantize
cents_fit (finite c s) z h = ground arith
cents_fit (infinite b) z h = cc
cents_fit nan z h = cc

pub new_money-IsMoney :
    (d : Option Decimal) (currency : String) (m : Money) → new_money d currency ≡ ok m → IsMoney m
new_money-IsMoney none currency m h = absurd (unfold new_money in cc)
new_money-IsMoney (some d) currency m h =
    let (name, letters, three) = new_money_currency (some d) currency m h in
    record {
      fits = cents_fit d m.amount (new_money-cents d currency m h);
      letters = letters;
      upper_case =
          letters-IsUpper m.currency letters (ap not_lower name ∙ not_lower-upper (strip currency));
      three = three;
    }

pub quantize_column : (c : ℤ) → magnitude c < precision → quantize (c *ℤ pos 1_000_000) 8 ≡ ok c
unfolding quantize half_up ◌*ℤ◌
quantize_column c h = ground (arith, signed_self c)

strip-IsUpper : (s : String) → IsUpper s → strip s ≡ s
unfolding strip
strip-IsUpper s h = ap rstrip (lstrip-IsUpper s h) ∙ rstrip-IsUpper s h

-- Any decimal whose cents are those of the amount makes the same money again.
pub remade :
    (m : Money) (d : Decimal)
    → IsMoney m
    → cents_of d ≡ ok m.amount
    → new_money (some d) m.currency ≡ ok m
unfolding new_money
remade m (finite c s) h cents = ground (
  arith,
  ap upper (strip-IsUpper m.currency h.upper_case) ∙ upper-IsUpper m.currency h.upper_case,
)
remade m (infinite b) h cents = cc
remade m nan h cents = cc

-- An amount read back from a column with eight decimals, or from its cents, is the amount stored:
-- the constructor, given a money's currency and its value at either scale, makes that money.
pub stored_money :
    (d : Option Decimal) (currency : String) (m : Money)
    → new_money d currency ≡ ok m
    → (new_money (some (finite m.amount 2)) m.currency ≡ ok m)
      × (new_money (some (finite (m.amount *ℤ pos 1_000_000) 8)) m.currency ≡ ok m)
stored_money d currency m h =
    let good = new_money-IsMoney d currency m h in
    (
      remade m (finite m.amount 2) good (quantize_small m.amount good.fits),
      remade m (finite (m.amount *ℤ pos 1_000_000) 8) good (quantize_column m.amount good.fits),
    )
