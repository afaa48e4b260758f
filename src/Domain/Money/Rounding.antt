-- ===== src/Domain/Money/Rounding.antt =====
-- The arithmetic of amounts: sums are exact, products are rounded to the nearest cent.
use native.Mathlib.Nat.{div-mul-le_self, lt-div-mul-add, pow-suc}
use shema_business_platform.Prelude.{
  ℕ, zero, suc, ◌+◌, ◌*◌, ◌/◌, ◌^◌, ◌≤◌, ◌<◌, ◌≡◌, ◌∙◌, sym, ap, inl, inr, Bool, false, some,
  String, ok, str_eq_iff, Result-cases, arith,
}
use shema_business_platform.Prelude.Int.{
  ℤ, pos, negsuc, magnitude, is_negative, signed, ◌+ℤ◌, ◌-ℤ◌, ◌*ℤ◌,
}
use shema_business_platform.Domain.Money.{
  Decimal, finite, precision, half_up, quantize, limited, times, product, Money, new_money,
  cents_of, add, subtract, multiply,
}

pub signed_self : (c : ℤ) → signed (is_negative c) (magnitude c) ≡ c
signed_self c = ground arith

magnitude-signed : (b : Bool) (n : ℕ) → magnitude (signed b n) ≡ n
magnitude-signed b n = ground arith

pub quantize_cents : (c z : ℤ) → quantize c 2 ≡ ok z → z ≡ c
unfolding quantize
quantize_cents c z h = ground (arith, signed_self c)

pub quantize_small : (c : ℤ) → magnitude c < precision → quantize c 2 ≡ ok c
unfolding quantize
quantize_small c h = ground (arith, signed_self c)

quantize-magnitude :
    (c z : ℤ) (s : ℕ) → quantize c s ≡ ok z → magnitude z ≡ half_up 2 (magnitude c) s
unfolding quantize
quantize-magnitude c z s h =
    ground (arith, magnitude-signed (is_negative c) (half_up 2 (magnitude c) s))

pub new_money-cents :
    (d : Decimal) (currency : String) (m : Money)
    → new_money (some d) currency ≡ ok m
    → cents_of d ≡ ok m.amount
unfolding new_money
new_money-cents d currency m h = elim (Result-cases (cents_of d)) [
  | inl (z, done) ↦ ground arith
  | inr (e, raised) ↦ absurd (ground arith)
]

-- A sum or a difference that is returned is exact.
pub add_exact :
    (a b m : Money) → add a b ≡ ok m → (m.amount ≡ a.amount +ℤ b.amount) × (a.currency ≡ b.currency)
unfolding add
add_exact a b m h = (
  quantize_cents (a.amount +ℤ b.amount) m.amount
      (new_money-cents (finite (a.amount +ℤ b.amount) 2) a.currency m (ground arith)),
  ground (arith, str_eq_iff a.currency b.currency),
)

pub subtract_exact :
    (a b m : Money)
    → subtract a b ≡ ok m
    → (m.amount ≡ a.amount -ℤ b.amount) × (a.currency ≡ b.currency)
unfolding subtract
subtract_exact a b m h = (
  quantize_cents (a.amount -ℤ b.amount) m.amount
      (new_money-cents (finite (a.amount -ℤ b.amount) 2) a.currency m (ground arith)),
  ground (arith, str_eq_iff a.currency b.currency),
)

pow_pos : (n : ℕ) → 1 ≤ 10 ^ n
pow_pos zero = omega arith
pow_pos (suc n) = rw pow-suc (omega (arith, pow_pos n))

-- x / (2 d), where x = 2 c + d, is c / d to the nearest.
half_bounds :
    (c d : ℕ)
    → 1 ≤ d
    → let m = (2 * c + d) / (2 * d) in (2 * (m * d) ≤ 2 * c + d) × (2 * c < 2 * (m * d) + d)
half_bounds c d pos_d =
    let m = (2 * c + d) / (2 * d) in
    let below : m * (2 * d) ≤ 2 * c + d = div-mul-le_self (2 * c + d) (2 * d) in
    let above : 2 * c + d < m * (2 * d) + 2 * d = lt-div-mul-add (omega arith) in
    let e : m * (2 * d) ≡ 2 * (m * d) = grind arith in
    (omega (arith, e, below), omega (arith, e, above))

half_up_bounds :
    (c k : ℕ)
    → (2 * (half_up 2 c (2 + k) * 10 ^ k) ≤ 2 * c + 10 ^ k)
      × (2 * c < 2 * (half_up 2 c (2 + k) * 10 ^ k) + 10 ^ k)
unfolding half_up
half_up_bounds c zero = ground arith
half_up_bounds c (suc k) = ground (arith, half_bounds c (10 ^ (suc k)) (pow_pos (suc k)))

times_small :
    (a c : ℤ) (s : ℕ)
    → magnitude a * magnitude c < precision
    → times a c s ≡ finite (signed (is_negative (a *ℤ c)) (magnitude a * magnitude c)) (2 + s)
unfolding times limited
times_small a c s h = ground arith

multiply_cents :
    (m r : Money) (q : ℤ) (s : ℕ)
    → multiply m (finite q s) ≡ ok r
    → (cents_of (times m.amount q s) ≡ ok r.amount) × (is_negative q ≡ false) × (0 < magnitude q)
unfolding multiply product
multiply_cents m r q s h =
    (new_money-cents (times m.amount q s) m.currency r (ground arith), ground arith, ground arith)

quantize-sign : (c z : ℤ) (s : ℕ) → quantize c s ≡ ok z → z ≡ signed (is_negative c) (magnitude z)
unfolding quantize
quantize-sign c z s h = ground (arith, magnitude-signed (is_negative c) (half_up 2 (magnitude c) s))

mul_pos : (m n : ℕ) → 0 < m → 0 < n → 0 < m * n
mul_pos zero n h k = omega arith
mul_pos (suc m) n h k = grind arith

-- A product with a positive number has the sign of the other.
product_sign :
    (a q : ℤ)
    → is_negative q ≡ false
    → 0 < magnitude q
    → is_negative (signed (is_negative (a *ℤ q)) (magnitude a * magnitude q)) ≡ is_negative a
unfolding ◌*ℤ◌
product_sign (pos n) q positive big = ground arith
product_sign (negsuc n) q positive big =
    ground (arith, mul_pos (suc n) (magnitude q) (omega arith) big)

-- The product of an amount and a quantity whose exact product of cents and coefficient has at most 28
-- digits is the exact product rounded to the nearest cent, with halves away from zero: the quantity
-- is positive, the product has the sign of the amount, and the cents r and the exact cents
-- p = c / 10 ^ s satisfy r - 1/2 ≤ p < r + 1/2, in magnitude.
pub multiply_nearest :
    (m r : Money) (q : ℤ) (s : ℕ)
    → magnitude m.amount * magnitude q < precision
    → multiply m (finite q s) ≡ ok r
    → let c = magnitude m.amount * magnitude q in
      (is_negative q ≡ false)
      × (0 < magnitude q)
      × (r.amount ≡ signed (is_negative m.amount) (magnitude r.amount))
      × (2 * (magnitude r.amount * 10 ^ s) ≤ 2 * c + 10 ^ s)
      × (2 * c < 2 * (magnitude r.amount * 10 ^ s) + 10 ^ s)
multiply_nearest m r q s small h =
    let (cents, positive, pos_q) = multiply_cents m r q s h in
    let c = magnitude m.amount * magnitude q in
    let b = is_negative (m.amount *ℤ q) in
    let exact : quantize (signed b c) (2 + s) ≡ ok r.amount =
      sym (ap cents_of (times_small m.amount q s small)) ∙ cents in
    let same : magnitude r.amount ≡ half_up 2 c (2 + s) =
      quantize-magnitude (signed b c) r.amount (2 + s) exact
      ∙ ap (λ (n : ℕ). half_up 2 n (2 + s)) (magnitude-signed b c) in
    let (low, high) = half_up_bounds c s in
    (
      positive,
      pos_q,
      quantize-sign (signed b c) r.amount (2 + s) exact
          ∙ ap (λ (n : Bool). signed n (magnitude r.amount))
              (product_sign m.amount q positive pos_q),
      rw same low,
      rw same high,
    )
