-- ===== src/Domain/Economics/Summary.antt =====
-- The summary of entries against the sums of their amounts.
use shema_business_platform.Prelude.{
  strip, subst, ◌≡◌, ◌∙◌, ap, List, [], ◌∷◌, String, ok, true, false, arith, Result-cases,
  Bool-cases, inl, inr, if◌then◌else◌, All, str_eq_iff, some,
}
use shema_business_platform.Prelude.Int.{ℤ, pos, ◌+ℤ◌, ◌-ℤ◌, sums}
use shema_business_platform.Domain.Money.{Money, new_money, quantize, upper, finite, add}
use shema_business_platform.Domain.Money.Rounding.{add_exact, subtract_exact, new_money-cents}
use shema_business_platform.Domain.Money.Stable.{new_money_currency}
use shema_business_platform.Domain.Economics.{
  EconomicEntry, EconomicsSummary, is_income, count_entry, count_entries, summarize, gross_margin,
}

-- The cents of the entries that count as revenue.
abbrev pub income_of : List EconomicEntry → ℤ
income_of [] = pos 0
income_of (e ∷ es) = if is_income e.kind then e.amount.amount +ℤ income_of es else income_of es

-- The cents of all others.
abbrev pub cost_of : List EconomicEntry → ℤ
cost_of [] = pos 0
cost_of (e ∷ es) = if is_income e.kind then cost_of es else e.amount.amount +ℤ cost_of es

count_entry_income :
    (currency : String) (e : EconomicEntry) (s t : EconomicsSummary)
    → is_income e.kind ≡ true
    → count_entry currency e s ≡ ok t
    → (t.revenue.amount ≡ s.revenue.amount +ℤ e.amount.amount) × (t.costs ≡ s.costs)
unfolding count_entry
count_entry_income currency e s t k h = elim (Result-cases (add s.revenue e.amount)) [
  | inl (m, done) ↦ ground (arith, add_exact s.revenue e.amount m done)
  | inr (x, raised) ↦ absurd (ground arith)
]

count_entry_cost :
    (currency : String) (e : EconomicEntry) (s t : EconomicsSummary)
    → is_income e.kind ≡ false
    → count_entry currency e s ≡ ok t
    → (t.costs.amount ≡ s.costs.amount +ℤ e.amount.amount) × (t.revenue ≡ s.revenue)
unfolding count_entry
count_entry_cost currency e s t k h = elim (Result-cases (add s.costs e.amount)) [
  | inl (m, done) ↦ ground (arith, add_exact s.costs e.amount m done)
  | inr (x, raised) ↦ absurd (ground arith)
]

count_entry_currency :
    (currency : String) (e : EconomicEntry) (s t : EconomicsSummary)
    → count_entry currency e s ≡ ok t
    → e.amount.currency ≡ currency
unfolding count_entry
count_entry_currency currency e s t h = ground (arith, str_eq_iff e.amount.currency currency)

+ℤ_swap : (x y z : ℤ) → (x +ℤ y) +ℤ z ≡ x +ℤ (y +ℤ z)
+ℤ_swap x y z = omega sums

count_entries_sums :
    (currency : String) (es : List EconomicEntry) (s t : EconomicsSummary)
    → count_entries currency es s ≡ ok t
    → (t.revenue.amount ≡ s.revenue.amount +ℤ income_of es)
      × (t.costs.amount ≡ s.costs.amount +ℤ cost_of es)
      × All (λ e. e.amount.currency ≡ currency) es
unfolding count_entries
count_entries_sums currency [] s t h =
    let e : t ≡ s = ground arith in rw e (omega sums, omega sums, tt)
count_entries_sums currency (e ∷ es) s t h = elim (Result-cases (count_entry currency e s)) [
  | inl (u, done) ↦
      let (r, c, same) = count_entries_sums currency es u t (ground arith) in
      let first = count_entry_currency currency e s u done in
      elim (Bool-cases (is_income e.kind)) [
        | inl k ↦
            let (ru, cu) = count_entry_income currency e s u k done in
            rw k (
              r
                  ∙ ap (λ (x : ℤ). x +ℤ income_of es) ru
                  ∙ +ℤ_swap s.revenue.amount e.amount.amount (income_of es),
              c ∙ ap (λ (m : Money). m.amount +ℤ cost_of es) cu,
              (first, same),
            )
        | inr k ↦
            let (cu, ru) = count_entry_cost currency e s u k done in
            rw k (
              r ∙ ap (λ (m : Money). m.amount +ℤ income_of es) ru,
              c
                  ∙ ap (λ (x : ℤ). x +ℤ cost_of es) cu
                  ∙ +ℤ_swap s.costs.amount e.amount.amount (cost_of es),
              (first, same),
            )
      ]
  | inr (x, raised) ↦ absurd (ground arith)
]

zero_amount :
    (currency : String) (zero : Money)
    → new_money (some (finite (pos 0) 0)) currency ≡ ok zero
    → zero.amount ≡ pos 0
unfolding quantize
zero_amount currency zero made =
    ground (arith, new_money-cents (finite (pos 0) 0) currency zero made)

zero-sum : (x y : ℤ) → x ≡ pos 0 → x +ℤ y ≡ y
unfolding ◌+ℤ◌
zero-sum x y h = rw h (ground arith)

-- A summary that is returned, and its gross margin, are exact: revenue is the sum of the revenue and
-- adjustment entries, costs the sum of all others, the margin their difference, and every entry
-- has the currency that was asked for, stripped and in upper case.
pub summarize_exact :
    (es : List EconomicEntry) (currency : String) (s : EconomicsSummary) (margin : Money)
    → summarize es currency ≡ ok s
    → gross_margin s ≡ ok margin
    → (s.revenue.amount ≡ income_of es)
      × (s.costs.amount ≡ cost_of es)
      × (margin.amount ≡ income_of es -ℤ cost_of es)
      × All (λ e. e.amount.currency ≡ upper (strip currency)) es
unfolding summarize gross_margin
summarize_exact es currency s margin h g =
    elim (Result-cases (new_money (some (finite (pos 0) 0)) currency)) [
      | inl (zero, made) ↦
          let (r, c, same) =
            count_entries_sums zero.currency es (record { revenue = zero; costs = zero }) s
              (ground arith) in
          let at_zero = zero_amount currency zero made in
          let revenue = r ∙ zero-sum zero.amount (income_of es) at_zero in
          let costs = c ∙ zero-sum zero.amount (cost_of es) at_zero in
          let (name, _, _) = new_money_currency (some (finite (pos 0) 0)) currency zero made in
          (
            revenue,
            costs,
            (subtract_exact s.revenue s.costs margin g).0 ∙ (λ i. revenue i -ℤ costs i),
            subst (λ (n : String). All (λ e. e.amount.currency ≡ n) es) name same,
          )
      | inr (x, raised) ↦ absurd (ground arith)
    ]
