-- ===== src/Tests/Amounts.antt =====
-- Runs of domain/money.py, domain/economics.py and domain/repeat_order.py.
use shema_business_platform.Prelude.{
  false, ◌+◌, ◌*◌, ◌^◌, ◌≤◌, ◌<◌, ◌≡◌, refl, true, some, List, [], ◌∷◌, Datetime, ok, strip, All,
  arith,
}
use shema_business_platform.Prelude.Int.{
  ℤ, pos, negsuc, magnitude, is_negative, signed, ◌+ℤ◌, ◌-ℤ◌, ◌*ℤ◌,
}
use shema_business_platform.Domain.Money.{finite, Money, new_money, multiply, upper}
use shema_business_platform.Domain.Money.Rounding.{multiply_nearest}
use shema_business_platform.Domain.Money.Stable.{stored_money}
use shema_business_platform.Domain.Economics.{
  EconomicEntry, revenue, order_cost, adjustment, EconomicsSummary, summarize, gross_margin,
}
use shema_business_platform.Domain.Economics.Summary.{income_of, cost_of, summarize_exact}
use shema_business_platform.Domain.Calendar.{Timestamp, month_length, add_months}
use shema_business_platform.Domain.Calendar.Days.{IsDate}
use shema_business_platform.Domain.RepeatOrder.{month, next_after}
use shema_business_platform.Domain.RepeatOrder.Schedule.{Elapsed, next_after_lem}

abbrev euros : ℤ → Money
euros c = record { amount = c; currency = "EUR" }

-- 10.01 * 2.5 = 25.025, to the nearest cent 25.03.
ran_multiply : multiply (euros (pos 1001)) (finite (pos 25) 1) ≡ ok (euros (pos 2503))
unfolding multiply
ran_multiply = refl

multiply_nearest_example :
    (is_negative (pos 25) ≡ false)
    × (0 < magnitude (pos 25))
    × (pos 2503 ≡ signed (is_negative (pos 1001)) (magnitude (pos 2503)))
    × (2 * (magnitude (pos 2503) * 10 ^ 1)
        ≤ 2 * (magnitude (pos 1001) * magnitude (pos 25)) + 10 ^ 1)
    × (2 * (magnitude (pos 1001) * magnitude (pos 25))
        < 2 * (magnitude (pos 2503) * 10 ^ 1) + 10 ^ 1)
multiply_nearest_example =
    multiply_nearest (euros (pos 1001)) (euros (pos 2503)) (pos 25) 1 (omega arith) ran_multiply

made_money : new_money (some (finite (negsuc 12344) 3)) " eur" ≡ ok (euros (negsuc 1234))
unfolding new_money
made_money = refl

stored_money_example :
    (new_money (some (finite (negsuc 1234) 2)) "EUR" ≡ ok (euros (negsuc 1234)))
    × (new_money (some (finite (negsuc 1234 *ℤ pos 1_000_000) 8)) "EUR" ≡ ok (euros (negsuc 1234)))
stored_money_example =
    stored_money (some (finite (negsuc 12344) 3)) " eur" (euros (negsuc 1234)) made_money

abbrev noon : Datetime
noon = record { tz_aware = true; micros = 0 }

abbrev entries : List EconomicEntry
entries =
    record {
      entry_id = "1";
      entity_ref = "o";
      kind = revenue;
      amount = euros (pos 5000);
      source_ref = "s";
      occurred_at = noon;
    }
    ∷ record {
      entry_id = "2";
      entity_ref = "o";
      kind = order_cost;
      amount = euros (pos 1200);
      source_ref = "s";
      occurred_at = noon;
    }
    ∷ record {
      entry_id = "3";
      entity_ref = "o";
      kind = adjustment;
      amount = euros (negsuc 99);
      source_ref = "s";
      occurred_at = noon;
    }
    ∷ []

abbrev summary : EconomicsSummary
summary = record { revenue = euros (pos 4900); costs = euros (pos 1200) }

ran_summary : summarize entries "eur" ≡ ok summary
unfolding summarize ◌+ℤ◌
ran_summary = refl

ran_margin : gross_margin summary ≡ ok (euros (pos 3700))
unfolding gross_margin ◌-ℤ◌
ran_margin = refl

summarize_exact_example :
    (pos 4900 ≡ income_of entries)
    × (pos 1200 ≡ cost_of entries)
    × (pos 3700 ≡ income_of entries -ℤ cost_of entries)
    × All (λ (e : EconomicEntry). e.amount.currency ≡ upper (strip "eur")) entries
summarize_exact_example =
    summarize_exact entries "eur" summary (euros (pos 3700)) ran_summary ran_margin

abbrev january_31 : Timestamp
january_31 = record { tz_aware = true; year = 2024; month = 1; day = 31; time = 5 }

abbrev february_29 : Timestamp
february_29 = record { tz_aware = true; year = 2024; month = 2; day = 29; time = 5 }

january_31-IsDate : IsDate january_31
unfolding month_length
january_31-IsDate = omega arith

ran_next : next_after (record { unit = month; interval = 1 }) january_31 ≡ ok february_29
unfolding next_after add_months
ran_next = refl

next_after_lem_example :
    IsDate february_29
    × (february_29.time ≡ january_31.time)
    × (february_29.tz_aware ≡ true)
    × (february_29.year ≤ 9999)
    × Elapsed month 1 january_31 february_29
next_after_lem_example =
    next_after_lem (record { unit = month; interval = 1 }) january_31 february_29 january_31-IsDate
      ran_next
