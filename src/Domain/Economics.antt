-- ===== src/Domain/Economics.antt =====
-- domain/economics.py: economic entries and their summary.
pub mod Summary
use shema_business_platform.Prelude.{
  Bool, true, false, not, ◌&&◌, ◌||◌, some, List, [], ◌∷◌, String, Datetime, value_error, Result,
  ok, err, ◌>>=◌, ◌>>◌, raise_if, str_eq, is_blank, if◌then◌else◌,
}
use shema_business_platform.Prelude.Int.{pos, is_negative}
use shema_business_platform.Domain.Money.{Money, finite, new_money, add, subtract}

pub data EconomicKind : Type 0 where
  provider_cost ai_cost order_cost revenue adjustment : EconomicKind

abbrev pub is_adjustment : EconomicKind → Bool
is_adjustment adjustment = true
is_adjustment _ = false

-- `kind is REVENUE`, or `kind is ADJUSTMENT`: what the summary counts as revenue.
abbrev pub is_income : EconomicKind → Bool
is_income revenue = true
is_income adjustment = true
is_income _ = false

pub record EconomicEntry : Type 0 where
  pub entry_id : String
  pub entity_ref : String
  pub kind : EconomicKind
  pub amount : Money
  pub source_ref : String
  pub occurred_at : Datetime

-- `EconomicEntry(...)` with its `__post_init__`.
unfoldable pub new_entry : EconomicEntry → Result EconomicEntry
new_entry e = do
  raise_if (is_blank e.entry_id || is_blank e.entity_ref || is_blank e.source_ref)
      (value_error "economic entry references are required")
  raise_if (not (is_adjustment e.kind) && is_negative e.amount.amount)
      (value_error "revenue and cost amounts cannot be negative")
  ok e

pub record EconomicsSummary : Type 0 where
  pub revenue : Money
  pub costs : Money

unfoldable pub gross_margin : EconomicsSummary → Result Money
unfolding subtract
gross_margin s = subtract s.revenue s.costs

-- One round of the loop of `summarize`; `currency` is that of `zero`.
unfoldable pub count_entry : String → EconomicEntry → EconomicsSummary → Result EconomicsSummary
unfolding add
count_entry currency e s = do
  raise_if (not (str_eq e.amount.currency currency))
      (value_error "economic entry currency mismatch")
  if is_income e.kind
      then (do r ← add s.revenue e.amount; ok (record s { revenue = r }))
      else (do k ← add s.costs e.amount; ok (record s { costs = k }))

unfoldable pub count_entries :
    String → List EconomicEntry → EconomicsSummary → Result EconomicsSummary
unfolding count_entry
count_entries currency [] s = ok s
count_entries currency (e ∷ es) s = do
  next ← count_entry currency e s
  count_entries currency es next

unfoldable pub summarize : List EconomicEntry → String → Result EconomicsSummary
unfolding new_money count_entries
summarize es currency = do
  zero ← new_money (some (finite (pos 0) 0)) currency
  count_entries zero.currency es (record { revenue = zero; costs = zero })
