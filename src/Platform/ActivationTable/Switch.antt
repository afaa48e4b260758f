-- ===== src/Platform/ActivationTable/Switch.antt =====
-- The shared switch against the in-memory contract, and the calls of a budget.
use mathlib.Core.Option
use mathlib.Core.Option.{some-injective}
use shema_business_platform.Prelude.{
  none, String, Datetime, ◌≢◌, ◌⊎◌, ◌↔◌, Option, subst, Option-cases, ℕ, zero, suc, ◌+◌, ◌-◌, ◌≤◌,
  min, ◌≡◌, refl, sym, ap, Bool, true, false, some, List, [], ◌∷◌, Result, ok, err, inl, inr, arith,
  All, Bool-cases, str_eq_iff, if◌then◌else◌, leb,
}
use shema_business_platform.Prelude.Dict.{Dict, lookup, insert, lookup-insert}
use shema_business_platform.Foundation.Providers
use shema_business_platform.Foundation.Providers.{
  ProviderActivationState, Rollback, is_enabled, is_target, rolled_back, CallBudget, version_is,
  time_is, take_text,
}
use shema_business_platform.Platform.ActivationTable.{
  limits_ok, active_row, column, activate, rollback,
}
use shema_business_platform.Platform.Transaction.{transaction}

pub data SwitchCall (Cost : Type 0) : Type 0 where
  activating : ProviderActivationState Cost → SwitchCall Cost
  rolling_back : Rollback → SwitchCall Cost

abbrev pub succeeded : {A : Type 0} → Result A → Bool
succeeded (ok a) = true
succeeded (err e) = false

abbrev pub kept_or : {S : Type 0} → S → Result S → Bool × S
kept_or d (ok d') = (true, d')
kept_or d (err e) = (false, d)

module _ {Cost : Type 0} (stored : Cost → Cost) (is_positive : Cost → Bool) where
  -- Whether a call succeeds, and the states afterwards.
  unfoldable pub store_step :
      SwitchCall Cost
      → Dict (ProviderActivationState Cost)
      → Bool × Dict (ProviderActivationState Cost)
  unfolding Providers.activate Providers.rollback
  store_step (activating s) d = kept_or d (Providers.activate s d)
  store_step (rolling_back r) d = kept_or d (Providers.rollback r d)

  unfoldable pub table_step :
      SwitchCall Cost
      → Dict (ProviderActivationState Cost)
      → Bool × Dict (ProviderActivationState Cost)
  unfolding activate rollback transaction
  table_step (activating s) t = (
    succeeded (transaction (activate stored is_positive s) t).0,
    (transaction (activate stored is_positive s) t).1,
  )
  table_step (rolling_back r) t =
      (succeeded (transaction (rollback r) t).0, (transaction (rollback r) t).1)

  -- An activation that the repository's own check and the table's constraints admit.
  abbrev pub IsAdmitted : SwitchCall Cost → Type 0
  IsAdmitted (activating s) = (s.enabled ≡ true) × (limits_ok stored is_positive s ≡ true)
  IsAdmitted (rolling_back r) = Unit

  abbrev pub switched :
      (SwitchCall Cost
        → Dict (ProviderActivationState Cost)
        → Bool × Dict (ProviderActivationState Cost))
      → List (SwitchCall Cost)
      → Dict (ProviderActivationState Cost)
      → List Bool × Dict (ProviderActivationState Cost)
  switched step [] d = ([], d)
  switched step (c ∷ cs) d =
      ((step c d).0 ∷ (switched step cs (step c d).1).0, (switched step cs (step c d).1).1)

  -- What the columns hold of a state: the costs as the columns give them back, and no rollback while
  -- the provider is enabled.
  abbrev pub row_of : ProviderActivationState Cost → ProviderActivationState Cost
  row_of s = record s {
    max_cost = column stored is_positive s.max_cost;
    max_duration_seconds = column stored is_positive s.max_duration_seconds;
    rollback_by = if s.enabled then none else s.rollback_by;
    rollback_at = if s.enabled then none else s.rollback_at;
    rollback_reason = if s.enabled then none else s.rollback_reason;
    rollback_from_configuration_version =
        if s.enabled then none else s.rollback_from_configuration_version;
  }

  abbrev pub rows_of : Dict (ProviderActivationState Cost) → Dict (ProviderActivationState Cost)
  rows_of [] = []
  rows_of ((k, s) ∷ d) = (k, row_of s) ∷ rows_of d

  lookup-rows_of :
      (k : String) (d : Dict (ProviderActivationState Cost))
      → lookup k (rows_of d) ≡ Option.map row_of (lookup k d)
  unfolding lookup
  lookup-rows_of k [] = refl
  lookup-rows_of k ((j, s) ∷ d) = ground (arith, lookup-rows_of k d)

  insert-rows_of :
      (k : String) (s : ProviderActivationState Cost) (d : Dict (ProviderActivationState Cost))
      → insert k (row_of s) (rows_of d) ≡ rows_of (insert k s d)
  unfolding insert
  insert-rows_of k s [] = refl
  insert-rows_of k s ((j, x) ∷ d) = ground (arith, insert-rows_of k s d)

  active-row_of :
      (s : ProviderActivationState Cost)
      → s.enabled ≡ true
      → active_row stored is_positive s ≡ row_of s
  active-row_of s on i = record (row_of s) {
    enabled = sym on i;
    rollback_by = if sym on i then none else s.rollback_by;
    rollback_at = if sym on i then none else s.rollback_at;
    rollback_reason = if sym on i then none else s.rollback_reason;
    rollback_from_configuration_version =
        if sym on i then none else s.rollback_from_configuration_version;
  }

  steps_agree :
      (c : SwitchCall Cost) (d : Dict (ProviderActivationState Cost))
      → IsAdmitted c
      → table_step c (rows_of d) ≡ ((store_step c d).0, rows_of (store_step c d).1)
  unfolding store_step table_step
  steps_agree (activating s) d (on, limits) = elim (Option-cases (lookup s.provider_id d)) [
    | inl fresh ↦ ground (
      arith,
      lookup-rows_of s.provider_id d,
      active-row_of s on,
      insert-rows_of s.provider_id s d,
    )
    | inr (x, there) ↦ ground (
      arith,
      lookup-rows_of s.provider_id d,
      active-row_of s on,
      insert-rows_of s.provider_id s d,
    )
  ]
  steps_agree (rolling_back r) d h = elim (Option-cases (lookup r.provider_id d)) [
    | inl missing ↦ ground (arith, lookup-rows_of r.provider_id d)
    | inr (x, there) ↦
        ground
          (arith, lookup-rows_of r.provider_id d, insert-rows_of r.provider_id (rolled_back r x) d)
  ]

  -- The table implements the in-memory contract: any sequence of rollbacks, and of activations of
  -- enabled states that the constraints of the table admit, succeeds at the same calls, and the table
  -- ends with the rows of the states in memory: with the costs as its columns give them back, and
  -- without the rollback of a provider that is enabled. (The errors differ: an activation of an enabled
  -- provider is a RuntimeError in memory, an IntegrityViolation in the table.)
  pub switch_refines :
      (cs : List (SwitchCall Cost)) (d : Dict (ProviderActivationState Cost))
      → All IsAdmitted cs
      → switched table_step cs (rows_of d)
        ≡ ((switched store_step cs d).0, rows_of (switched store_step cs d).1)
  switch_refines [] d h = refl
  switch_refines (c ∷ cs) d h = rw (steps_agree c d h.0) (λ i. (
    (store_step c d).0 ∷ (switch_refines cs (store_step c d).1 h.1 i).0,
    (switch_refines cs (store_step c d).1 h.1 i).1,
  ))

  -- The state of a provider after a rollback.
  abbrev pub undone : Rollback → ProviderActivationState Cost → ProviderActivationState Cost
  undone r s = record s {
    enabled = false;
    rollback_by = some r.rolled_back_by;
    rollback_at = some r.rolled_back_at;
    rollback_reason = some (take_text 256 r.reason);
    rollback_from_configuration_version = s.configuration_version;
  }

  version_is_iff : (v : Option String) (w : String) → version_is v w ≡ true ↔ (v ≡ some w)
  version_is_iff none w = (λ h. ground arith, λ h. ground arith)
  version_is_iff (some v) w =
      (λ h. ap some ((str_eq_iff v w).0 h), λ h. (str_eq_iff v w).1 (some-injective _ _ h))

  same_time : (t u : Datetime) → t.tz_aware ≡ u.tz_aware → t.micros ≡ u.micros → t ≡ u
  same_time t u zone micros i = record { tz_aware = zone i; micros = micros i }

  time_is_iff : (t : Option Datetime) (u : Datetime) → time_is t u ≡ true ↔ (t ≡ some u)
  time_is_iff none u = (λ h. ground arith, λ h. ground arith)
  time_is_iff (some t) u = (
    λ h. ap some (same_time t u (ground arith) (ground arith)),
    λ h. subst (λ x. time_is x u ≡ true) (sym h) (ground arith),
  )

  -- Switching is exclusive. While a provider is enabled, no replica activates it again. A rollback takes
  -- effect when it names the version and the time of the activation in force: the provider is then
  -- disabled, and its row keeps the activation and says who rolled it back, when, why and from
  -- which configuration. A rollback that names another version or another time fails and changes
  -- nothing.
  pub switch_exclusive :
      (s a : ProviderActivationState Cost) (r : Rollback) (t : Dict (ProviderActivationState Cost))
      → lookup s.provider_id t ≡ some s
      → s.enabled ≡ true
      → a.provider_id ≡ s.provider_id
      → r.provider_id ≡ s.provider_id
      → ((table_step (activating a) t).0 ≡ false)
        × ((table_step (activating a) t).1 ≡ t)
        × ((s.activation_version ≡ some r.expected_activation_version)
              × (s.activated_at ≡ some r.expected_activated_at)
            → ((table_step (rolling_back r) t).0 ≡ true)
              × (lookup s.provider_id (table_step (rolling_back r) t).1 ≡ some (undone r s)))
        × ((s.activation_version ≢ some r.expected_activation_version)
              ⊎ (s.activated_at ≢ some r.expected_activated_at)
            → ((table_step (rolling_back r) t).0 ≡ false) × ((table_step (rolling_back r) t).1 ≡ t))
  unfolding table_step
  switch_exclusive s a r t there on same_a same_r =
      let version = version_is_iff s.activation_version r.expected_activation_version in
      let time = time_is_iff s.activated_at r.expected_activated_at in
      let row : rolled_back r s ≡ undone r s =
        λ i. record (undone r s) { provider_id = same_r i } in
      let put = lookup-insert r.provider_id s.provider_id (rolled_back r s) t in
      (
        ground arith,
        ground arith,
        λ (v, at). (
          ground (arith, version.1 v, time.1 at),
          ground (arith, version.1 v, time.1 at, put, str_eq_iff r.provider_id s.provider_id, row),
        ),
        elim [
          | inl v ↦ (ground (arith, version), ground (arith, version))
          | inr at ↦ (ground (arith, time), ground (arith, time))
        ],
      )

-- The calls of an operation, each reserved from the budget: those that go through.
abbrev pub reserve_calls : ℕ → CallBudget → ℕ × CallBudget
reserve_calls zero b = (0, b)
reserve_calls (suc n) b = elim (Providers.reserve b) [
  | ok b' ↦ ((reserve_calls n b').0 + 1, (reserve_calls n b').1)
  | err e ↦ reserve_calls n b
]

over_le : (b : CallBudget) → leb b.max_calls b.calls ≡ true → b.max_calls ≤ b.calls
over_le b h = ground arith

-- A budget lets through as many of the calls asked for as remain, and no more, and counts them.
pub budget_spent :
    (n : ℕ) (b : CallBudget)
    → b.calls ≤ b.max_calls
    → ((reserve_calls n b).0 ≡ min n (b.max_calls - b.calls))
      × ((reserve_calls n b).1.calls ≡ b.calls + (reserve_calls n b).0)
      × ((reserve_calls n b).1.max_calls ≡ b.max_calls)
      × ((reserve_calls n b).1.calls ≤ b.max_calls)
unfolding Providers.reserve
budget_spent zero b h = ground arith
budget_spent (suc n) b h = elim (Bool-cases (leb b.max_calls b.calls)) [
  | inl over ↦
      let (some_calls, counted, same, bounded) = budget_spent n b h in
      let step : reserve_calls (suc n) b ≡ reserve_calls n b = ground arith in
      rw step (omega (arith, some_calls, over_le b over), counted, same, bounded)
  | inr open' ↦
      let next : CallBudget = record b { calls = b.calls + 1 } in
      let (some_calls, counted, same, bounded) = budget_spent n next (ground arith) in
      let step : reserve_calls (suc n) b
          ≡ ((reserve_calls n next).0 + 1, (reserve_calls n next).1) =
        ground arith in
      rw step (ground arith, omega (arith, counted), same, bounded)
]
