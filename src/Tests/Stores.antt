-- ===== src/Tests/Stores.antt =====
-- Runs of the idempotency keys, the provider switch and budget, the identity directory and the outbox
-- dispatcher.
use shema_business_platform.Prelude.{
  ℕ, ◌⊎◌, ◌+◌, ◌-◌, ◌≤◌, min, ◌≡◌, ◌≢◌, refl, Bool, true, false, none, some, List, [], ◌∷◌, String,
  Datetime, ok, str_eq, str_eq_iff, strip, is_blank, arith,
}
use shema_business_platform.Prelude.Dict.{lookup, insert, values}
use shema_business_platform.Foundation.Idempotency.{IdempotencyRecord}
use shema_business_platform.Platform.IdempotencyTable.Contract.{
  KeyCall, reserving, completing, checked_step, table_step, answers, after, table_refines_store,
  settled_forever,
}
use shema_business_platform.Foundation.Providers.{ProviderActivationState, Rollback, CallBudget}
use shema_business_platform.Platform.ActivationTable.{limits_ok}
use shema_business_platform.Platform.ActivationTable.Switch
use shema_business_platform.Platform.ActivationTable.Switch.{
  SwitchCall, activating, rolling_back, switched, rows_of, undone, reserve_calls, switch_refines,
  switch_exclusive, budget_spent,
}
use shema_business_platform.Domain.Identity.{Identity, identified}
use shema_business_platform.Application.IdentityDirectory.{Directory, register}
use shema_business_platform.Application.IdentityDirectory.Unique.{
  holders, register_unique, padded_tax_id_twice,
}
use shema_business_platform.Foundation.Outbox.{OutboxEvent, OutboxDelivery, pending}
use shema_business_platform.Platform.OutboxTable.{OutboxRow}
use shema_business_platform.Application.OutboxDispatcher.{DispatchDb, Dispatcher}

different : (s t : String) → str_eq s t ≡ false → s ≢ t
different s t h e = ground (arith, str_eq_iff s t)

abbrev at : ℕ → Datetime
at n = record { tz_aware = true; micros = n }

abbrev key_calls : List KeyCall
key_calls =
    reserving "k" "h" "pending:a"
    ∷ completing "k" "h" "r1"
    ∷ reserving "k" "other" "x"
    ∷ completing "k" "h" "  "
    ∷ completing "k" "h" "r2"
    ∷ []

r2_given : is_blank "r2" ≡ false
unfolding is_blank
r2_given = refl

table_refines_store_example :
    (answers table_step key_calls [] ≡ answers checked_step key_calls [])
    × (after table_step key_calls [] ≡ after checked_step key_calls [])
table_refines_store_example = table_refines_store key_calls

abbrev settled_record : IdempotencyRecord
settled_record = record { key = "k"; request_hash = "h"; result_ref = "r1" }

settled_found : lookup "k" (("k", settled_record) ∷ []) ≡ some settled_record
unfolding lookup
settled_found = refl

settled_forever_example :
    (lookup "k" (after table_step key_calls (("k", settled_record) ∷ [])) ≡ some settled_record)
    × ((table_step
          (reserving "k" "h" "r2")
          (after table_step key_calls (("k", settled_record) ∷ []))).0
        ≡ ok settled_record)
    × ((table_step
          (completing "k" "h" "r2")
          (after table_step key_calls (("k", settled_record) ∷ []))).0
        ≡ ok settled_record)
settled_forever_example =
    settled_forever key_calls "k" "r2" settled_record (("k", settled_record) ∷ []) settled_found
      refl r2_given

abbrev switched_on : ProviderActivationState ℕ
switched_on = record {
  provider_id = "dadata";
  enabled = true;
  configuration_version = some "c1";
  activation_version = some "v1";
  activated_by = some "anna";
  activated_at = some (at 5);
  max_cost = some 10;
  max_duration_seconds = some 20;
  rollback_by = none;
  rollback_at = none;
  rollback_reason = none;
  rollback_from_configuration_version = none;
}

abbrev undo : Rollback
undo = record {
  provider_id = "dadata";
  rolled_back_by = "boris";
  rolled_back_at = at 9;
  reason = "errors";
  expected_activation_version = "v1";
  expected_activated_at = at 5;
}

abbrev same_cost : ℕ → ℕ
same_cost n = n

abbrev any_cost : ℕ → Bool
any_cost n = true

abbrev switch_calls : List (SwitchCall ℕ)
switch_calls =
    activating switched_on ∷ activating switched_on ∷ rolling_back undo ∷ rolling_back undo ∷ []

switched_on_limits : limits_ok same_cost any_cost switched_on ≡ true
unfolding limits_ok
switched_on_limits = refl

switch_refines_example :
    switched same_cost any_cost (Switch.table_step same_cost any_cost) switch_calls [] ≡ (
      (switched same_cost any_cost (Switch.store_step same_cost any_cost) switch_calls []).0,
      rows_of same_cost any_cost
          (switched same_cost any_cost (Switch.store_step same_cost any_cost) switch_calls []).1,
    )
switch_refines_example =
    switch_refines same_cost any_cost switch_calls []
      ((refl, switched_on_limits), ((refl, switched_on_limits), (tt, (tt, tt))))

switched_found : lookup "dadata" (("dadata", switched_on) ∷ []) ≡ some switched_on
unfolding lookup
switched_found = refl

abbrev switch_table : List (String × ProviderActivationState ℕ)
switch_table = ("dadata", switched_on) ∷ []

switch_exclusive_example :
    ((Switch.table_step same_cost any_cost (activating switched_on) switch_table).0 ≡ false)
    × ((Switch.table_step same_cost any_cost (activating switched_on) switch_table).1
        ≡ switch_table)
    × ((switched_on.activation_version ≡ some undo.expected_activation_version)
          × (switched_on.activated_at ≡ some undo.expected_activated_at)
        → ((Switch.table_step same_cost any_cost (rolling_back undo) switch_table).0 ≡ true)
          × (lookup "dadata"
                (Switch.table_step same_cost any_cost (rolling_back undo) switch_table).1
              ≡ some (undone same_cost any_cost undo switched_on)))
    × ((switched_on.activation_version ≢ some undo.expected_activation_version)
          ⊎ (switched_on.activated_at ≢ some undo.expected_activated_at)
        → ((Switch.table_step same_cost any_cost (rolling_back undo) switch_table).0 ≡ false)
          × ((Switch.table_step same_cost any_cost (rolling_back undo) switch_table).1
              ≡ switch_table))
switch_exclusive_example =
    switch_exclusive same_cost any_cost switched_on switched_on undo switch_table switched_found
      refl refl refl

abbrev budget : CallBudget
budget = record { max_calls = 3; calls = 1 }

budget_spent_example :
    ((reserve_calls 5 budget).0 ≡ min 5 (3 - 1))
    × ((reserve_calls 5 budget).1.calls ≡ 1 + (reserve_calls 5 budget).0)
    × ((reserve_calls 5 budget).1.max_calls ≡ 3)
    × ((reserve_calls 5 budget).1.calls ≤ 3)
budget_spent_example = budget_spent 5 budget (omega arith)

abbrev firm : String → String → Identity
firm id tax = record {
  identity_id = id;
  canonical_name = "Firm";
  state = identified;
  tax_id = some tax;
  registration_id = none;
}

seven_plain : strip "77" ≡ "77"
unfolding strip
seven_plain = refl

no_holders : holders "77" [] ≤ 1
unfolding values
no_holders = omega arith

registered : register (firm "i" "77") [] ≡ ok (firm "i" "77", ("i", firm "i" "77") ∷ [])
unfolding register lookup insert values strip
registered = refl

register_unique_example : holders "77" (("i", firm "i" "77") ∷ []) ≤ 1
register_unique_example =
    register_unique (firm "i" "77") (firm "i" "77") [] (("i", firm "i" "77") ∷ []) "77" seven_plain
      refl no_holders registered

padded_strip : str_eq (strip " 77") " 77" ≡ false
unfolding strip
padded_strip = refl

nobody :
    (holders (strip " 77") [] ≡ 0)
    × (lookup {V = Identity} "i" [] ≡ none)
    × (lookup {V = Identity} "j" [] ≡ none)
unfolding lookup values
nobody = (refl, refl, refl)

padded_tax_id_twice_example :
    (d' : Directory) × (d'' : Directory) × (register (firm "i" " 77") [] ≡ ok (firm "i" " 77", d'))
    × (register (firm "j" " 77") d' ≡ ok (firm "j" " 77", d''))
    × (holders " 77" d'' ≡ holders " 77" [] + 2)
padded_tax_id_twice_example =
    padded_tax_id_twice (firm "i" " 77") (firm "j" " 77") [] " 77" refl refl refl
      (different (strip " 77") " 77" padded_strip) nobody.0 (unfold lookup in refl)
      (unfold lookup in refl) (different "i" "j" refl)

abbrev order_event : OutboxEvent ℕ
order_event = record {
  event_id = "e1";
  event_type = "order.created";
  aggregate_type = "order";
  aggregate_id = "o";
  payload = 1;
  occurred_at = at 1;
  status = pending;
}

abbrev leased_row : OutboxRow ℕ
leased_row = record {
  event_id = "e1";
  event_type = "order.created";
  aggregate_type = "order";
  aggregate_id = "o";
  payload = 1;
  occurred_at = at 1;
  published_at = none;
  delivery_attempt = 1;
  delivery_worker_id = some "w";
  delivery_lease_until = some (at 100);
}

abbrev deliveries : List (OutboxDelivery ℕ)
deliveries = record { event = order_event; attempt = 1; worker_id = "w"; lease_until = at 100 } ∷ []

abbrev dispatcher : Dispatcher ℕ
dispatcher = record {
  publish = λ e db. (ok tt, db);
  uuid5 = λ s. s;
  safe_error_detail = λ e. "error";
  worker_id = "w";
  lease_seconds = 60;
}

abbrev before_round : DispatchDb ℕ
before_round = record { outbox = leased_row ∷ []; audits = [] }
