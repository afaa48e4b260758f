-- ===== src/Platform/ActionTable.antt =====
-- `PostgresCommercialActionRepository` of platform/postgres_repositories.py: the table
-- `commercial_action` by its primary key.
pub mod Lease
use shema_business_platform.Prelude.{
  ℕ, ◌+◌, Bool, true, false, not, ◌&&◌, ◌||◌, Option, none, some, String, Datetime, value_error,
  key_error, integrity_violation, quarantine_required, database_error, Error, Result, List, [], ◌∷◌,
  format, ok, err, ltb, leb, str_eq, is_blank, is_some, if◌then◌else◌,
}
use shema_business_platform.Prelude.Dict.{Dict, lookup, insert}
use shema_business_platform.Domain.CommercialAction.{
  CommercialActionStatus, ready, sending, sent, failed, CommercialAction, is_sendable, is_sending,
  validate_for_send,
}
use shema_business_platform.Platform.Transaction.{
  Tx, pure, raise, lift, or_raise, ◌>>=◌, ◌>>◌, raise_if,
}

abbrev pub ActionTable : Type 0
ActionTable = Dict CommercialAction

abbrev pub unknown_action : String → Error
unknown_action id = key_error (format ("unknown commercial action: " ∷ id ∷ []))

unfoldable pub get : String → ActionTable → Option CommercialAction
get id t = lookup id t

-- The constraint `commercial_action_send_lease_check` of
-- db/migrations/0009_state_ownership_invariants.sql.
unfoldable pub lease_ok : CommercialAction → Bool
lease_ok a =
    if is_sending a.status
    then is_some a.send_worker_id && is_some a.send_lease_until
    else not (is_some a.send_worker_id) && not (is_some a.send_lease_until)

unfoldable pub add : CommercialAction → Tx ActionTable (Unit {0})
unfolding lease_ok
add a t =
    if not (lease_ok a)
    then err (database_error "check constraint violated")
    else if is_some (lookup a.action_id t)
    then err (database_error "unique constraint violated")
    else ok (tt, insert a.action_id a t)

-- `update commercial_action set ... where action_id = %s and p returning ...`
unfoldable pub update :
    String
    → (CommercialAction → Bool)
    → (CommercialAction → CommercialAction)
    → Tx ActionTable (Option CommercialAction)
update id p f t = elim (lookup id t) [
  | none ↦ ok (none, t)
  | some a ↦ if p a then ok (some (f a), insert id (f a) t) else ok (none, t)
]

abbrev pub ends_by : Option Datetime → Datetime → Bool
ends_by none now = false
ends_by (some u) now = leb u.micros now.micros

abbrev pub ends_after : Option Datetime → Datetime → Bool
ends_after none now = false
ends_after (some u) now = ltb now.micros u.micros

abbrev pub worker_is : Option String → String → Bool
worker_is none w = false
worker_is (some v) w = str_eq v w

abbrev pub is_ready : CommercialActionStatus → Bool
is_ready ready = true
is_ready _ = false

abbrev pub is_sent : CommercialActionStatus → Bool
is_sent sent = true
is_sent _ = false

-- `status = 'ready' or (status = 'sending' and send_lease_until <= now)`
unfoldable pub is_claimable : Datetime → CommercialAction → Bool
is_claimable now a = is_ready a.status || (is_sending a.status && ends_by a.send_lease_until now)

abbrev pub claim_row : String → Datetime → CommercialAction → CommercialAction
claim_row w until a = record a {
  status = sending;
  send_attempt = a.send_attempt + 1;
  send_worker_id = some w;
  send_lease_until = some until;
}

abbrev pub refused : Option CommercialAction → Tx ActionTable CommercialAction
refused none = raise (quarantine_required "commercial action changed during send reservation")
refused (some a) =
    if is_sending a.status
    then raise (quarantine_required "commercial action send is already in progress")
    else raise (quarantine_required "commercial action changed during send reservation")

unfoldable pub claim_for_send :
    String → String → Datetime → Datetime → Tx ActionTable CommercialAction
unfolding update is_claimable validate_for_send
claim_for_send id w until now = do
  raise_if (is_blank w) (value_error "send worker is required")
  raise_if (not until.tz_aware || not now.tz_aware)
      (value_error "send lease timestamps must be timezone-aware")
  raise_if (leb until.micros now.micros) (value_error "send lease must be in the future")
  current ← λ t. or_raise (lookup id t) (unknown_action id) t
  raise_if (not (is_sendable current.status))
      (quarantine_required "commercial action is not available for external send")
  lift (validate_for_send current)
  r ← update id (is_claimable now) (claim_row w until)
  λ t. elim r [ some a ↦ ok (a, t) | none ↦ refused (lookup id t) t ]

-- `status = 'sending' and send_worker_id = %s and send_lease_until > %s`
unfoldable pub is_held : String → Datetime → CommercialAction → Bool
is_held w now a =
    is_sending a.status && worker_is a.send_worker_id w && ends_after a.send_lease_until now

abbrev pub release : CommercialActionStatus → CommercialAction → CommercialAction
release st a = record a { status = st; send_worker_id = none; send_lease_until = none }

unfoldable pub fail_external_effect :
    String → String → Datetime → Tx ActionTable (Option CommercialAction)
unfolding update is_held
fail_external_effect id w now = do
  raise_if (is_blank w) (value_error "send worker is required")
  raise_if (not now.tz_aware) (value_error "unknown-effect transition time must be timezone-aware")
  update id (is_held w now) (release failed)

unfoldable pub complete_send : String → String → Datetime → Tx ActionTable CommercialAction
unfolding update is_held
complete_send id w now = do
  raise_if (is_blank w) (value_error "send worker is required")
  raise_if (not now.tz_aware) (value_error "completion time must be timezone-aware")
  r ← update id (is_held w now) (release sent)
  λ t.
      or_raise r
        (integrity_violation "commercial action completion rejected: missing or expired send lease")
        t

abbrev same_owner : Option String → Option String → Bool
same_owner none none = true
same_owner (some a) (some b) = str_eq a b
same_owner _ _ = false

unfoldable pub save : CommercialAction → Tx ActionTable (Unit {0})
unfolding lease_ok
save a t =
    if is_sent a.status
    then err (integrity_violation "commercial action SENT state requires lease-guarded completion")
    else elim (lookup a.action_id t) [
      | none ↦ err (unknown_action a.action_id)
      | some current ↦
          if not (same_owner current.owner_actor_id a.owner_actor_id)
          then err (integrity_violation "commercial action owner scope is immutable")
          else if not (lease_ok a)
          then err (database_error "check constraint violated")
          else ok (tt, insert a.action_id a t)
    ]
