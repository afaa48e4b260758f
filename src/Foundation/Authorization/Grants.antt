-- ===== src/Foundation/Authorization/Grants.antt =====
-- What a grant changes in `RBACAuthorizer` of foundation/authorization.py.
use shema_business_platform.Prelude.{◌≡◌, ◌↔◌, ◌≢◌, Bool, true, String, ok, str_eq_iff, arith}
use shema_business_platform.Prelude.Dict.{lookup-insert}
use shema_business_platform.Foundation.Authorization.{
  Permission, AuthorizationSubject, Authorizer, require, grant,
}

-- After a grant that succeeds, `require` accepts the actor exactly for the granted permissions,
-- those of an earlier grant being replaced, and decides on every other actor as before.
pub grant-require :
    (id : String) (ps : Permission → Bool) (a a' : Authorizer)
    → grant id ps a ≡ ok a'
    → ((p : Permission) → (require a' id p ≡ ok tt) ↔ (ps p ≡ true))
      × ((other : String) (p : Permission) → other ≢ id → require a' other p ≡ require a other p)
unfolding grant require
grant-require id ps a a' h =
    let s : AuthorizationSubject = record { actor_id = id; permissions = ps } in
    (
      λ p. (
        λ k. ground (arith, str_eq_iff id id, lookup-insert id id s a),
        λ k. ground (arith, str_eq_iff id id, lookup-insert id id s a),
      ),
      λ other p ne. ground (arith, str_eq_iff id other, lookup-insert id other s a),
    )
