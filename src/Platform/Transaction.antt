-- ===== src/Platform/Transaction.antt =====
-- platform/postgres.py: the unit of work. Within a transaction a raise discards what was written,
-- since no caller handles an exception inside a `with` block and `__exit__` rolls back.
pub mod Rules
use shema_business_platform.Prelude.{
  ◌≡◌, inl, inr, arith, Result-cases, Result, ok, err, Error, Bool, true, false, Option, none, some,
}

abbrev pub Tx : Type 0 → Type 0 → Type 0
Tx S A = S → Result (A × S)

module _ {S A : Type 0} where
  abbrev pub pure : A → Tx S A
  pure a s = ok (a, s)

  abbrev pub raise : Error → Tx S A
  raise e s = err e

  abbrev pub gets : (S → A) → Tx S A
  gets f s = ok (f s, s)

  -- A computation that reads and writes no table.
  abbrev pub lift : Result A → Tx S A
  lift (ok a) s = ok (a, s)
  lift (err e) s = err e

  abbrev pub or_raise : Option A → Error → Tx S A
  or_raise none e s = err e
  or_raise (some a) e s = ok (a, s)

  -- `with uow: ...`: commit at the end of the block, roll back on a raise.
  unfoldable pub transaction : Tx S A → S → Result A × S
  transaction m s = elim (m s) [ ok (a, s') ↦ (ok a, s') | err e ↦ (err e, s) ]

infixl 5 ◌>>=◌ ◌>>◌
abbrev pub ◌>>=◌ : {S A B : Type 0} → Tx S A → (A → Tx S B) → Tx S B
◌>>=◌ m f s = elim (m s) [ ok (a, s') ↦ f a s' | err e ↦ err e ]

abbrev pub ◌>>◌ : {S A B : Type 0} → Tx S A → Tx S B → Tx S B
m >> k = m >>= λ _. k

module _ {S : Type 0} where
  abbrev pub raise_if : Bool → Error → Tx S (Unit {0})
  raise_if true e s = err e
  raise_if false e s = ok (tt, s)

  abbrev pub modify : (S → S) → Tx S (Unit {0})
  modify f s = ok (tt, f s)

-- A transaction that raises leaves the tables as they were; one that succeeds has run its body.
module _ {S A : Type 0} where
  pub transaction-err : (m : Tx S A) (s s' : S) (e : Error) → transaction m s ≡ (err e, s') → s' ≡ s
  unfolding transaction
  transaction-err m s s' e h = ground arith

  pub transaction-ok :
      (m : Tx S A) (s s' : S) (a : A) → transaction m s ≡ (ok a, s') → m s ≡ ok (a, s')
  unfolding transaction
  transaction-ok m s s' a h = ground arith

-- Inversion of a successful step.
pub >>=-ok :
    {S A B : Type 0} (m : Tx S A) (f : A → Tx S B) (s s'' : S) (b : B)
    → (m >>= f) s ≡ ok (b, s'')
    → (a : A) × (s' : S) × (m s ≡ ok (a, s')) × (f a s' ≡ ok (b, s''))
>>=-ok m f s s'' b h = elim (Result-cases (m s)) [
  | inl ((a, s'), done) ↦ (a, s', done, ground arith)
  | inr (e, raised) ↦ absurd (ground arith)
]
