-- ===== src/Platform/Transaction/Rules.antt =====
-- What the statements of a transaction keep and establish, step by step.
use shema_business_platform.Prelude.{
  ◌≡◌, Bool, true, false, Option, none, some, Result, ok, err, Error, subst, arith, if◌then◌else◌,
}
use shema_business_platform.Platform.Transaction.{Tx, pure, lift, or_raise, ◌>>=◌, raise_if, >>=-ok}

module _ {S : Type 0} (P : S → Type 0) where
  -- A run that succeeds keeps the property.
  abbrev pub Keeps : {A : Type 0} → Tx S A → Type 0
  Keeps {A} m = (s s' : S) (a : A) → P s → m s ≡ ok (a, s') → P s'

  -- A run that succeeds ends with the property.
  abbrev pub Establishes : {A : Type 0} → Tx S A → Type 0
  Establishes {A} m = (s s' : S) (a : A) → m s ≡ ok (a, s') → P s'

  pub Keeps-bind :
      {A B : Type 0} (m : Tx S A) (f : A → Tx S B)
      → Keeps m
      → ((a : A) → Keeps (f a))
      → Keeps (m >>= f)
  Keeps-bind m f h k s s' b p e =
      let (a, s1, first, rest) = >>=-ok m f s s' b e in k a s1 s' b (h s s1 a p first) rest

  -- The rest of a block establishes the property.
  pub Establishes-rest :
      {A B : Type 0} (m : Tx S A) (f : A → Tx S B)
      → ((a : A) → Establishes (f a))
      → Establishes (m >>= f)
  Establishes-rest m f k s s' b e =
      let (a, s1, first, rest) = >>=-ok m f s s' b e in k a s1 s' b rest

  -- One step establishes it, and the rest keeps it.
  pub Establishes-step :
      {A B : Type 0} (m : Tx S A) (f : A → Tx S B)
      → Establishes m
      → ((a : A) → Keeps (f a))
      → Establishes (m >>= f)
  Establishes-step m f h k s s' b e =
      let (a, s1, first, rest) = >>=-ok m f s s' b e in k a s1 s' b (h s s1 a first) rest

  pub Keeps-pure : {A : Type 0} (a : A) → Keeps (pure a)
  Keeps-pure a s s' b p e = subst P (ground arith) p

  pub Keeps-lift : {A : Type 0} (m : Result A) → Keeps (lift m)
  Keeps-lift (ok a) s s' b p e = subst P (ground arith) p
  Keeps-lift (err x) s s' b p e = absurd (ground arith)

  pub Keeps-or_raise : {A : Type 0} (o : Option A) (x : Error) → Keeps (or_raise o x)
  Keeps-or_raise none x s s' b p e = absurd (ground arith)
  Keeps-or_raise (some a) x s s' b p e = subst P (ground arith) p

  pub Keeps-raise_if : (b : Bool) (x : Error) → Keeps (raise_if b x)
  Keeps-raise_if true x s s' b p e = absurd (ground arith)
  Keeps-raise_if false x s s' b p e = subst P (ground arith) p

  pub Keeps-if :
      {A : Type 0} (b : Bool) (m n : Tx S A) → Keeps m → Keeps n → Keeps (if b then m else n)
  Keeps-if true m n h k = h
  Keeps-if false m n h k = k
