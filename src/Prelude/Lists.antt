-- ===== src/Prelude/Lists.antt =====
-- Lists counted by native numbers, membership and quantification by recursion.
use Prim.Native.Nat.{ℕ, suc}
use mathlib.Core.Path.{◌≡◌, sym, ap, ◌∙◌, subst}
use mathlib.Core.Logic.{◌↔◌, ◌⊎◌, inl, inr}
use mathlib.Core.Bool.{Bool, true, false≢true}
use mathlib.Core.List.{List, [], ◌∷◌}
use shema_business_platform.Prelude.Tests.{Bool-cases, if◌then◌else◌}

module _ {ℓ} {A : Type ℓ} where
  abbrev pub length : List A → ℕ
  length [] = 0
  length (x ∷ xs) = suc (length xs)

  -- Every item satisfies `P`.
  abbrev pub All {κ} : (A → Type κ) → List A → Type κ
  All P [] = Unit
  All P (x ∷ xs) = P x × All P xs

  -- The items that pass a test, in order.
  abbrev pub keep : (A → Bool) → List A → List A
  keep p [] = []
  keep p (x ∷ xs) = if p x then x ∷ keep p xs else keep p xs

-- The item stands in the list.
abbrev pub In : {A : Type 0} → A → List A → Type 0
In a [] = ⊥
In a (x ∷ xs) = (a ≡ x) ⊎ In a xs

pub All-In : {A : Type 0} (P : A → Type 0) (xs : List A) {x : A} → All P xs → In x xs → P x
All-In P [] h m = absurd m
All-In P (y ∷ ys) h (inl e) = subst P (sym e) h.0
All-In P (y ∷ ys) h (inr m) = All-In P ys h.1 m

-- What passes the test and stands in the list is kept, and nothing else.
pub In-keep :
    {A : Type 0} (p : A → Bool) (xs : List A) {x : A} → In x (keep p xs) ↔ (In x xs × (p x ≡ true))
In-keep p [] = (λ h. absurd h, λ h. h.0)
In-keep p (y ∷ ys) = elim (Bool-cases (p y)) [
  | inl e ↦ rw e (
    elim [
      | inl q ↦ (inl q, ap p q ∙ e)
      | inr m ↦ (inr ((In-keep p ys).0 m).0, ((In-keep p ys).0 m).1)
    ],
    λ h. elim h.0 [ inl q ↦ inl q | inr m ↦ inr ((In-keep p ys).1 (m, h.1)) ],
  )
  | inr e ↦ rw e (
    λ m. (inr ((In-keep p ys).0 m).0, ((In-keep p ys).0 m).1),
    λ h. elim h.0 [
      | inl q ↦ absurd (false≢true (sym e ∙ sym (ap p q) ∙ h.1))
      | inr m ↦ (In-keep p ys).1 (m, h.1)
    ],
  )
]
