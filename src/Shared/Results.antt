-- ===== src/Shared/Results.antt =====
-- What a call returns: a value, or the error that it throws.
use mathlib.Core.Path.{◌≡◌, refl}
use mathlib.Core.Bool.{Bool, true, false}

pub data Result {ℓ} (E : Type ℓ) (A : Type ℓ) : Type ℓ where
  ok : A → Result E A
  err : E → Result E A

module _ {E : Type 0} where
  infixl 5 ◌>>=◌ ◌>>◌
  -- The first step throws, or its value goes to the next.
  abbrev pub ◌>>=◌ : {A B : Type 0} → Result E A → (A → Result E B) → Result E B
  err thrown >>= next = err thrown
  ok value >>= next = next value

  -- `if (!test) throw e`
  abbrev pub guard : Bool → E → Result E (Unit {0})
  guard false thrown = err thrown
  guard true thrown = ok tt

  -- A step whose value is not used.
  abbrev pub ◌>>◌ : {B : Type 0} → Result E (Unit {0}) → Result E B → Result E B
  first >> next = first >>= λ _. next

  pub >>=-eq-ok :
      {A B : Type 0} (first : Result E A) (next : A → Result E B) {b : B}
      → (first >>= next) ≡ ok b
      → (a : A) × (first ≡ ok a) × (next a ≡ ok b)
  >>=-eq-ok (err thrown) next h = cc
  >>=-eq-ok (ok value) next h = (value, refl, h)

  pub guard-eq-ok :
      {B : Type 0} (test : Bool) (thrown : E) (next : Result E B) {b : B}
      → (guard test thrown >> next) ≡ ok b
      → (test ≡ true) × (next ≡ ok b)
  guard-eq-ok false thrown next h = cc
  guard-eq-ok true thrown next h = (refl, h)

  pub value_of_ok : {A : Type 0} {x y : A} → ◌≡◌ {A = Result E A} (ok x) (ok y) → x ≡ y
  value_of_ok e = cc
