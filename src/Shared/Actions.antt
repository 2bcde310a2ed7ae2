-- ===== src/Shared/Actions.antt =====
-- A call over a state `S` that may throw an `E`; what was written before stays written.
pub mod Effects
pub mod Refusals
use mathlib.Core.Bool.{Bool, true, false}
use mathlib.Core.Option.{Option, none, some}
use orkiva.Shared.Results.{Result, ok, err}

abbrev pub Action : Type 0 → Type 0 → Type 0 → Type 0
Action E S A = S → Result E A × S

module _ {E S A : Type 0} where
  unfoldable pub give : A → Action E S A
  give a s = (ok a, s)

  unfoldable pub throw : E → Action E S A
  throw e s = (err e, s)

  -- A call that only checks, with its error as one of the caller's.
  unfoldable pub lift : {F : Type 0} → (F → E) → Result F A → Action E S A
  lift f (err e) s = (err (f e), s)
  lift f (ok a) s = (ok a, s)

  -- The value, where there is one.
  unfoldable pub present : Option A → E → Action E S A
  present none e s = (err e, s)
  present (some a) e s = (ok a, s)

  abbrev pub recover : Result E A × S → (E → Action E S A) → Result E A × S
  recover (ok a, s) handler = (ok a, s)
  recover (err e, s) handler = handler e s

  -- `try { … } catch (error) { … }`
  unfoldable pub catching : Action E S A → (E → Action E S A) → Action E S A
  catching step handler s = recover (step s) handler

module _ {E S : Type 0} where
  -- `if (!test) throw e`, before the rest.
  unfoldable pub ensure : Bool → E → Action E S (Unit {0})
  ensure false e s = (err e, s)
  ensure true e s = (ok tt, s)

module _ {E S A B : Type 0} where
  abbrev pub resume : Result E A × S → (A → Action E S B) → Result E B × S
  resume (err e, s) next = (err e, s)
  resume (ok a, s) next = next a s

  infixl 5 ◌>>=◌ ◌>>◌
  unfoldable pub ◌>>=◌ : Action E S A → (A → Action E S B) → Action E S B
  unfolding give throw lift present ensure catching
  ◌>>=◌ step next s = resume (step s) next

  abbrev pub ◌>>◌ : Action E S A → Action E S B → Action E S B
  ◌>>◌ step next = step >>= λ _. next
