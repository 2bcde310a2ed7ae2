-- ===== src/Shared/Actions/Effects.antt =====
-- What calls may do to their state: a relation between the state before and after that every step
-- respects, what is composed of them respects.
use mathlib.Core.Path.{◌≡◌, refl}
use mathlib.Core.Bool.{Bool, true, false}
use mathlib.Core.Option.{Option, none, some}
use orkiva.Shared.Tests.{if◌then◌else◌}
use orkiva.Shared.Results.{Result, ok, err}
use orkiva.Shared.Actions.{
  Action, resume, recover, ◌>>=◌, give, throw, lift, ensure, present, catching,
}

-- A relation that a call which does nothing satisfies, and two calls in a row.
pub record IsEffect {S : Type 0} (R : S → S → Type 0) : Type 0 where
  pub still : (s : S) → R s s
  pub chain : (s t u : S) → R s t → R t u → R s u

-- The call moves its state along `R`, whether it returns or throws.
pub record Within {E S A : Type 0} (R : S → S → Type 0) (call : Action E S A) : Type 0 where
  pub at : (s : S) → R s (call s).1

module _ {S : Type 0} {R : S → S → Type 0} (effect : IsEffect R) where
  module _ {E A B : Type 0} where
    resume-Within :
        (s : S) (p : Result E A × S) (next : A → Action E S B)
        → R s p.1
        → ((a : A) → Within R (next a))
        → R s (resume p next).1
    resume-Within s (err e, t) next h k = h
    resume-Within s (ok a, t) next h k = effect.chain s t _ h ((k a).at t)

    pub Within-bind :
        (call : Action E S A) (next : A → Action E S B)
        → Within R call
        → ((a : A) → Within R (next a))
        → Within R (call >>= next)
    unfolding ◌>>=◌
    Within-bind call next h k = record { at = λ s. resume-Within s (call s) next (h.at s) k }

  module _ {E A : Type 0} where
    recover-Within :
        (s : S) (p : Result E A × S) (handler : E → Action E S A)
        → R s p.1
        → ((e : E) → Within R (handler e))
        → R s (recover p handler).1
    recover-Within s (ok a, t) handler h k = h
    recover-Within s (err e, t) handler h k = effect.chain s t _ h ((k e).at t)

    pub Within-catching :
        (call : Action E S A) (handler : E → Action E S A)
        → Within R call
        → ((e : E) → Within R (handler e))
        → Within R (catching call handler)
    unfolding catching
    Within-catching call handler h k = record {
      at = λ s. recover-Within s (call s) handler (h.at s) k;
    }

    pub Within-give : (a : A) → Within {E = E} R (give a)
    unfolding give
    Within-give a = record { at = effect.still }

    pub Within-throw : (e : E) → Within {A = A} R (throw e)
    unfolding throw
    Within-throw e = record { at = effect.still }

    pub Within-lift : {F : Type 0} (f : F → E) (r : Result F A) → Within R (lift f r)
    unfolding lift
    Within-lift f (err e) = record { at = effect.still }
    Within-lift f (ok a) = record { at = effect.still }

    pub Within-present : (o : Option A) (e : E) → Within R (present o e)
    unfolding present
    Within-present none e = record { at = effect.still }
    Within-present (some a) e = record { at = effect.still }

    pub Within-if :
        (b : Bool) (m n : Action E S A) → Within R m → Within R n → Within R (if b then m else n)
    Within-if true m n h k = h
    Within-if false m n h k = k

  pub Within-ensure : {E : Type 0} (b : Bool) (e : E) → Within R (ensure b e)
  unfolding ensure
  Within-ensure false e = record { at = effect.still }
  Within-ensure true e = record { at = effect.still }

-- What stands after a check may use that it has passed.
module _ {S : Type 0} {R : S → S → Type 0} (effect : IsEffect R) {E B : Type 0} where
  pub Within-after_lift :
      {F A : Type 0} (f : F → E) (r : Result F A) (next : A → Action E S B)
      → ((a : A) → r ≡ ok a → Within R (next a))
      → Within R (lift f r >>= next)
  unfolding ◌>>=◌
  Within-after_lift f (err e) next k = record { at = effect.still }
  Within-after_lift f (ok a) next k = record { at = (k a refl).at }

  pub Within-after_ensure :
      (b : Bool) (e : E) (next : Unit {0} → Action E S B)
      → (b ≡ true → Within R (next tt))
      → Within R (ensure b e >>= next)
  unfolding ◌>>=◌
  Within-after_ensure false e next k = record { at = effect.still }
  Within-after_ensure true e next k = record { at = (k refl).at }

pub ruleset within_rules = (
  Within-bind, Within-catching, Within-give, Within-throw, Within-lift, Within-present, Within-if,
  Within-ensure,
)
