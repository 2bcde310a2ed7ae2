-- ===== src/Shared/Actions/Refusals.antt =====
-- Calls that throw and leave their state as it was, and the checks that pass or refuse.
use mathlib.Core.Path.{◌≡◌, refl, sym, ap, ◌∙◌}
use mathlib.Core.Bool.{Bool, true, false}
use mathlib.Core.Logic.{◌⊎◌, inl, inr}
use mathlib.Core.Option.{Option, none, some}
use orkiva.Shared.Results.{Result, ok, err}
use orkiva.Shared.Actions.{Action, resume, ◌>>=◌, lift, ensure, present, catching}

module _ {E S A : Type 0} where
  -- The call throws and leaves the state.
  abbrev pub IsRefused : Action E S A → S → Type 0
  IsRefused call s = (e : E) × (call s ≡ (err e, s))

  -- The call is refused, or returns a value with `P` and leaves the state.
  abbrev pub Checks : Action E S A → S → (A → Type 0) → Type 0
  Checks call s P = IsRefused call s ⊎ ((a : A) × (call s ≡ (ok a, s)) × P a)

  pub forget :
      (call : Action E S A) {s : S} {P : A → Type 0}
      → Checks call s P
      → Checks call s (λ _. Unit {0})
  forget call (inl h) = inl h
  forget call (inr (a, h, p)) = inr (a, h, tt)

  pub present-Checks : (o : Option A) (e : E) (s : S) → Checks (present o e) s (λ a. o ≡ some a)
  unfolding present
  present-Checks none e s = inl (e, refl)
  present-Checks (some a) e s = inr (a, refl, refl)

  pub lift-Checks :
      {F : Type 0} (f : F → E) (r : Result F A) (s : S) → Checks (lift f r) s (λ a. r ≡ ok a)
  unfolding lift
  lift-Checks f (err e) s = inl (f e, refl)
  lift-Checks f (ok a) s = inr (a, refl, refl)

pub ensure-Checks :
    {E S : Type 0} (b : Bool) (e : E) (s : S) → Checks (ensure b e) s (λ _. b ≡ true)
unfolding ensure
ensure-Checks false e s = inl (e, refl)
ensure-Checks true e s = inr (tt, refl, refl)

module _ {E S A B : Type 0} (call : Action E S A) (next : A → Action E S B) (s : S) where
  pub IsRefused-first : IsRefused call s → IsRefused (call >>= next) s
  unfolding ◌>>=◌
  IsRefused-first (e, h) = (e, ap (λ r. resume r next) h)

  pub IsRefused-next :
      (a : A) → call s ≡ (ok a, s) → IsRefused (next a) s → IsRefused (call >>= next) s
  unfolding ◌>>=◌
  IsRefused-next a h (e, k) = (e, ap (λ r. resume r next) h ∙ k)

  -- After a check that passes the rest stands on what the check has found.
  pub passing :
      {P : A → Type 0} {G : Type 0}
      → Checks call s P
      → ((a : A) → P a → G ⊎ IsRefused (next a) s)
      → G ⊎ IsRefused (call >>= next) s
  passing (inl h) k = inr (IsRefused-first h)
  passing (inr (a, h, p)) k = elim (k a p) [ inl g ↦ inl g | inr r ↦ inr (IsRefused-next a h r) ]

  -- Two checks in a row.
  pub Checks-bind :
      {P : A → Type 0} {Q : B → Type 0}
      → Checks call s P
      → ((a : A) → P a → Checks (next a) s Q)
      → Checks (call >>= next) s Q
  unfolding ◌>>=◌
  Checks-bind (inl h) k = inl (IsRefused-first h)
  Checks-bind (inr (a, h, p)) k = elim (k a p) [
    | inl r ↦ inl (IsRefused-next a h r)
    | inr (b, h', q) ↦ inr (b, ap (λ r. resume r next) h ∙ h', q)
  ]

module _ {E S A B : Type 0} where
  -- What follows a call that returns.
  pub returned :
      (call : Action E S A) (next : A → Action E S B) (s t : S) (a : A)
      → call s ≡ (ok a, t)
      → (call >>= next) s ≡ next a t
  unfolding ◌>>=◌
  returned call next s t a h = ap (λ r. resume r next) h

module _ {E S A : Type 0} where
  pub present_some : (o : Option A) (e : E) (s : S) (a : A) → o ≡ some a → present o e s ≡ (ok a, s)
  unfolding present
  present_some o e s a h = rw h refl

  pub lift_ok :
      {F : Type 0} (f : F → E) (r : Result F A) (s : S) (a : A) → r ≡ ok a → lift f r s ≡ (ok a, s)
  unfolding lift
  lift_ok f r s a h = rw h refl

  pub catching_ok :
      (call : Action E S A) (handler : E → Action E S A) (s t : S) (a : A)
      → call s ≡ (ok a, t)
      → catching call handler s ≡ (ok a, t)
  unfolding catching
  catching_ok call handler s t a h = rw h refl

-- What a call that returns has passed.
module _ {E S A B : Type 0} where
  resume-ok :
      (p : Result E A × S) (next : A → Action E S B) {b : B} {t : S}
      → resume p next ≡ (ok b, t)
      → (a : A) × (u : S) × (p ≡ (ok a, u)) × (next a u ≡ (ok b, t))
  resume-ok (err e, u) next h = cc (ap (λ (r : Result E B × S). r.0) h)
  resume-ok (ok a, u) next h = (a, u, refl, h)

  pub stepped :
      (call : Action E S A) (next : A → Action E S B) (s : S) {b : B} {t : S}
      → (call >>= next) s ≡ (ok b, t)
      → (a : A) × (u : S) × (call s ≡ (ok a, u)) × (next a u ≡ (ok b, t))
  unfolding ◌>>=◌
  stepped call next s {b} {t} h = resume-ok (call s) next {b = b} {t = t} h

  -- A check of the state, and the rest from the same state.
  pub stepped_check :
      (call : Action E S A) (next : A → Action E S B) (s : S) {b : B} {t : S} {P : A → Type 0}
      → Checks call s P
      → (call >>= next) s ≡ (ok b, t)
      → (a : A) × P a × (next a s ≡ (ok b, t))
  unfolding ◌>>=◌
  stepped_check call next s (inl (e, refused)) h =
      cc (ap (λ (r : Result E B × S). r.0) (sym (IsRefused-first call next s (e, refused)).1 ∙ h))
  stepped_check call next s (inr (a, here, p)) h = (a, p, sym (returned call next s s a here) ∙ h)
