-- ===== src/Shared/Dict/Keyed.antt =====
-- Dictionaries whose values carry their key, as records under their id.
use mathlib.Core.List.{Memᴰ}
use Prim.Native.Nat.{ℕ, zero, suc}
use Prim.Native.String.{String}
use mathlib.Core.Path.{◌≡◌, refl, ◌∙◌}
use mathlib.Core.Logic.{inl, inr}
use mathlib.Core.Bool.{Bool, false}
use mathlib.Core.Option.{none, some}
use mathlib.Core.List.{List, [], ◌∷◌}
use native.Mathlib.Omega.{arith}
use orkiva.Shared.Tests.{Bool-cases}
use orkiva.Shared.Lists.{All, Memᴰ-uncons, filter, take, All-filter, All-take}
use orkiva.Shared.Texts.{str_eq, str_eq_iff}
use orkiva.Shared.Sorting.{place, sort, All-sort, All-place}
use orkiva.Shared.Dict.{Dict, get, set, values, get-set_ne}

module _ {V : Type 0} (id : V → String) where
  -- Every value stands under its id, and no key stands twice.
  abbrev pub IsKeyed : Dict V → Type 0
  IsKeyed [] = Unit
  IsKeyed ((k, v) ∷ m) = (k ≡ id v) × (get k m ≡ none) × IsKeyed m

  pub set-IsKeyed : (v : V) (m : Dict V) → IsKeyed m → IsKeyed (set (id v) v m)
  unfolding set get
  set-IsKeyed v [] h = (refl, refl, tt)
  set-IsKeyed v ((j, w) ∷ m) (e, n, h) = elim (Bool-cases (str_eq j (id v))) [
    | inl same ↦ rw same (refl, rw ((str_eq_iff j (id v)).0 same) at n, h)
    | inr other ↦
        rw other (e, get-set_ne (id v) j v m (str_eq_sym j (id v) other) ∙ n, set-IsKeyed v m h)
  ]
    where
      str_eq_sym : (a b : String) → str_eq a b ≡ false → str_eq b a ≡ false
      str_eq_sym a b h = ground (arith, str_eq_iff a b, str_eq_iff b a)

  pub id_of_get : (k : String) (m : Dict V) {v : V} → IsKeyed m → get k m ≡ some v → k ≡ id v
  unfolding get
  id_of_get k [] h e = cc
  id_of_get k ((j, w) ∷ m) {v} (same, n, h) e = elim (Bool-cases (str_eq j k)) [
    | inl t ↦ ground (arith, str_eq_iff j k)
    | inr t ↦ id_of_get k m h (rw (t, get) at e)
  ]

  -- A value that is listed is found under its id.
  pub get_of_mem-values :
      (m : Dict V) {v : V} → IsKeyed m → Memᴰ v (values m) → get (id v) m ≡ some v
  unfolding get
  get_of_mem-values [] h i = elim i [ ]
  get_of_mem-values ((j, w) ∷ m) {v} (same, n, h) i = elim (Memᴰ-uncons i) [
    | inl e ↦ ground (arith, str_eq_iff j (id v))
    | inr i' ↦
        let found = get_of_mem-values m h i' in
        elim (Bool-cases (str_eq j (id v))) [
          | inl t ↦
              let n' : get (id v) m ≡ none = rw ((str_eq_iff j (id v)).0 t) at n in cc (found, n')
          | inr t ↦ rw t found
        ]
  ]

  abbrev pub IsApart : V → V → Type 0
  IsApart a b = str_eq (id a) (id b) ≡ false

  -- No two values of a list have one id.
  abbrev pub HasDistinctIds : List V → Type 0
  HasDistinctIds [] = Unit
  HasDistinctIds (x ∷ xs) = All (IsApart x) xs × HasDistinctIds xs

  IsApart-sym : (a b : V) → IsApart a b → IsApart b a
  IsApart-sym a b h = ground (arith, str_eq_iff (id a) (id b), str_eq_iff (id b) (id a))

  apart_of_absent :
      (k : String) (m : Dict V)
      → IsKeyed m
      → get k m ≡ none
      → All (λ w. str_eq k (id w) ≡ false) (values m)
  unfolding get
  apart_of_absent k [] h n = tt
  apart_of_absent k ((j, w) ∷ m) (same, _, h) n = elim (Bool-cases (str_eq j k)) [
    | inl t ↦ absurd (ground arith)
    | inr t ↦ (
      ground (arith, str_eq_iff j k, str_eq_iff k (id w)),
      apart_of_absent k m h (rw (t, get) at n),
    )
  ]

  pub values-HasDistinctIds : (m : Dict V) → IsKeyed m → HasDistinctIds (values m)
  values-HasDistinctIds [] h = tt
  values-HasDistinctIds ((k, v) ∷ m) (same, n, h) =
      (rw same at (apart_of_absent k m h n), values-HasDistinctIds m h)

  pub filter-HasDistinctIds :
      (p : V → Bool) (xs : List V) → HasDistinctIds xs → HasDistinctIds (filter p xs)
  filter-HasDistinctIds p [] h = tt
  filter-HasDistinctIds p (x ∷ xs) (a, h) = elim (Bool-cases (p x)) [
    | inl e ↦ rw e (All-filter (IsApart x) p xs a, filter-HasDistinctIds p xs h)
    | inr e ↦ rw e (filter-HasDistinctIds p xs h)
  ]

  pub take-HasDistinctIds : (n : ℕ) (xs : List V) → HasDistinctIds xs → HasDistinctIds (take n xs)
  take-HasDistinctIds zero xs h = tt
  take-HasDistinctIds (suc n) [] h = tt
  take-HasDistinctIds (suc n) (x ∷ xs) (a, h) =
      (All-take (IsApart x) n xs a, take-HasDistinctIds n xs h)

  module _ (lt : V → V → Bool) where
    place-HasDistinctIds :
        (x : V) (xs : List V)
        → All (IsApart x) xs
        → HasDistinctIds xs
        → HasDistinctIds (place lt x xs)
    unfolding place
    place-HasDistinctIds x [] a h = (tt, tt)
    place-HasDistinctIds x (y ∷ ys) (p, a) (b, h) = elim (Bool-cases (lt y x)) [
      | inl e ↦
          rw e (All-place lt (IsApart y) x ys (IsApart-sym x y p) b, place-HasDistinctIds x ys a h)
      | inr e ↦ rw e ((p, a), (b, h))
    ]

    pub sort-HasDistinctIds : (xs : List V) → HasDistinctIds xs → HasDistinctIds (sort lt xs)
    unfolding sort
    sort-HasDistinctIds [] h = tt
    sort-HasDistinctIds (x ∷ xs) (a, h) =
        place-HasDistinctIds x (sort lt xs) (All-sort lt (IsApart x) xs a)
          (sort-HasDistinctIds xs h)
