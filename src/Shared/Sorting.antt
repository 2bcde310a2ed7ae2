-- ===== src/Shared/Sorting.antt =====
-- `sort` with a comparator: stable insertion, with `lt a b` for "a comes strictly before b".
use Prim.Native.Nat.{ℕ, zero, suc}
use mathlib.Core.Path.{◌≡◌, refl}
use mathlib.Core.Bool.{Bool, true, false}
use mathlib.Core.Logic.{◌⊎◌, inl, inr}
use mathlib.Core.List.{List, [], ◌∷◌, Perm, Memᴰ}
use mathlib.Core.List.Perm
use orkiva.Shared.Tests.{if◌then◌else◌, Bool-cases}
use native.Mathlib.Omega.{arith}
use orkiva.Shared.Lists.{
  All, All-map_imp, All-mem, All-of_mems, All-take, Memᴰ-uncons, length, take,
}

module _ {A : Type 0} (lt : A → A → Bool) where
  unfoldable pub place : A → List A → List A
  place x [] = x ∷ []
  place x (y ∷ ys) = if lt y x then y ∷ place x ys else x ∷ y ∷ ys

  unfoldable pub sort : List A → List A
  unfolding place
  sort [] = []
  sort (x ∷ xs) = place x (sort xs)

  -- Nothing later comes strictly before something earlier.
  abbrev pub IsSorted : List A → Type 0
  IsSorted [] = Unit
  IsSorted (x ∷ xs) = All (λ y. lt y x ≡ false) xs × IsSorted xs

  place-perm : (x : A) (xs : List A) → Perm (place x xs) (x ∷ xs)
  unfolding place
  place-perm x [] = Perm.refl _
  place-perm x (y ∷ ys) = elim (Bool-cases (lt y x)) [
    | inl e ↦ rw e (Perm.trans (Perm.cons y (place-perm x ys)) (Perm.swap x y ys))
    | inr e ↦ rw e (Perm.refl _)
  ]

  pub sort-perm : (xs : List A) → Perm (sort xs) xs
  unfolding sort
  sort-perm [] = Perm.refl _
  sort-perm (x ∷ xs) = Perm.trans (place-perm x (sort xs)) (Perm.cons x (sort-perm xs))

  pub All-place : (P : A → Type 0) (x : A) (xs : List A) → P x → All P xs → All P (place x xs)
  unfolding place
  All-place P x [] p h = (p, tt)
  All-place P x (y ∷ ys) p (q, h) = elim (Bool-cases (lt y x)) [
    | inl e ↦ rw e (q, All-place P x ys p h)
    | inr e ↦ rw e (p, (q, h))
  ]

  pub All-sort : (P : A → Type 0) (xs : List A) → All P xs → All P (sort xs)
  unfolding sort
  All-sort P [] h = tt
  All-sort P (x ∷ xs) (p, h) = All-place P x (sort xs) p (All-sort P xs h)

  mem_of_mem-place : (x : A) (xs : List A) {a : A} → Memᴰ a (place x xs) → Memᴰ a (x ∷ xs)
  unfolding place
  mem_of_mem-place x [] m = m
  mem_of_mem-place x (y ∷ ys) m = elim (Bool-cases (lt y x)) [
    | inl e ↦ elim (Memᴰ-uncons (rw e at m)) [
      | inl k ↦ Memᴰ.tail (Memᴰ.head k)
      | inr m' ↦ elim (Memᴰ-uncons (mem_of_mem-place x ys m')) [
        | inl k ↦ Memᴰ.head k
        | inr old ↦ Memᴰ.tail (Memᴰ.tail old)
      ]
    ]
    | inr e ↦ rw e at m
  ]

  pub mem_of_mem-sort : (xs : List A) {a : A} → Memᴰ a (sort xs) → Memᴰ a xs
  unfolding sort
  mem_of_mem-sort [] m = m
  mem_of_mem-sort (x ∷ xs) m = elim (Memᴰ-uncons (mem_of_mem-place x (sort xs) m)) [
    | inl k ↦ Memᴰ.head k
    | inr old ↦ Memᴰ.tail (mem_of_mem-sort xs old)
  ]

  All-of_All-place : (P : A → Type 0) (x : A) (xs : List A) → All P (place x xs) → P x × All P xs
  unfolding place
  All-of_All-place P x [] h = h
  All-of_All-place P x (y ∷ ys) h = elim (Bool-cases (lt y x)) [
    | inl e ↦
        let h' : P y × All P (place x ys) = rw e at h in
        let (p, rest) = All-of_All-place P x ys h'.1 in (p, (h'.0, rest))
    | inr e ↦ rw e at h
  ]

  pub All-of_All-sort : (P : A → Type 0) (xs : List A) → All P (sort xs) → All P xs
  unfolding sort
  All-of_All-sort P [] h = tt
  All-of_All-sort P (x ∷ xs) h =
      let (p, rest) = All-of_All-place P x (sort xs) h in (p, All-of_All-sort P xs rest)

  pub mem-sort : (xs : List A) {a : A} → Memᴰ a xs → Memᴰ a (sort xs)
  mem-sort xs m = All-mem _ xs (All-of_All-sort _ xs (All-of_mems _ (sort xs) (λ _ i. i))) m

  pub take-IsSorted : (n : ℕ) (xs : List A) → IsSorted xs → IsSorted (take n xs)
  take-IsSorted zero xs h = tt
  take-IsSorted (suc n) [] h = tt
  take-IsSorted (suc n) (x ∷ xs) (first, h) = (All-take _ n xs first, take-IsSorted n xs h)

  -- What is not among the first of a sorted list comes strictly before none of them, and there
  -- are as many of them as were asked for.
  pub mem-take :
      (n : ℕ) (xs : List A) {a : A}
      → IsSorted xs
      → Memᴰ a xs
      → Memᴰ a (take n xs) ⊎ ((length (take n xs) ≡ n) × All (λ y. lt a y ≡ false) (take n xs))
  mem-take zero xs h m = inr (refl, tt)
  mem-take (suc n) [] h m = elim m [ ]
  mem-take (suc n) (x ∷ xs) (first, h) (Memᴰ.head e) = inl (Memᴰ.head e)
  mem-take (suc n) (x ∷ xs) (first, h) (Memᴰ.tail m) = elim (mem-take n xs h m) [
    | inl i ↦ inl (Memᴰ.tail i)
    | inr (full, all) ↦ inr (omega (arith, full), (All-mem _ xs first m, all))
  ]

  module _ (asym : (a b : A) → lt a b ≡ true → lt b a ≡ false)
      (trans : (a b c : A) → lt b a ≡ false → lt c b ≡ false → lt c a ≡ false) where
    place-IsSorted : (x : A) (xs : List A) → IsSorted xs → IsSorted (place x xs)
    unfolding place
    place-IsSorted x [] h = (tt, tt)
    place-IsSorted x (y ∷ ys) (first, h) = elim (Bool-cases (lt y x)) [
      | inl e ↦
          rw e (All-place (λ z. lt z y ≡ false) x ys (asym y x e) first, place-IsSorted x ys h)
      | inr e ↦ rw e ((e, All-map_imp (λ z k. trans x y z e k) ys first), (first, h))
    ]

    pub sort-IsSorted : (xs : List A) → IsSorted (sort xs)
    unfolding sort
    sort-IsSorted [] = tt
    sort-IsSorted (x ∷ xs) = place-IsSorted x (sort xs) (sort-IsSorted xs)
