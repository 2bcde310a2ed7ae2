-- ===== src/Shared/Lists.antt =====
-- Lists under Boolean tests, measured by native numbers.
use Prim.Native.Nat.{ℕ, zero, suc, ◌+◌, ◌≤◌}
use mathlib.Core.Path.{◌≡◌, refl, sym, subst, ap, ◌∙◌}
use mathlib.Core.Bool.{Bool, true, false, ◌||◌, false≢true}
use mathlib.Core.Logic.{◌⊎◌, inl, inr}
use mathlib.Core.Option.{Option, none, some}
use mathlib.Core.List.{List, [], ◌∷◌, ◌++◌, map, Memᴰ}
use native.Mathlib.Omega.{arith}
use orkiva.Shared.Tests.{if◌then◌else◌, Bool-cases}

module _ {ℓ} {A : Type ℓ} where
  abbrev pub length : List A → ℕ
  length [] = 0
  length (x ∷ xs) = suc (length xs)

  -- `slice(0, n)`
  abbrev pub take : ℕ → List A → List A
  take zero xs = []
  take (suc n) [] = []
  take (suc n) (x ∷ xs) = x ∷ take n xs

  abbrev pub filter : (A → Bool) → List A → List A
  filter p [] = []
  filter p (x ∷ xs) = let rest = filter p xs in if p x then x ∷ rest else rest

  -- `some` of the source's arrays.
  abbrev pub any : (A → Bool) → List A → Bool
  any p [] = false
  any p (x ∷ xs) = p x || any p xs

  abbrev pub find? : (A → Bool) → List A → Option A
  find? p [] = none
  find? p (x ∷ xs) = let rest = find? p xs in if p x then some x else rest

  -- `at(-1)`
  abbrev pub get_last? : List A → Option A
  get_last? [] = none
  get_last? (x ∷ []) = some x
  get_last? (x ∷ y ∷ xs) = get_last? (y ∷ xs)

  abbrev pub head? : List A → Option A
  head? [] = none
  head? (x ∷ xs) = some x

  pub find?-append_some :
      (p : A → Bool) (xs ys : List A) {x : A} → find? p xs ≡ some x → find? p (xs ++ ys) ≡ some x
  find?-append_some p [] ys h = cc
  find?-append_some p (x ∷ xs) ys {x = y} h = ground (arith, find?-append_some p xs ys {x = y})

  -- A search that finds nothing goes on to what is appended.
  pub find?-append_none :
      (p : A → Bool) (xs ys : List A) → find? p xs ≡ none → find? p (xs ++ ys) ≡ find? p ys
  find?-append_none p [] ys h = refl
  find?-append_none p (x ∷ xs) ys h = ground (arith, find?-append_none p xs ys)

  pub length-append : (xs ys : List A) → length (xs ++ ys) ≡ length xs + length ys
  length-append [] ys = omega arith
  length-append (x ∷ xs) ys = omega (arith, length-append xs ys)

  pub length-take-le : (n : ℕ) (xs : List A) → length (take n xs) ≤ n
  length-take-le zero xs = omega arith
  length-take-le (suc n) [] = omega arith
  length-take-le (suc n) (x ∷ xs) = omega (arith, length-take-le n xs)

  pub get_last?-concat : (xs : List A) (x : A) → get_last? (xs ++ x ∷ []) ≡ some x
  get_last?-concat [] x = refl
  get_last?-concat (y ∷ []) x = refl
  get_last?-concat (y ∷ z ∷ xs) x = get_last?-concat (z ∷ xs) x

module _ {ℓ κ} {A : Type ℓ} (P : A → Type κ) where
  abbrev pub All : List A → Type κ
  All [] = Unit
  All (x ∷ xs) = P x × All xs

  pub All-append : (xs ys : List A) → All xs → All ys → All (xs ++ ys)
  All-append [] ys _ k = k
  All-append (x ∷ xs) ys (p, h) k = (p, All-append xs ys h k)

  pub All-take : (n : ℕ) (xs : List A) → All xs → All (take n xs)
  All-take zero xs h = tt
  All-take (suc n) [] h = tt
  All-take (suc n) (x ∷ xs) (p, h) = (p, All-take n xs h)

  -- Every kept element passes the test, and keeps what held of it.
  pub All-filter : (p : A → Bool) (xs : List A) → All xs → All (filter p xs)
  All-filter p [] h = tt
  All-filter p (x ∷ xs) (q, h) = elim (Bool-cases (p x)) [
    | inl e ↦ rw e (q, All-filter p xs h)
    | inr e ↦ rw e (All-filter p xs h)
  ]

module _ {ℓ} {A : Type ℓ} where
  pub All-filter_test : (p : A → Bool) (xs : List A) → All (λ x. p x ≡ true) (filter p xs)
  All-filter_test p [] = tt
  All-filter_test p (x ∷ xs) = elim (Bool-cases (p x)) [
    | inl e ↦ rw e (e, All-filter_test p xs)
    | inr e ↦ rw e (All-filter_test p xs)
  ]

  pub All-map_imp {κ μ} :
      {P : A → Type κ} {Q : A → Type μ} (f : (x : A) → P x → Q x) (xs : List A)
      → All P xs
      → All Q xs
  All-map_imp f [] h = tt
  All-map_imp f (x ∷ xs) (p, h) = (f x p, All-map_imp f xs h)

  pub All-map {κ μ} :
      {B : Type κ} (Q : B → Type μ) (f : A → B) (xs : List A)
      → All (λ x. Q (f x)) xs
      → All Q (map f xs)
  All-map Q f [] h = tt
  All-map Q f (x ∷ xs) (p, h) = (p, All-map Q f xs h)

  pub All-filter_imp {κ μ} :
      (P : A → Type κ) (Q : A → Type μ) (p : A → Bool)
      → ((x : A) → P x → p x ≡ true → Q x)
      → (xs : List A) → All P xs
      → All Q (filter p xs)
  All-filter_imp P Q p f [] h = tt
  All-filter_imp P Q p f (x ∷ xs) (here, h) = elim (Bool-cases (p x)) [
    | inl e ↦ rw e (f x here e, All-filter_imp P Q p f xs h)
    | inr e ↦ rw e (All-filter_imp P Q p f xs h)
  ]

  pub Memᴰ-uncons : {a x : A} {xs : List A} → Memᴰ a (x ∷ xs) → (a ≡ x) ⊎ Memᴰ a xs
  Memᴰ-uncons (Memᴰ.head e) = inl e
  Memᴰ-uncons (Memᴰ.tail m) = inr m

  pub mem_of_mem-filter :
      (p : A → Bool) (xs : List A) {a : A} → Memᴰ a (filter p xs) → Memᴰ a xs × (p a ≡ true)
  mem_of_mem-filter p [] m = elim m [ ]
  mem_of_mem-filter p (x ∷ xs) {a} m = elim (Bool-cases (p x)) [
    | inl e ↦ elim (Memᴰ-uncons (rw e at m)) [
      | inl k ↦ (Memᴰ.head k, rw k e)
      | inr m' ↦ let (old, t) = mem_of_mem-filter p xs m' in (Memᴰ.tail old, t)
    ]
    | inr e ↦ let (old, t) = mem_of_mem-filter p xs (rw e at m) in (Memᴰ.tail old, t)
  ]

  pub mem_map {κ} :
      {B : Type κ} (f : A → B) (xs : List A) {a : A} → Memᴰ a xs → Memᴰ (f a) (map f xs)
  mem_map f [] m = elim m [ ]
  mem_map f (x ∷ xs) (Memᴰ.head e) = Memᴰ.head (ap f e)
  mem_map f (x ∷ xs) (Memᴰ.tail m) = Memᴰ.tail (mem_map f xs m)

module _ {ℓ κ} {A : Type ℓ} (P : A → Type κ) where
  pub All-mem : (xs : List A) {a : A} → All P xs → Memᴰ a xs → P a
  All-mem [] h m = elim m [ ]
  All-mem (x ∷ xs) (p, h) (Memᴰ.head e) = subst P (sym e) p
  All-mem (x ∷ xs) (p, h) (Memᴰ.tail m) = All-mem xs h m

  -- What holds of the kept elements holds of all that pass the test.
  pub All-of_All-filter :
      (p : A → Bool) (xs : List A) → All P (filter p xs) → All (λ x. p x ≡ true → P x) xs
  All-of_All-filter p [] h = tt
  All-of_All-filter p (x ∷ xs) h = elim (Bool-cases (p x)) [
    | inl e ↦
        let h' : All P (x ∷ filter p xs) = rw e at h in (λ _. h'.0, All-of_All-filter p xs h'.1)
    | inr e ↦
        let h' : All P (filter p xs) = rw e at h in
        (λ e'. absurd (false≢true (sym e ∙ e')), All-of_All-filter p xs h')
  ]

  pub All-of_mems : (xs : List A) → ((a : A) → Memᴰ a xs → P a) → All P xs
  All-of_mems [] f = tt
  All-of_mems (x ∷ xs) f = (f x (Memᴰ.head refl), All-of_mems xs (λ a m. f a (Memᴰ.tail m)))

module _ {ℓ} {A : Type ℓ} where
  pub mem-filter :
      (p : A → Bool) (xs : List A) {a : A} → Memᴰ a xs → p a ≡ true → Memᴰ a (filter p xs)
  mem-filter p xs m e =
      All-mem _ xs (All-of_All-filter _ p xs (All-of_mems _ (filter p xs) (λ _ i. i))) m e
