-- ===== src/Shared/Dict.antt =====
-- A `Map` with string keys: pairs in order of insertion; writing to a key keeps its place.
pub mod Keyed
use Prim.Native.String.{String}
use mathlib.Core.Path.{◌≡◌, refl, subst₂}
use mathlib.Core.Bool.{Bool, true, false}
use mathlib.Core.Logic.{inl, inr}
use mathlib.Core.Option.{Option, none, some}
use mathlib.Core.List.{List, [], ◌∷◌, map}
use native.Mathlib.Omega.{arith}
use orkiva.Shared.Tests.{if◌then◌else◌, Bool-cases}
use orkiva.Shared.Lists.{All}
use orkiva.Shared.Texts.{str_eq, str_eq_iff}

abbrev pub Dict {ℓ} : Type ℓ → Type ℓ
Dict V = List (String × V)

module _ {ℓ} {V : Type ℓ} where
  unfoldable pub get : String → Dict V → Option V
  get k [] = none
  get k ((j, v) ∷ m) = if str_eq j k then some v else get k m

  unfoldable pub set : String → V → Dict V → Dict V
  set k v [] = (k, v) ∷ []
  set k v ((j, w) ∷ m) = if str_eq j k then (k, v) ∷ m else (j, w) ∷ set k v m

  unfoldable pub delete : String → Dict V → Dict V
  delete k [] = []
  delete k ((j, w) ∷ m) = if str_eq j k then delete k m else (j, w) ∷ delete k m

  abbrev pub values : Dict V → List V
  values [] = []
  values ((k, v) ∷ m) = v ∷ values m

  pub get-set :
      (k j : String) (v : V) (m : Dict V)
      → get j (set k v m) ≡ (if str_eq k j then some v else get j m)
  unfolding get set
  get-set k j v [] = refl
  get-set k j v ((i, w) ∷ m) =
      ground (arith, str_eq_iff k j, str_eq_iff i k, str_eq_iff i j, get-set k j v m)

  pub get-set_self : (k : String) (v : V) (m : Dict V) → get k (set k v m) ≡ some v
  get-set_self k v m = ground (arith, get-set k k v m, str_eq_iff k k)

  pub get-set_ne :
      (k j : String) (v : V) (m : Dict V) → str_eq k j ≡ false → get j (set k v m) ≡ get j m
  get-set_ne k j v m h = ground (arith, get-set k j v m)

  pub get-delete :
      (k j : String) (m : Dict V) → get j (delete k m) ≡ (if str_eq k j then none else get j m)
  unfolding get delete
  get-delete k j [] = ground arith
  get-delete k j ((i, w) ∷ m) =
      ground (arith, str_eq_iff k j, str_eq_iff i k, str_eq_iff i j, get-delete k j m)

-- What holds of every entry.
module _ {ℓ κ} {V : Type ℓ} (P : String → V → Type κ) where
  abbrev pub Each : Dict V → Type κ
  Each [] = Unit
  Each ((k, v) ∷ m) = P k v × Each m

  pub Each-set : (k : String) (v : V) (m : Dict V) → P k v → Each m → Each (set k v m)
  unfolding set
  Each-set k v [] p h = (p, tt)
  Each-set k v ((j, w) ∷ m) p (q, h) = ground (arith, Each-set k v m p h)

  pub Each-get : (k : String) {v : V} (m : Dict V) → Each m → get k m ≡ some v → P k v
  unfolding get
  Each-get k [] h e = cc
  Each-get k {v} ((j, w) ∷ m) (q, h) e = elim (Bool-cases (str_eq j k)) [
    | inl same ↦ subst₂ P ((str_eq_iff j k).0 same) (ground arith) q
    | inr other ↦ Each-get k m h (rw (other, get) at e)
  ]
