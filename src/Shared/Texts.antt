-- ===== src/Shared/Texts.antt =====
-- Text as the source uses it: comparison, `trim`, emptiness, and joining.
use Prim.Native.Char.{Char, code}
use Prim.Native.String.{String, [], ◌∷◌}
use mathlib.Core.Path.{◌≡◌, refl}
use mathlib.Core.Logic.{inl, inr}
use mathlib.Core.Bool.{Bool, true, false, ◌&&◌, ◌||◌}
use text.Mathlib.Text
use text.Mathlib.TextEquality.{eq_iff}
use orkiva.Shared.Tests.{leb, ◌==◌, if◌then◌else◌, Bool-cases}

-- `===` on strings.
abbrev pub str_eq : String → String → Bool
str_eq a b = Text.◌==◌ a b

pub str_eq_iff : (a b : String) → ((str_eq a b ≡ true) → a ≡ b) × (a ≡ b → str_eq a b ≡ true)
str_eq_iff a b = ((eq_iff a b).0, (eq_iff a b).1)

-- White space and line ends, which `trim` removes.
unfoldable pub is_space : Char → Bool
is_space c =
    let n = code c in
    (leb 9 n && leb n 13)
    || n == 32
    || n == 160
    || n == 5760
    || (leb 8192 n && leb n 8202)
    || n == 8232
    || n == 8233
    || n == 8239
    || n == 8287
    || n == 12288
    || n == 65279

unfoldable pub is_empty : String → Bool
is_empty [] = true
is_empty (c ∷ s) = false

trim_start : String → String
trim_start [] = []
trim_start (c ∷ s) = if is_space c then trim_start s else c ∷ s

trim_end : String → String
unfolding is_empty
trim_end [] = []
trim_end (c ∷ s) = let rest = trim_end s in if is_space c && is_empty rest then [] else c ∷ rest

unfoldable pub trim : String → String
unfolding trim_start trim_end is_space
trim s = trim_end (trim_start s)

-- `text.startsWith(prefix)`
unfoldable pub starts_with : String → String → Bool
starts_with text [] = true
starts_with [] (c ∷ prefix) = false
starts_with (d ∷ text) (c ∷ prefix) = code d == code c && starts_with text prefix

-- `text.slice(2)`
abbrev pub slice_two : String → String
slice_two [] = []
slice_two (a ∷ []) = []
slice_two (a ∷ b ∷ rest) = rest

abbrev StartsDark : String → Type 0
StartsDark [] = Unit
StartsDark (c ∷ s) = is_space c ≡ false

trim_start-StartsDark : (s : String) → StartsDark (trim_start s)
unfolding trim_start
trim_start-StartsDark [] = tt
trim_start-StartsDark (c ∷ s) = elim (Bool-cases (is_space c)) [
  | inl e ↦ rw e (trim_start-StartsDark s)
  | inr e ↦ rw e e
]

trim_start_of_StartsDark : (s : String) → StartsDark s → trim_start s ≡ s
unfolding trim_start
trim_start_of_StartsDark [] h = refl
trim_start_of_StartsDark (c ∷ s) h = rw h

trim_end-StartsDark : (s : String) → StartsDark s → StartsDark (trim_end s)
unfolding trim_end
trim_end-StartsDark [] h = tt
trim_end-StartsDark (c ∷ s) h = rw h h

trim_end_idem : (s : String) → trim_end (trim_end s) ≡ trim_end s
unfolding trim_end
trim_end_idem [] = refl
trim_end_idem (c ∷ s) = elim (Bool-cases (is_space c && is_empty (trim_end s))) [
  | inl e ↦ rw e
  | inr e ↦ rw (e, trim_end_idem s, e)
]

-- Trimming trimmed text changes nothing.
pub trim_idem : (s : String) → trim (trim s) ≡ trim s
unfolding trim
trim_idem s =
    rw (trim_start_of_StartsDark _ (trim_end-StartsDark _ (trim_start-StartsDark s)))
      (trim_end_idem (trim_start s))
