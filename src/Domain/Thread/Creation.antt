-- ===== src/Domain/Thread/Creation.antt =====
-- What thread.ts accepts as a new thread, and what it stores of it.
use orkiva.Shared.{
  ℕ, ◌+◌, ◌≤◌, Bool, false, ◌||◌, String, List, [], ◌∷◌, ◌++◌, map, ok, any, length, ◌==◌, str_eq,
  str_eq_iff, guard-eq-ok, not, or_else, ◌≡◌, refl, ◌≢◌, arith, All, Bool-cases, inl, inr, trim,
  trim_idem, is_empty, >>=-eq-ok, length-append,
}
use orkiva.Domain.Errors.{Date, at, invalid, require_date, require_non_empty_string}
use orkiva.Domain.Thread.{
  Thread, CreateThreadInput, ThreadStatus, ThreadType, active, require_each, set_from,
  normalize_participants, create_thread, require_thread_status, require_thread_type,
}

-- A name that survives `requireNonEmptyString` unchanged.
abbrev pub IsName : String → Type 0
IsName s = (trim s ≡ s) × (is_empty s ≡ false)

abbrev pub Distinct : List String → Type 0
Distinct [] = Unit
Distinct (x ∷ xs) = (any (str_eq x) xs ≡ false) × Distinct xs

abbrev pub IsPresent : String → Type 0
IsPresent s = is_empty (trim s) ≡ false

pub require_non_empty_string_of_IsPresent :
    (s : String) → IsPresent s → require_non_empty_string s ≡ ok (trim s)
unfolding require_non_empty_string
require_non_empty_string_of_IsPresent s h = ground arith

pub IsPresent_of_require_non_empty_string :
    (s : String) {t : String} → require_non_empty_string s ≡ ok t → IsPresent s × (t ≡ trim s)
unfolding require_non_empty_string
IsPresent_of_require_non_empty_string s h = ground arith

pub IsName-trim : (s : String) → IsPresent s → IsName (trim s)
IsName-trim s h = (trim_idem s, h)

require_each_of_IsPresent :
    (xs : List String) → All IsPresent xs → require_each xs ≡ ok (map trim xs)
unfolding require_each
require_each_of_IsPresent [] h = refl
require_each_of_IsPresent (x ∷ xs) (p, h) =
    rw (require_non_empty_string_of_IsPresent x p, require_each_of_IsPresent xs h)

IsPresent_of_require_each :
    (xs : List String) {ys : List String}
    → require_each xs ≡ ok ys
    → All IsPresent xs × (ys ≡ map trim xs)
unfolding require_each
IsPresent_of_require_each [] h = (tt, cc)
IsPresent_of_require_each (x ∷ xs) h =
    let (y, first, h') = >>=-eq-ok (require_non_empty_string x) _ h in
    let (zs, later, e) = >>=-eq-ok (require_each xs) _ h' in
    let (p, same) = IsPresent_of_require_non_empty_string x first in
    let (ps, rest) = IsPresent_of_require_each xs later in ((p, ps), cc)

any-append : (p : String → Bool) (xs ys : List String) → any p (xs ++ ys) ≡ (any p xs || any p ys)
any-append p [] ys = refl
any-append p (x ∷ xs) ys = ground (arith, any-append p xs ys)

-- What `set_from` adds is new to what it has seen.
abbrev Fresh : List String → List String → Type 0
Fresh seen xs = All (λ y. any (str_eq y) seen ≡ false) xs

Fresh-concat :
    (seen : List String) (x : String) (xs : List String)
    → Fresh (seen ++ x ∷ []) xs
    → Fresh seen xs × (any (str_eq x) xs ≡ false)
Fresh-concat seen x [] h = (tt, refl)
Fresh-concat seen x (y ∷ ys) (p, h) =
    let (rest, apart) = Fresh-concat seen x ys h in
    let cut = any-append (str_eq y) seen (x ∷ []) in
    ((ground arith, rest), ground (arith, str_eq_iff x y, str_eq_iff y x))

concat-Fresh :
    (seen : List String) (x : String) (xs : List String)
    → Fresh seen xs
    → any (str_eq x) xs ≡ false
    → Fresh (seen ++ x ∷ []) xs
concat-Fresh seen x [] h k = tt
concat-Fresh seen x (y ∷ ys) (p, h) k =
    let cut = any-append (str_eq y) seen (x ∷ []) in
    (ground (arith, str_eq_iff x y, str_eq_iff y x), concat-Fresh seen x ys h (ground arith))

length-set_from-le : (seen xs : List String) → length (set_from seen xs) ≤ length seen + length xs
unfolding set_from
length-set_from-le seen [] = omega arith
length-set_from-le seen (x ∷ xs) = elim (Bool-cases (any (str_eq x) seen)) [
  | inl e ↦ rw e (omega (arith, length-set_from-le seen xs))
  | inr e ↦
      rw e (omega (arith, length-set_from-le (seen ++ x ∷ []) xs, length-append {0} seen (x ∷ [])))
]

Distinct-of_length-set_from :
    (seen xs : List String)
    → length (set_from seen xs) ≡ length seen + length xs
    → Fresh seen xs × Distinct xs
unfolding set_from
Distinct-of_length-set_from seen [] h = (tt, tt)
Distinct-of_length-set_from seen (x ∷ xs) h = elim (Bool-cases (any (str_eq x) seen)) [
  | inl e ↦ absurd (omega (arith, rw e at h, length-set_from-le seen xs))
  | inr e ↦
      let (fresh, distinct) =
        Distinct-of_length-set_from (seen ++ x ∷ []) xs
          (omega (arith, rw e at h, length-append {0} seen (x ∷ []))) in
      let (old, apart) = Fresh-concat seen x xs fresh in ((e, old), (apart, distinct))
]

length-set_from_of_Distinct :
    (seen xs : List String)
    → Fresh seen xs
    → Distinct xs
    → length (set_from seen xs) ≡ length seen + length xs
unfolding set_from
length-set_from_of_Distinct seen [] f d = omega arith
length-set_from_of_Distinct seen (x ∷ xs) (e, f) (apart, d) = rw e (
    omega (
      arith,
      length-set_from_of_Distinct (seen ++ x ∷ []) xs (concat-Fresh seen x xs f apart) d,
      length-append {0} seen (x ∷ []),
    ))

Fresh-nil : (xs : List String) → Fresh [] xs
Fresh-nil [] = tt
Fresh-nil (x ∷ xs) = (refl, Fresh-nil xs)

pub IsName-map-trim : (xs : List String) → All IsPresent xs → All IsName (map trim xs)
IsName-map-trim [] h = tt
IsName-map-trim (x ∷ xs) (p, h) = (IsName-trim x p, IsName-map-trim xs h)

-- The participants that are accepted: some, none blank, and no two alike once trimmed.
pub record IsRoster (xs : List String) : Type 0 where
  pub some_listed : length xs ≢ 0
  pub present : All IsPresent xs
  pub distinct : Distinct (map trim xs)

normalize_participants_of_IsRoster :
    (xs : List String) → IsRoster xs → normalize_participants xs ≡ ok (map trim xs)
unfolding normalize_participants
normalize_participants_of_IsRoster xs r = rw (require_each_of_IsPresent xs r.present) (
    ground (
      arith,
      r.some_listed,
      length-set_from_of_Distinct [] (map trim xs) (Fresh-nil (map trim xs)) r.distinct,
    ))

IsRoster-of_normalize_participants :
    (xs : List String) {ys : List String}
    → normalize_participants xs ≡ ok ys
    → IsRoster xs × (ys ≡ map trim xs)
unfolding normalize_participants
IsRoster-of_normalize_participants xs h =
    let listed = guard-eq-ok (not (length xs == 0)) _ _ h in
    let (zs, each, h') = >>=-eq-ok (require_each xs) _ (listed.1) in
    let (present, same) = IsPresent_of_require_each xs each in
    let (sized, e) = guard-eq-ok (length (set_from [] zs) == length zs) _ _ h' in
    let (_, distinct) = Distinct-of_length-set_from [] zs (ground arith) in
    (record { some_listed = ground arith; present = present; distinct = rw (← same) distinct }, cc)

pub at_of_require_date : (d : Date) {t : ℕ} → require_date d ≡ ok t → d ≡ at t
unfolding require_date
at_of_require_date (at t) h = cc
at_of_require_date invalid h = cc

-- The inputs that `createThread` accepts.
pub record IsAcceptable (now : ℕ) (input : CreateThreadInput) : Type 0 where
  pub time : ℕ
  pub dated : or_else input.created_at (at now) ≡ at time
  pub thread_id : IsPresent input.thread_id
  pub workspace_id : IsPresent input.workspace_id
  pub title : IsPresent input.title
  pub roster : IsRoster input.participants

-- The thread that is made of an input: names trimmed, `active` unless a status is asked for.
abbrev pub thread_of : ℕ → CreateThreadInput → Thread
thread_of time input = record {
  thread_id = trim input.thread_id;
  workspace_id = trim input.workspace_id;
  title = trim input.title;
  type = input.type;
  status = or_else input.status active;
  participants = map trim input.participants;
  created_at = time;
  updated_at = time;
}

require_thread_status_ok : (s : ThreadStatus) → require_thread_status s ≡ ok s
unfolding require_thread_status
require_thread_status_ok s = ground arith

require_thread_type_ok : (t : ThreadType) → require_thread_type t ≡ ok t
unfolding require_thread_type
require_thread_type_ok t = ground arith

-- An acceptable input is stored with every name trimmed, both times equal, and the status that
-- it asks for, `active` by default.
pub create_thread_accepts :
    (now : ℕ) (input : CreateThreadInput) (a : IsAcceptable now input)
    → create_thread now input ≡ ok (thread_of a.time input)
unfolding create_thread require_date
create_thread_accepts now input a = rw (
  a.dated,
  require_thread_status_ok (or_else input.status active),
  require_non_empty_string_of_IsPresent input.thread_id a.thread_id,
  require_non_empty_string_of_IsPresent input.workspace_id a.workspace_id,
  require_non_empty_string_of_IsPresent input.title a.title,
  require_thread_type_ok input.type,
  normalize_participants_of_IsRoster input.participants a.roster,
)

-- Only an acceptable input makes a thread.
pub create_thread_requires :
    (now : ℕ) (input : CreateThreadInput) {t : Thread}
    → create_thread now input ≡ ok t
    → IsAcceptable now input
unfolding create_thread
create_thread_requires now input h =
    let (time, dated, h₁) = >>=-eq-ok (require_date (or_else input.created_at (at now))) _ h in
    let (_, _, h₂) = >>=-eq-ok (require_thread_status (or_else input.status active)) _ h₁ in
    let (_, thread_id, h₃) = >>=-eq-ok (require_non_empty_string input.thread_id) _ h₂ in
    let (_, workspace_id, h₄) = >>=-eq-ok (require_non_empty_string input.workspace_id) _ h₃ in
    let (_, title, h₅) = >>=-eq-ok (require_non_empty_string input.title) _ h₄ in
    let (_, _, h₆) = >>=-eq-ok (require_thread_type input.type) _ h₅ in
    let (_, roster, _) = >>=-eq-ok (normalize_participants input.participants) _ h₆ in
    record {
      time = time;
      dated = at_of_require_date _ dated;
      thread_id = (IsPresent_of_require_non_empty_string _ thread_id).0;
      workspace_id = (IsPresent_of_require_non_empty_string _ workspace_id).0;
      title = (IsPresent_of_require_non_empty_string _ title).0;
      roster = (IsRoster-of_normalize_participants _ roster).0;
    }

-- What holds of every stored thread, whatever its status.
pub record IsWellFormed (t : Thread) : Type 0 where
  pub thread_id : IsName t.thread_id
  pub workspace_id : IsName t.workspace_id
  pub title : IsName t.title
  pub some_listed : length t.participants ≢ 0
  pub participants : All IsName t.participants
  pub distinct : Distinct t.participants

length-map-ne-zero : (xs : List String) → length xs ≢ 0 → length (map trim xs) ≢ 0
length-map-ne-zero [] h = h
length-map-ne-zero (x ∷ xs) h = omega arith

-- A created thread has trimmed, non-empty names and at least one participant, none listed twice.
pub create_thread-IsWellFormed :
    (now : ℕ) (input : CreateThreadInput) {t : Thread}
    → create_thread now input ≡ ok t
    → IsWellFormed t
create_thread-IsWellFormed now input {t} h =
    let a = create_thread_requires now input h in
    let same : t ≡ thread_of a.time input = cc (create_thread_accepts now input a) in
    rw same (record {
      thread_id = IsName-trim input.thread_id a.thread_id;
      workspace_id = IsName-trim input.workspace_id a.workspace_id;
      title = IsName-trim input.title a.title;
      some_listed = length-map-ne-zero input.participants a.roster.some_listed;
      participants = IsName-map-trim input.participants a.roster.present;
      distinct = a.roster.distinct;
    })
