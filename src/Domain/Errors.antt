-- ===== src/Domain/Errors.antt =====
-- packages/domain/src/errors.ts: error codes and the checks on raw values.
-- A thrown `DomainError` is its code; its message and context, which no code reads back, are left
-- out.
use orkiva.Shared.{
  ℕ, zero, suc, String, Result, ok, err, is_empty, trim, if◌then◌else◌, ◌≡◌, refl, ◌⊎◌, inl, inr,
}

pub data DomainErrorCode : Type 0 where
  invalid_argument invalid_thread_transition sequence_violation sequence_overflow : DomainErrorCode
  cursor_regression session_scope_mismatch : DomainErrorCode

abbrev pub Checked : Type 0 → Type 0
Checked A = Result DomainErrorCode A

-- A `Date`: milliseconds since 1970, or an invalid date, whose `getTime()` is NaN.
pub data Date : Type 0 where
  at : ℕ → Date
  invalid : Date

-- A `number`: `negative n` is -(n + 1); `not_integer` is a fraction, NaN or an infinity.
pub data Number : Type 0 where
  nat : ℕ → Number
  negative : ℕ → Number
  not_integer : Number

-- `value + 1`
abbrev pub add_one : Number → Number
add_one (nat n) = nat (suc n)
add_one (negative zero) = nat 0
add_one (negative (suc n)) = negative n
add_one not_integer = not_integer

unfoldable pub require_date : Date → Checked ℕ
require_date (at t) = ok t
require_date invalid = err invalid_argument

unfoldable pub require_non_empty_string : String → Checked String
unfolding is_empty
require_non_empty_string value =
    let normalized = trim value in
    if is_empty normalized then err invalid_argument else ok normalized

unfoldable pub require_non_negative_integer : Number → Checked ℕ
require_non_negative_integer (nat n) = ok n
require_non_negative_integer (negative n) = err invalid_argument
require_non_negative_integer not_integer = err invalid_argument

unfoldable pub require_positive_integer : Number → Checked ℕ
require_positive_integer (nat zero) = err invalid_argument
require_positive_integer (nat (suc n)) = ok (suc n)
require_positive_integer (negative n) = err invalid_argument
require_positive_integer not_integer = err invalid_argument

-- A check has a value or an error, with the equation.
pub Checked-cases :
    {A : Type 0} (r : Checked A) → ((a : A) × (r ≡ ok a)) ⊎ ((e : DomainErrorCode) × (r ≡ err e))
Checked-cases (ok a) = inl (a, refl)
Checked-cases (err e) = inr (e, refl)
