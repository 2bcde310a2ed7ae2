-- ===== src/Domain/Message/Sequence.antt =====
-- The sequence numbers that message.ts gives and accepts.
use orkiva.Shared.{ℕ, zero, suc, ◌<◌, ok, err, ◌≡◌, refl, ◌↔◌, arith}
use orkiva.Domain.Errors.{
  Number, nat, negative, not_integer, require_positive_integer, sequence_overflow,
}
use orkiva.Domain.Message.{
  max_safe_integer, assert_next_message_sequence, get_next_message_sequence,
}

-- After any natural number below the largest safe integer comes its successor; from there on the
-- numbers have overflowed.
pub get_next_message_sequence_iff :
    (last : ℕ)
    → ((n : ℕ)
        → (get_next_message_sequence (nat last) ≡ ok n)
          ↔ ((last < max_safe_integer) × (n ≡ suc last)))
      × ((get_next_message_sequence (nat last) ≡ err sequence_overflow)
          ↔ (max_safe_integer < suc last))
unfolding get_next_message_sequence require_positive_integer
get_next_message_sequence_iff last =
    (λ n. (λ h. ground arith, λ h. ground arith), (λ h. ground arith, λ h. ground arith))

-- A pair is accepted exactly when both are whole, the first is not negative, and the second is
-- the first plus one.
pub assert_next_message_sequence_iff :
    (last next : Number)
    → (assert_next_message_sequence last next ≡ ok tt)
      ↔ ((n : ℕ) × (last ≡ nat n) × (next ≡ nat (suc n)))
unfolding assert_next_message_sequence require_positive_integer
assert_next_message_sequence_iff last next =
    (there last next, λ (n, p, q). rw (p, q) (ground arith))
  where
    there :
        (last next : Number)
        → assert_next_message_sequence last next ≡ ok tt
        → (n : ℕ) × (last ≡ nat n) × (next ≡ nat (suc n))
    there (nat n) (nat zero) h = cc
    there (nat n) (nat (suc m)) h = (n, refl, ground arith)
    there (nat n) (negative m) h = cc
    there (nat n) not_integer h = cc
    there (negative zero) next h = cc
    there (negative (suc zero)) next h = cc
    there (negative (suc (suc n))) next h = cc
    there not_integer next h = cc

-- The number that is given next is one that is accepted next.
pub assert-get_next :
    (last : Number) (n : ℕ)
    → get_next_message_sequence last ≡ ok n
    → assert_next_message_sequence last (nat n) ≡ ok tt
unfolding get_next_message_sequence assert_next_message_sequence require_positive_integer
assert-get_next (nat last) n h = ground arith
assert-get_next (negative zero) n h = cc
assert-get_next (negative (suc k)) n h = cc
assert-get_next not_integer n h = cc
