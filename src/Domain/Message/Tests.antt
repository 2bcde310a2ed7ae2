-- ===== src/Domain/Message/Tests.antt =====
-- Messages at work.
use orkiva.Shared.{ℕ, suc, ◌<◌, String, none, some, ok, err, ◌≡◌, refl, ◌↔◌}
use orkiva.Domain.Errors.{Number, nat, at, sequence_overflow}
use orkiva.Domain.Message.{
  CreateMessageInput, create_message, max_safe_integer, get_next_message_sequence,
  assert_next_message_sequence, chat,
}
use orkiva.Domain.Message.Sequence.{get_next_message_sequence_iff, assert_next_message_sequence_iff}
use orkiva.Domain.Message.Checks.{IsSendable, message_of}

abbrev a_message : CreateMessageInput
a_message = record {
  message_id = "m_1";
  thread_id = "th_1";
  schema_version = nat 1;
  seq = nat 3;
  sender_agent_id = "a";
  sender_session_id = "s";
  kind = chat;
  body = " hello ";
  metadata = none;
  in_reply_to = some " m_0";
  idempotency_key = none;
  created_at = none;
}

a_message-IsSendable : IsSendable 7 a_message
unfolding orkiva.Shared.is_empty orkiva.Shared.trim
a_message-IsSendable = record {
  version = 0;
  versioned = refl;
  number = 2;
  numbered = refl;
  metadata = tt;
  in_reply_to = refl;
  idempotency_key = tt;
  message_id = refl;
  thread_id = refl;
  sender_agent_id = refl;
  sender_session_id = refl;
  body = refl;
  time = 7;
  dated = refl;
}

a_message_created : create_message 7 a_message ≡ ok (message_of 1 3 7 a_message)
unfolding create_message orkiva.Domain.Errors.require_positive_integer
    orkiva.Domain.Errors.require_non_empty_string orkiva.Shared.trim
    orkiva.Domain.Errors.require_date
a_message_created = refl

get_next_message_sequence_iff_example :
    ((n : ℕ) → (get_next_message_sequence (nat 41) ≡ ok n) ↔ ((41 < max_safe_integer) × (n ≡ 42)))
    × ((get_next_message_sequence (nat 41) ≡ err sequence_overflow) ↔ (max_safe_integer < 42))
get_next_message_sequence_iff_example = get_next_message_sequence_iff 41

assert_next_message_sequence_iff_example :
    (assert_next_message_sequence (nat 4) (nat 5) ≡ ok tt)
    ↔ ((n : ℕ) × (nat 4 ≡ nat n) × (nat 5 ≡ nat (suc n)))
assert_next_message_sequence_iff_example = assert_next_message_sequence_iff (nat 4) (nat 5)

next_of_four : get_next_message_sequence (nat 4) ≡ ok 5
unfolding get_next_message_sequence orkiva.Domain.Errors.require_positive_integer
next_of_four = refl
