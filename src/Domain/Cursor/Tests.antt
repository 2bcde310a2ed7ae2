-- ===== src/Domain/Cursor/Tests.antt =====
-- Cursors at work.
use orkiva.Shared.{ℕ, ◌≤◌, none, some, ok, ◌≡◌, refl}
use orkiva.Domain.Errors.{Number, nat, at, cursor_regression}
use orkiva.Domain.Cursor.{ParticipantCursor, AcknowledgeReadInput, Acked, acknowledge_read}
use orkiva.Domain.Cursor.Progress.{acknowledge_read_forward}

abbrev a_cursor : ParticipantCursor
a_cursor = record {
  thread_id = "th_1";
  agent_id = "a";
  last_read_seq = 3;
  last_acked_message_id = none;
  updated_at = 7;
}

abbrev ack : ℕ → AcknowledgeReadInput
ack n = record {
  last_read_seq = nat n;
  last_acked_message_id = Acked.undefined;
  updated_at = some (at 9);
}

abbrev moved : ParticipantCursor
moved = record a_cursor { last_read_seq = 5; updated_at = 9 }

acked : acknowledge_read 9 a_cursor (ack 5) ≡ ok moved
unfolding acknowledge_read orkiva.Domain.Errors.require_non_negative_integer
    orkiva.Domain.Errors.require_date
acked = refl

acknowledge_read_forward_example :
    (3 ≤ moved.last_read_seq)
    × ((ack 5).last_read_seq ≡ nat moved.last_read_seq)
    × (moved.thread_id ≡ a_cursor.thread_id)
    × (moved.agent_id ≡ a_cursor.agent_id)
acknowledge_read_forward_example = acknowledge_read_forward 9 a_cursor (ack 5) {c' = moved} acked
