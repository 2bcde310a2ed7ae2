-- ===== src/Domain/Cursor.antt =====
-- packages/domain/src/cursor.ts: how far a participant has read a thread.
pub mod Progress
mod Tests
use orkiva.Shared.{
  ℕ, ◌-◌, Bool, String, Option, none, some, Result, ok, err, ◌>>=◌, ◌>>◌, guard, ◌==◌, ltb, or_else,
  if◌then◌else◌, not, ◌&&◌,
}
use orkiva.Domain.Errors.{
  Checked, Date, at, Number, require_date, require_non_empty_string, require_non_negative_integer,
  invalid_argument, cursor_regression,
}

pub record ParticipantCursor : Type 0 where
  pub thread_id : String
  pub agent_id : String
  pub last_read_seq : ℕ
  pub last_acked_message_id : Option String
  pub updated_at : ℕ

pub record CreateParticipantCursorInput : Type 0 where
  pub thread_id : String
  pub agent_id : String
  pub created_at : Option Date

-- `string | null | undefined`
pub data Acked : Type 0 where
  undefined null : Acked
  message : String → Acked

pub record AcknowledgeReadInput : Type 0 where
  pub last_read_seq : Number
  pub last_acked_message_id : Acked
  pub updated_at : Option Date

unfoldable pub normalize_acked_message_id : Acked → Checked Acked
normalize_acked_message_id undefined = ok undefined
normalize_acked_message_id null = ok null
normalize_acked_message_id (message value) = do
  checked ← require_non_empty_string value
  ok (message checked)

abbrev pub is_undefined : Acked → Bool
is_undefined undefined = Bool.true
is_undefined _ = Bool.false

-- `acked === undefined ? current : acked`
abbrev pub acked_or : Acked → Option String → Option String
acked_or undefined current = current
acked_or null current = none
acked_or (message value) current = some value

unfoldable pub create_participant_cursor :
    ℕ → CreateParticipantCursorInput → Checked ParticipantCursor
create_participant_cursor now input = do
  thread_id ← require_non_empty_string input.thread_id
  agent_id ← require_non_empty_string input.agent_id
  updated_at ← require_date (or_else input.created_at (at now))
  ok (record {
    thread_id = thread_id;
    agent_id = agent_id;
    last_read_seq = 0;
    last_acked_message_id = none;
    updated_at = updated_at;
  })

unfoldable pub acknowledge_read :
    ℕ → ParticipantCursor → AcknowledgeReadInput → Checked ParticipantCursor
unfolding normalize_acked_message_id
acknowledge_read now cursor input = do
  next_read_seq ← require_non_negative_integer input.last_read_seq
  guard (not (ltb next_read_seq cursor.last_read_seq)) cursor_regression
  next_acked ← normalize_acked_message_id input.last_acked_message_id
  let moved = do
    updated_at ← require_date (or_else input.updated_at (at now))
    ok (record cursor {
      last_read_seq = next_read_seq;
      last_acked_message_id = acked_or next_acked cursor.last_acked_message_id;
      updated_at = updated_at;
    })
  if next_read_seq == cursor.last_read_seq && is_undefined next_acked then ok cursor else moved

unfoldable pub calculate_unread_count : Number → Number → Checked ℕ
calculate_unread_count latest_seq last_read_seq = do
  safe_latest ← require_non_negative_integer latest_seq
  safe_last_read ← require_non_negative_integer last_read_seq
  guard (not (ltb safe_latest safe_last_read)) invalid_argument
  ok (safe_latest - safe_last_read)
