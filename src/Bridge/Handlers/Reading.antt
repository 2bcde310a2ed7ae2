-- ===== src/Bridge/Handlers/Reading.antt =====
-- The handlers of apps/bridge-api/src/app.ts that read messages and acknowledge them.
use orkiva.Shared.{ℕ, String, Option, none, some, leb}
use orkiva.Shared.Actions.{◌>>=◌, ◌>>◌, give, ensure}
use orkiva.Auth.{message_read}
use orkiva.Domain.Errors.{Number, at}
use orkiva.Domain.Cursor.{ParticipantCursor, undefined, create_participant_cursor, acknowledge_read}
use orkiva.Bridge.Errors.{is_invalid}
use orkiva.Bridge.Requests.{Request, ReadMessagesRequest, AckReadRequest}
use orkiva.Bridge.ThreadStore.{ReadMessagesResult}
use orkiva.Bridge.Dependencies.{
  Call, Dependencies, checked, require_context, check_role, require_thread,
}
use orkiva.Bridge.Handlers.Threads.{check_agent_if_given}

module _ {S : Type 0} (d : Dependencies S) where
  unfoldable pub read_messages : ReadMessagesRequest → Request → Call S ReadMessagesResult
  read_messages input request = do
    claims ← require_context request
    check_role claims.role message_read
    check_agent_if_given claims input.agent_id
    existing ← require_thread d claims input.thread_id
    d.read_messages input.thread_id input.since_seq input.limit

  -- `getParticipantCursor(…) ?? createParticipantCursor(…)`. The domain gets the time, so that
  -- its own clock is not read.
  abbrev pub cursor_or_new : String → String → Option ParticipantCursor → Call S ParticipantCursor
  cursor_or_new thread_id agent_id (some cursor) = give cursor
  cursor_or_new thread_id agent_id none = do
    now ← d.now
    checked (
        create_participant_cursor now
          (record { thread_id = thread_id; agent_id = agent_id; created_at = some (at now) }))

  -- The end of `ack_read`: the cursor is moved and stored.
  abbrev pub store_moved : AckReadRequest → ParticipantCursor → Call S ℕ
  store_moved input cursor = do
    now ← d.now
    updated ← checked (
        acknowledge_read now cursor (record {
          last_read_seq = Number.nat input.last_read_seq;
          last_acked_message_id = undefined;
          updated_at = some (at now);
        }))
    d.upsert_participant_cursor updated
    give updated.updated_at

  -- The answer is the time at which the cursor was last moved.
  unfoldable pub ack_read : AckReadRequest → Request → Call S ℕ
  ack_read input request = do
    claims ← require_context request
    check_role claims.role message_read
    check_agent_if_given claims input.agent_id
    existing ← require_thread d claims input.thread_id
    latest_seq ← d.get_latest_message_seq input.thread_id
    ensure (leb input.last_read_seq latest_seq) is_invalid
    stored ← d.get_participant_cursor input.thread_id claims.agent_id
    cursor ← cursor_or_new input.thread_id claims.agent_id stored
    store_moved input cursor
