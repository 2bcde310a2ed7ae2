-- ===== src/Bridge/ThreadStore.antt =====
-- `InMemoryThreadStore` of apps/bridge-api/src/thread-store.ts. A thread record has the fields of
-- the domain's thread, a message record those of its message, a cursor record those of its cursor.
pub mod Numbering
pub mod Paging
use Prim.Native.String
use orkiva.Shared.{
  ℕ, ◌+◌, Bool, true, false, String, Option, none, some, List, [], ◌∷◌, ◌++◌, Result, ok, err,
  ◌>>=◌, ◌>>◌, guard, filter, take, find?, get_last?, length, str_eq, ltb, ◌==◌, or_else,
  if◌then◌else◌, not, ◌&&◌,
}
use orkiva.Shared.Dict.{Dict, get, set}
use orkiva.Domain.Errors.{Checked, Date, Number, nat, sequence_violation}
use orkiva.Domain.Thread.{
  Thread, ThreadType, ThreadStatus, same_status, CreateThreadInput, create_thread,
  transition_thread_status,
}
use orkiva.Domain.Message.{Message, CreateMessageInput, create_message, get_next_message_sequence}
use orkiva.Domain.Cursor.{ParticipantCursor}

pub record ThreadStore : Type 0 where
  pub thread_records : Dict Thread
  pub message_records : Dict (List Message)
  pub cursor_records : Dict ParticipantCursor

pub record CreateThreadRecordInput : Type 0 where
  pub thread_id : String
  pub workspace_id : String
  pub title : String
  pub type : ThreadType
  pub participants : List String
  pub created_at : Date

pub record ReadMessagesResult : Type 0 where
  pub messages : List Message
  pub next_seq : ℕ
  pub has_more : Bool

abbrev pub cursor_key : String → String → String
cursor_key thread_id agent_id = String.◌++◌ thread_id (String.◌++◌ "::" agent_id)

abbrev pub domain_input : CreateThreadRecordInput → CreateThreadInput
domain_input input = record {
  thread_id = input.thread_id;
  workspace_id = input.workspace_id;
  title = input.title;
  type = input.type;
  participants = input.participants;
  created_at = some input.created_at;
  status = none;
}

unfoldable pub add_thread :
    ℕ → CreateThreadRecordInput → ThreadStore → Checked (Thread × ThreadStore)
add_thread now input store = do
  thread ← create_thread now (domain_input input)
  ok (
    thread,
    record store {
      thread_records = set thread.thread_id thread store.thread_records;
      message_records = set thread.thread_id [] store.message_records;
    },
  )

unfoldable pub get_thread_by_id : String → ThreadStore → Option Thread
get_thread_by_id thread_id store = get thread_id store.thread_records

-- `expected !== undefined && existing.status !== expected`
abbrev pub is_unexpected : Option ThreadStatus → ThreadStatus → Bool
is_unexpected none status = false
is_unexpected (some expected) status = not (same_status status expected)

unfoldable pub update_thread_status :
    String
    → ThreadStatus
    → Date
    → Option ThreadStatus
    → ThreadStore
    → Checked (Option Thread × ThreadStore)
update_thread_status thread_id next_status updated_at expected store =
    elim (get thread_id store.thread_records) [
      | none ↦ ok (none, store)
      | some existing ↦
          let moved : Checked (Option Thread × ThreadStore) =
            transition_thread_status existing next_status updated_at >>= λ (updated : Thread). ok (
              some updated,
              record store { thread_records = set thread_id updated store.thread_records },
            ) in
          if is_unexpected expected existing.status then ok (none, store) else moved
    ]

pub record ThreadSummary : Type 0 where
  pub message_count : ℕ
  pub max_messages : ℕ
  pub last_status : ThreadStatus

unfoldable pub messages_of : String → ThreadStore → List Message
messages_of thread_id store = or_else (get thread_id store.message_records) []

-- The text of the summary is a function of the count, the maximum and the status, and there are no
-- open items.
unfoldable pub summarize_thread : String → ℕ → ThreadStore → Option ThreadSummary
unfolding messages_of
summarize_thread thread_id max_messages store = elim (get thread_id store.thread_records) [
  | none ↦ none
  | some existing ↦ some (record {
    message_count = length (messages_of thread_id store);
    max_messages = max_messages;
    last_status = existing.status;
  })
]

abbrev pub seq_or_zero : Option Message → ℕ
seq_or_zero none = 0
seq_or_zero (some m) = m.seq

abbrev pub last_seq : List Message → ℕ
last_seq messages = seq_or_zero (get_last? messages)

abbrev pub is_number : Number → ℕ → Bool
is_number (nat m) n = m == n
is_number _ n = false

unfoldable pub add_message : ℕ → CreateMessageInput → ThreadStore → Checked (Message × ThreadStore)
unfolding messages_of
add_message now input store = do
  let messages = messages_of input.thread_id store
  expected ← get_next_message_sequence (nat (last_seq messages))
  guard (is_number input.seq expected) sequence_violation
  message ← create_message now input
  ok (
    message,
    record store {
      message_records = set input.thread_id (messages ++ message ∷ []) store.message_records;
    },
  )

unfoldable pub get_latest_message_seq : String → ThreadStore → ℕ
unfolding messages_of
get_latest_message_seq thread_id store = last_seq (messages_of thread_id store)

abbrev pub is_after : ℕ → Message → Bool
is_after since m = ltb since m.seq

abbrev pub next_seq_of : ℕ → Option Message → ℕ
next_seq_of since none = since
next_seq_of since (some m) = m.seq

unfoldable pub read_messages : String → ℕ → ℕ → ThreadStore → ReadMessagesResult
unfolding messages_of
read_messages thread_id since limit store =
    let filtered = filter (is_after since) (messages_of thread_id store) in
    let page = take limit filtered in
    record {
      messages = page;
      next_seq = next_seq_of since (get_last? page);
      has_more = ltb limit (length filtered);
    }

unfoldable pub get_message_by_id : String → String → ThreadStore → Option Message
unfolding messages_of
get_message_by_id thread_id message_id store =
    find? (λ (m : Message). str_eq m.message_id message_id) (messages_of thread_id store)

abbrev pub has_key : String → Option String → Bool
has_key key none = false
has_key key (some k) = str_eq k key

abbrev pub is_sent_as : String → String → Message → Bool
is_sent_as sender key m = str_eq m.sender_agent_id sender && has_key key m.idempotency_key

unfoldable pub get_message_by_idempotency : String → String → String → ThreadStore → Option Message
unfolding messages_of
get_message_by_idempotency thread_id sender key store =
    find? (is_sent_as sender key) (messages_of thread_id store)

unfoldable pub get_participant_cursor : String → String → ThreadStore → Option ParticipantCursor
get_participant_cursor thread_id agent_id store =
    get (cursor_key thread_id agent_id) store.cursor_records

unfoldable pub upsert_participant_cursor : ParticipantCursor → ThreadStore → ThreadStore
upsert_participant_cursor cursor store = record store {
  cursor_records = set (cursor_key cursor.thread_id cursor.agent_id) cursor store.cursor_records;
}
