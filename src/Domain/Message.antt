-- ===== src/Domain/Message.antt =====
-- packages/domain/src/message.ts: messages and the sequence numbers of a thread.
pub mod Sequence
pub mod Checks
mod Tests
use orkiva.Shared.{
  ℕ, zero, suc, ◌+◌, ◌-◌, ◌^◌, Bool, true, false, String, Option, none, some, List, [], ◌∷◌, Result,
  ok, err, ◌>>=◌, ◌>>◌, guard, any, ◌==◌, leb, or_else, if◌then◌else◌, not,
}
use orkiva.Domain.Errors.{
  Checked, Date, at, Number, nat, add_one, require_date, require_non_empty_string,
  require_positive_integer, invalid_argument, sequence_violation, sequence_overflow,
}

pub data MessageKind : Type 0 where
  chat event system : MessageKind

abbrev pub same_kind : MessageKind → MessageKind → Bool
same_kind chat chat = true
same_kind event event = true
same_kind system system = true
same_kind _ _ = false

-- A JSON value; a number is its canonical text.
mutual
  pub data Json : Type 0 where
    null : Json
    bool : Bool → Json
    num str : String → Json
    arr : Items → Json
    obj : Fields → Json

  pub data Items : Type 0 where
    nil : Items
    item : Json → Items → Items

  pub data Fields : Type 0 where
    end : Fields
    field : String → Json → Fields → Fields

pub record Message : Type 0 where
  pub message_id : String
  pub thread_id : String
  pub schema_version : ℕ
  pub seq : ℕ
  pub sender_agent_id : String
  pub sender_session_id : String
  pub kind : MessageKind
  pub body : String
  pub metadata : Option Json
  pub in_reply_to : Option String
  pub idempotency_key : Option String
  pub created_at : ℕ

pub record CreateMessageInput : Type 0 where
  pub message_id : String
  pub thread_id : String
  pub schema_version : Number
  pub seq : Number
  pub sender_agent_id : String
  pub sender_session_id : String
  pub kind : MessageKind
  pub body : String
  pub metadata : Option Json
  pub in_reply_to : Option String
  pub idempotency_key : Option String
  pub created_at : Option Date

abbrev pub supported_message_kinds : List MessageKind
supported_message_kinds = chat ∷ event ∷ system ∷ []

unfoldable pub require_message_kind : MessageKind → Checked MessageKind
require_message_kind value =
    if any (same_kind value) supported_message_kinds then ok value else err invalid_argument

-- The copy of an object that is not an array equals it.
unfoldable pub normalize_metadata : Option Json → Checked (Option Json)
normalize_metadata none = ok none
normalize_metadata (some (arr items)) = err invalid_argument
normalize_metadata (some metadata) = ok (some metadata)

-- `Number.MAX_SAFE_INTEGER`
abbrev pub max_safe_integer : ℕ
max_safe_integer = 9007199254740991

-- `requirePositiveInteger(lastSeq + 1, …) - 1`, the last sequence number once checked.
unfoldable pub safe_last_seq : Number → Checked ℕ
safe_last_seq last_seq = do next ← require_positive_integer (add_one last_seq); ok (next - 1)

unfoldable pub assert_next_message_sequence : Number → Number → Checked (Unit {0})
unfolding safe_last_seq
assert_next_message_sequence last_seq next_seq = do
  safe_last ← safe_last_seq last_seq
  safe_next ← require_positive_integer next_seq
  guard (safe_next == safe_last + 1) sequence_violation

unfoldable pub get_next_message_sequence : Number → Checked ℕ
unfolding safe_last_seq
get_next_message_sequence last_seq = do
  safe_last ← safe_last_seq last_seq
  guard (not (leb max_safe_integer safe_last)) sequence_overflow
  ok (safe_last + 1)

-- `value === undefined ? undefined : requireNonEmptyString(value)`
unfoldable pub require_if_given : Option String → Checked (Option String)
require_if_given none = ok none
require_if_given (some value) = do checked ← require_non_empty_string value; ok (some checked)

unfoldable pub create_message : ℕ → CreateMessageInput → Checked Message
unfolding require_message_kind normalize_metadata require_if_given
create_message now input = do
  schema_version ← require_positive_integer input.schema_version
  seq ← require_positive_integer input.seq
  metadata ← normalize_metadata input.metadata
  in_reply_to ← require_if_given input.in_reply_to
  idempotency_key ← require_if_given input.idempotency_key
  message_id ← require_non_empty_string input.message_id
  thread_id ← require_non_empty_string input.thread_id
  sender_agent_id ← require_non_empty_string input.sender_agent_id
  sender_session_id ← require_non_empty_string input.sender_session_id
  kind ← require_message_kind input.kind
  body ← require_non_empty_string input.body
  created_at ← require_date (or_else input.created_at (at now))
  ok (record {
    message_id = message_id;
    thread_id = thread_id;
    schema_version = schema_version;
    seq = seq;
    sender_agent_id = sender_agent_id;
    sender_session_id = sender_session_id;
    kind = kind;
    body = body;
    metadata = metadata;
    in_reply_to = in_reply_to;
    idempotency_key = idempotency_key;
    created_at = created_at;
  })
