-- ===== src/Domain/Message/Checks.antt =====
-- What message.ts accepts as a message, and what it keeps of it.
use orkiva.Shared.{
  ℕ, zero, suc, String, Option, none, some, ok, ◌≡◌, refl, arith, trim, or_else, >>=-eq-ok,
}
use orkiva.Domain.Errors.{
  at, Number, nat, negative, not_integer, require_date, require_positive_integer,
  require_non_empty_string,
}
use orkiva.Domain.Thread.Creation.{
  IsPresent, IsPresent_of_require_non_empty_string, require_non_empty_string_of_IsPresent,
  at_of_require_date,
}
use orkiva.Domain.Message.{
  Message, CreateMessageInput, MessageKind, Json, arr, require_message_kind, normalize_metadata,
  require_if_given, create_message,
}

abbrev pub IsPresentIfGiven : Option String → Type 0
IsPresentIfGiven none = Unit
IsPresentIfGiven (some s) = IsPresent s

abbrev pub IsObject : Option Json → Type 0
IsObject none = Unit
IsObject (some (arr items)) = ⊥
IsObject (some j) = Unit

-- The inputs that `createMessage` accepts.
pub record IsSendable (now : ℕ) (input : CreateMessageInput) : Type 0 where
  pub version : ℕ
  pub versioned : input.schema_version ≡ nat (suc version)
  pub number : ℕ
  pub numbered : input.seq ≡ nat (suc number)
  pub metadata : IsObject input.metadata
  pub in_reply_to : IsPresentIfGiven input.in_reply_to
  pub idempotency_key : IsPresentIfGiven input.idempotency_key
  pub message_id : IsPresent input.message_id
  pub thread_id : IsPresent input.thread_id
  pub sender_agent_id : IsPresent input.sender_agent_id
  pub sender_session_id : IsPresent input.sender_session_id
  pub body : IsPresent input.body
  pub time : ℕ
  pub dated : or_else input.created_at (at now) ≡ at time

abbrev pub trim_if_given : Option String → Option String
trim_if_given none = none
trim_if_given (some s) = some (trim s)

-- The message that is made of an input.
abbrev pub message_of : ℕ → ℕ → ℕ → CreateMessageInput → Message
message_of version seq time input = record {
  message_id = trim input.message_id;
  thread_id = trim input.thread_id;
  schema_version = version;
  seq = seq;
  sender_agent_id = trim input.sender_agent_id;
  sender_session_id = trim input.sender_session_id;
  kind = input.kind;
  body = trim input.body;
  metadata = input.metadata;
  in_reply_to = trim_if_given input.in_reply_to;
  idempotency_key = trim_if_given input.idempotency_key;
  created_at = time;
}

require_message_kind_ok : (k : MessageKind) → require_message_kind k ≡ ok k
unfolding require_message_kind
require_message_kind_ok k = ground arith

normalize_metadata_ok : (m : Option Json) → IsObject m → normalize_metadata m ≡ ok m
unfolding normalize_metadata
normalize_metadata_ok none h = refl
normalize_metadata_ok (some (arr items)) h = absurd h
normalize_metadata_ok (some _) h = refl

IsObject-of_normalize_metadata :
    (m : Option Json) {n : Option Json} → normalize_metadata m ≡ ok n → IsObject m
unfolding normalize_metadata
IsObject-of_normalize_metadata none h = tt
IsObject-of_normalize_metadata (some (arr items)) h = cc
IsObject-of_normalize_metadata (some _) h = tt

require_if_given_ok :
    (o : Option String) → IsPresentIfGiven o → require_if_given o ≡ ok (trim_if_given o)
unfolding require_if_given
require_if_given_ok none h = refl
require_if_given_ok (some s) h = rw (require_non_empty_string_of_IsPresent s h)

IsPresent_of_require_if_given :
    (o : Option String) {p : Option String} → require_if_given o ≡ ok p → IsPresentIfGiven o
unfolding require_if_given
IsPresent_of_require_if_given none h = tt
IsPresent_of_require_if_given (some s) h =
    let (t, e, _) = >>=-eq-ok (require_non_empty_string s) _ h in
    (IsPresent_of_require_non_empty_string s e).0

positive : (n : Number) {k : ℕ} → require_positive_integer n ≡ ok k → (m : ℕ) × (n ≡ nat (suc m))
unfolding require_positive_integer
positive (nat (suc m)) h = (m, refl)
positive (nat zero) h = cc
positive (negative m) h = cc
positive not_integer h = cc

-- A sendable input is kept with every text trimmed, its numbers, and its metadata as it came.
pub create_message_accepts :
    (now : ℕ) (input : CreateMessageInput) (s : IsSendable now input)
    → create_message now input ≡ ok (message_of (suc s.version) (suc s.number) s.time input)
unfolding create_message require_positive_integer require_date
create_message_accepts now input s = rw (
  s.versioned,
  s.numbered,
  normalize_metadata_ok input.metadata s.metadata,
  require_if_given_ok input.in_reply_to s.in_reply_to,
  require_if_given_ok input.idempotency_key s.idempotency_key,
  require_non_empty_string_of_IsPresent input.message_id s.message_id,
  require_non_empty_string_of_IsPresent input.thread_id s.thread_id,
  require_non_empty_string_of_IsPresent input.sender_agent_id s.sender_agent_id,
  require_non_empty_string_of_IsPresent input.sender_session_id s.sender_session_id,
  require_message_kind_ok input.kind,
  require_non_empty_string_of_IsPresent input.body s.body,
  s.dated,
)

-- Only a sendable input makes a message.
pub create_message_requires :
    (now : ℕ) (input : CreateMessageInput) {m : Message}
    → create_message now input ≡ ok m
    → IsSendable now input
unfolding create_message
create_message_requires now input h =
    let (_, versioned, h₁) = >>=-eq-ok (require_positive_integer input.schema_version) _ h in
    let (_, numbered, h₂) = >>=-eq-ok (require_positive_integer input.seq) _ h₁ in
    let (_, metadata, h₃) = >>=-eq-ok (normalize_metadata input.metadata) _ h₂ in
    let (_, in_reply_to, h₄) = >>=-eq-ok (require_if_given input.in_reply_to) _ h₃ in
    let (_, key, h₅) = >>=-eq-ok (require_if_given input.idempotency_key) _ h₄ in
    let (_, message_id, h₆) = >>=-eq-ok (require_non_empty_string input.message_id) _ h₅ in
    let (_, thread_id, h₇) = >>=-eq-ok (require_non_empty_string input.thread_id) _ h₆ in
    let (_, agent, h₈) = >>=-eq-ok (require_non_empty_string input.sender_agent_id) _ h₇ in
    let (_, session, h₉) = >>=-eq-ok (require_non_empty_string input.sender_session_id) _ h₈ in
    let (_, _, k₁) = >>=-eq-ok (require_message_kind input.kind) _ h₉ in
    let (_, body, k₂) = >>=-eq-ok (require_non_empty_string input.body) _ k₁ in
    let (time, dated, _) = >>=-eq-ok (require_date (or_else input.created_at (at now))) _ k₂ in
    record {
      version = (positive _ versioned).0;
      versioned = (positive _ versioned).1;
      number = (positive _ numbered).0;
      numbered = (positive _ numbered).1;
      metadata = IsObject-of_normalize_metadata _ metadata;
      in_reply_to = IsPresent_of_require_if_given _ in_reply_to;
      idempotency_key = IsPresent_of_require_if_given _ key;
      message_id = (IsPresent_of_require_non_empty_string _ message_id).0;
      thread_id = (IsPresent_of_require_non_empty_string _ thread_id).0;
      sender_agent_id = (IsPresent_of_require_non_empty_string _ agent).0;
      sender_session_id = (IsPresent_of_require_non_empty_string _ session).0;
      body = (IsPresent_of_require_non_empty_string _ body).0;
      time = time;
      dated = at_of_require_date _ dated;
    }
