-- ===== src/Bridge/Posts/Delivery.antt =====
-- When `post_message` of apps/bridge-api/src/app.ts stores a new message, over the in-memory stores.
use Prim.Native.String
use orkiva.Shared.{
  ℕ, suc, ◌<◌, Bool, true, String, Option, none, some, [], ◌∷◌, ◌++◌, length, ok, ◌≡◌, refl, sym,
  ap, ◌∙◌, trim, ◌≢◌, arith,
}
use orkiva.Shared.Dict.{set}
use orkiva.Shared.Actions.{◌>>=◌, give}
use orkiva.Shared.Actions.Refusals.{returned, lift_ok, catching_ok}
use orkiva.Auth.{VerifiedAuthClaims}
use orkiva.Domain.Errors.{nat}
use orkiva.Domain.Thread.Creation.{IsPresent}
use orkiva.Domain.Thread.{ThreadStatus, closed}
use orkiva.Domain.Message.{
  Message, Json, CreateMessageInput, max_safe_integer, get_next_message_sequence,
}
use orkiva.Domain.Message.Checks.{
  trim_if_given, IsSendable, IsObject, IsPresentIfGiven, message_of, create_message_accepts,
}
use orkiva.Domain.Message.Sequence.{get_next_message_sequence_iff}
use orkiva.Bridge.ThreadStore.{
  ThreadStore, messages_of, last_seq, is_number, add_message, get_latest_message_seq,
  get_message_by_idempotency,
}
use orkiva.Bridge.ThreadStore.Numbering.{IsNumbered, messages_of-IsNumbered, last_seq-eq-length}
use orkiva.Bridge.Errors.{domain}
use orkiva.Bridge.Requests.{Request, PostMessageRequest, PostMessageResponse}
use orkiva.Bridge.Memory.{BridgeState, memory}
use orkiva.Bridge.Handlers.Posting.{
  attempts, post_message, find_replay, write_message, message_input,
}
use orkiva.Bridge.Posts.Permission.{IsPermitted, post_message_upto}

add_message_accepts :
    (now : ℕ) (input : CreateMessageInput) (store : ThreadStore) (s : IsSendable now input)
    → get_next_message_sequence (nat (last_seq (messages_of input.thread_id store)))
      ≡ ok (suc s.number)
    → add_message now input store
      ≡ ok (
        message_of (suc s.version) (suc s.number) s.time input,
        record store {
          message_records =
              set input.thread_id
                (messages_of input.thread_id store
                  ++ message_of (suc s.version) (suc s.number) s.time input ∷ [])
                store.message_records;
        },
      )
unfolding add_message
add_message_accepts now input store s next =
    let seen : is_number input.seq (suc s.number) ≡ true = rw s.numbered (ground arith) in
    rw (next, seen, create_message_accepts now input s) refl

-- No message of the sender has the key of the payload.
abbrev pub IsNew : BridgeState → String → String → Option String → Type 0
IsNew s thread_id sender none = Unit
IsNew s thread_id sender (some key) =
    get_message_by_idempotency thread_id sender key s.threads ≡ none

-- Of a payload that makes a message, under no key that its sender has used in the thread.
pub record IsDeliverable (id : String) (input : PostMessageRequest) (request : Request)
    (s : BridgeState) : Type 0 where
  pub permit : IsPermitted input request s
  pub fresh : IsNew s input.thread_id permit.claims.agent_id input.idempotency_key
  pub room : length (messages_of input.thread_id s.threads) < max_safe_integer
  pub version : ℕ
  pub versioned : input.schema_version ≡ suc version
  pub metadata : IsObject input.metadata
  pub in_reply_to : IsPresentIfGiven input.in_reply_to
  pub idempotency_key : IsPresentIfGiven input.idempotency_key
  pub message_id : IsPresent (String.◌++◌ "msg_" id)
  pub thread_id : IsPresent input.thread_id
  pub agent_id : IsPresent permit.claims.agent_id
  pub session_id : IsPresent permit.claims.session_id
  pub body : IsPresent input.body

-- The message that a post stores: of the payload, with its texts trimmed, and of the token.
abbrev pub posted_message : PostMessageRequest → VerifiedAuthClaims → String → ℕ → ℕ → Message
posted_message input claims id now seq = record {
  message_id = trim (String.◌++◌ "msg_" id);
  thread_id = trim input.thread_id;
  schema_version = input.schema_version;
  seq = seq;
  sender_agent_id = trim claims.agent_id;
  sender_session_id = trim claims.session_id;
  kind = input.kind;
  body = trim input.body;
  metadata = input.metadata;
  in_reply_to = trim_if_given input.in_reply_to;
  idempotency_key = trim_if_given input.idempotency_key;
  created_at = now;
}

-- The answer to it.
abbrev pub posted_answer : ThreadStatus → String → ℕ → ℕ → PostMessageResponse
posted_answer status id now seq = record {
  message_id = trim (String.◌++◌ "msg_" id);
  seq = seq;
  thread_status = status;
  created_at = now;
}

-- The store after a post.
abbrev pub after_post : PostMessageRequest → Message → BridgeState → BridgeState
after_post input m s = record s {
  threads = record s.threads {
    message_records =
        set input.thread_id (messages_of input.thread_id s.threads ++ m ∷ [])
          s.threads.message_records;
  };
  clock = suc s.clock;
  ids = suc s.ids;
}

module _ (time : ℕ → ℕ) (id : ℕ → String) (deep_equal : Option Json → Option Json → Bool) where
  find_replay-none :
      (input : PostMessageRequest) (claims : VerifiedAuthClaims) (s : BridgeState)
      (key : Option String)
      → IsNew s input.thread_id claims.agent_id key
      → find_replay deep_equal (memory time id) input claims key s ≡ (ok none, s)
  unfolding memory give
  find_replay-none input claims s none h = refl
  find_replay-none input claims s (some key) h = rw h refl

  next_number :
      (input : PostMessageRequest) (s : BridgeState)
      → IsNumbered s.threads
      → length (messages_of input.thread_id s.threads) < max_safe_integer
      → get_next_message_sequence (nat (last_seq (messages_of input.thread_id s.threads)))
        ≡ ok (suc (length (messages_of input.thread_id s.threads)))
  next_number input s h room =
      let ms = messages_of input.thread_id s.threads in
      let last = last_seq-eq-length ms (messages_of-IsNumbered input.thread_id s.threads h) in
      ((get_next_message_sequence_iff (last_seq ms)).0 (suc (length ms))).1
        (omega (arith, last, room), ap suc (sym last))

  write_message_returns :
      (input : PostMessageRequest) (request : Request) (s : BridgeState) (n : ℕ)
      (d : IsDeliverable (id s.ids) input request s)
      → get_next_message_sequence (nat (last_seq (messages_of input.thread_id s.threads)))
        ≡ ok (suc n)
      → let m = posted_message input d.permit.claims (id s.ids) (time s.clock) (suc n) in
        write_message deep_equal
          (memory time id)
          input
          d.permit.claims
          d.permit.thread.status
          (suc n)
          s
        ≡ (
          ok (posted_answer d.permit.thread.status (id s.ids) (time s.clock) (suc n)),
          after_post input m s,
        )
  unfolding memory give ◌>>=◌
  write_message_returns input request s n d next =
      let now = time s.clock in
      let input' = message_input input d.permit.claims (id s.ids) now (suc n) in
      let sendable : IsSendable (time (suc s.clock)) input' = record {
        version = d.version;
        versioned = ap nat d.versioned;
        number = n;
        numbered = refl;
        metadata = d.metadata;
        in_reply_to = d.in_reply_to;
        idempotency_key = d.idempotency_key;
        message_id = d.message_id;
        thread_id = d.thread_id;
        sender_agent_id = d.agent_id;
        sender_session_id = d.session_id;
        body = d.body;
        time = now;
        dated = refl;
      } in
      let stored = add_message_accepts (time (suc s.clock)) input' s.threads sendable next in
      let stored' = rw (← d.versioned) at stored in rw stored' refl

  latest_returns :
      (thread_id : String) (s : BridgeState)
      → (memory time id).get_latest_message_seq thread_id s
        ≡ (ok (last_seq (messages_of thread_id s.threads)), s)
  unfolding memory get_latest_message_seq
  latest_returns thread_id s = refl

  -- The code does not look at the thread's status.
  pub post_message_stores :
      (input : PostMessageRequest) (request : Request) (s : BridgeState)
      → IsNumbered s.threads
      → (d : IsDeliverable (id s.ids) input request s)
      → let n = suc (length (messages_of input.thread_id s.threads)) in
        let m = posted_message input d.permit.claims (id s.ids) (time s.clock) n in
        post_message deep_equal (memory time id) input request s ≡ (
          ok (posted_answer d.permit.thread.status (id s.ids) (time s.clock) n),
          after_post input m s,
        )
  unfolding post_message attempts
  post_message_stores input request s h d =
      let ms = messages_of input.thread_id s.threads in
      let next = next_number input s h d.room in
      let written = write_message_returns input request s (length ms) d next in
      post_message_upto time id deep_equal input request s d.permit
      ∙ returned _ _ s s none
          (find_replay-none input d.permit.claims s input.idempotency_key d.fresh)
      ∙ returned _ _ s s (last_seq ms) (latest_returns input.thread_id s)
      ∙ returned _ _ s s (suc (length ms)) (lift_ok domain _ s (suc (length ms)) next)
      ∙ catching_ok _ _ s _ _ written

  -- A post that the token allows to a thread that is not closed stores its message at once, with
  -- the number after its thread's count, and answers with the message's id, number and time and
  -- the thread's status: where the messages are numbered, the payload makes a message, answers a
  -- message of the thread if any, has no key that its sender has used there, and the thread has
  -- fewer messages than the largest safe integer.
  pub post_message_delivers :
      (input : PostMessageRequest) (request : Request) (s : BridgeState)
      → IsNumbered s.threads
      → (d : IsDeliverable (id s.ids) input request s) → d.permit.thread.status ≢ closed
      → let n = suc (length (messages_of input.thread_id s.threads)) in
        let m = posted_message input d.permit.claims (id s.ids) (time s.clock) n in
        post_message deep_equal (memory time id) input request s ≡ (
          ok (posted_answer d.permit.thread.status (id s.ids) (time s.clock) n),
          after_post input m s,
        )
  post_message_delivers input request s h d open_thread = post_message_stores input request s h d
