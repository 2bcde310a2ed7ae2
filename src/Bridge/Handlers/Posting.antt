-- ===== src/Bridge/Handlers/Posting.antt =====
-- `post_message` of apps/bridge-api/src/app.ts: the replay of a message that has its key already,
-- and the attempts to write a new one. `deep_equal` is node's `isDeepStrictEqual` on metadata.
use Prim.Native.String
use orkiva.Shared.{
  ℕ, zero, suc, Bool, true, false, String, Option, none, some, ◌==◌, str_eq, if◌then◌else◌, not,
  ◌&&◌,
}
use orkiva.Shared.Actions.{◌>>=◌, ◌>>◌, give, throw, ensure, present, catching}
use orkiva.Auth.{VerifiedAuthClaims, message_write}
use orkiva.Domain.Errors.{Number, at}
use orkiva.Domain.Thread.{ThreadStatus}
use orkiva.Domain.Message.{Message, Json, same_kind, CreateMessageInput, get_next_message_sequence}
use orkiva.Bridge.Errors.{
  ProtocolErrorCode, Thrown, map_unknown_error, conflict, is_invalid, is_conflict, is_reused,
}
use orkiva.Bridge.Requests.{Request, PostMessageRequest, PostMessageResponse}
use orkiva.Bridge.Dependencies.{
  Call, Dependencies, checked, require_context, check_role, check_identity, require_thread,
}

abbrev pub same_text : Option String → Option String → Bool
same_text none none = true
same_text (some a) (some b) = str_eq a b
same_text _ _ = false

abbrev pub is_conflict_code : ProtocolErrorCode → Bool
is_conflict_code conflict = true
is_conflict_code _ = false

abbrev pub to_post_message_output : Message → ThreadStatus → PostMessageResponse
to_post_message_output message status = record {
  message_id = message.message_id;
  seq = message.seq;
  thread_status = status;
  created_at = message.created_at;
}

abbrev pub message_input :
    PostMessageRequest → VerifiedAuthClaims → String → ℕ → ℕ → CreateMessageInput
message_input input claims id now seq = record {
  message_id = String.◌++◌ "msg_" id;
  thread_id = input.thread_id;
  schema_version = Number.nat input.schema_version;
  seq = Number.nat seq;
  sender_agent_id = claims.agent_id;
  sender_session_id = claims.session_id;
  kind = input.kind;
  body = input.body;
  metadata = input.metadata;
  in_reply_to = input.in_reply_to;
  idempotency_key = input.idempotency_key;
  created_at = some (at now);
}

abbrev pub post_message_max_attempts : ℕ
post_message_max_attempts = 3

module _ (deep_equal : Option Json → Option Json → Bool) where
  unfoldable pub is_idempotent_replay_match : PostMessageRequest → Message → Bool
  is_idempotent_replay_match input existing =
      existing.schema_version == input.schema_version
      && same_kind existing.kind input.kind
      && str_eq existing.body input.body
      && deep_equal existing.metadata input.metadata
      && same_text existing.in_reply_to input.in_reply_to

  module _ {S : Type 0} (d : Dependencies S) where
    -- The message that the sender has posted under the key of the input, where it gives one and
    -- there is one.
    abbrev pub find_replay :
        PostMessageRequest → VerifiedAuthClaims → Option String → Call S (Option Message)
    find_replay input claims none = give none
    find_replay input claims (some key) =
        d.get_message_by_idempotency input.thread_id claims.agent_id key

    -- The answer for a message that has the key, and what follows where there is none.
    abbrev pub replay_or :
        PostMessageRequest
        → ThreadStatus
        → Call S PostMessageResponse
        → Option Message
        → Call S PostMessageResponse
    replay_or input status otherwise none = otherwise
    replay_or input status otherwise (some existing) =
        ensure (is_idempotent_replay_match input existing) is_reused
        >> give (to_post_message_output existing status)

    abbrev pub check_parent : PostMessageRequest → Option String → Call S (Unit {0})
    check_parent input none = give tt
    check_parent input (some parent_id) = do
      parent ← d.get_message_by_id input.thread_id parent_id
      found ← present parent is_invalid
      give tt

    abbrev pub write_message :
        PostMessageRequest → VerifiedAuthClaims → ThreadStatus → ℕ → Call S PostMessageResponse
    write_message input claims status seq = do
      id ← d.new_id
      now ← d.now
      created ← d.create_message (message_input input claims id now seq)
      give (to_post_message_output created status)

    -- The end of the `catch` of an attempt: the next attempt, or the error.
    abbrev pub retry_or_throw : ℕ → Thrown → Call S PostMessageResponse → Call S PostMessageResponse
    retry_or_throw left error next =
        let mapped = map_unknown_error error in
        if is_conflict_code mapped.code && not (left == 0) then next else throw error

    -- The loop over the attempts, with so many left.
    unfoldable pub attempts :
        ℕ → PostMessageRequest → VerifiedAuthClaims → ThreadStatus → Call S PostMessageResponse
    attempts zero input claims status = throw is_conflict
    attempts (suc left) input claims status =
        let next = attempts left input claims status in
        do
          latest_seq ← d.get_latest_message_seq input.thread_id
          next_seq ← checked (get_next_message_sequence (Number.nat latest_seq))
          catching (write_message input claims status next_seq) (λ error. do
            concurrent ← find_replay input claims input.idempotency_key
            replay_or input status (retry_or_throw left error next) concurrent)

    unfoldable pub post_message : PostMessageRequest → Request → Call S PostMessageResponse
    unfolding attempts
    post_message input request = do
      claims ← require_context request
      check_role claims.role message_write
      check_identity claims (record {
        agent_id = input.sender_agent_id;
        workspace_id = none;
        role = none;
        session_id = input.sender_session_id;
      })
      existing ← require_thread d claims input.thread_id
      check_parent input input.in_reply_to
      replayed ← find_replay input claims input.idempotency_key
      replay_or input existing.status
          (attempts post_message_max_attempts input claims existing.status) replayed
