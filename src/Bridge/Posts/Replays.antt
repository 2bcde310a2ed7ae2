-- ===== src/Bridge/Posts/Replays.antt =====
-- What `post_message` of apps/bridge-api/src/app.ts answers where its key has been used.
use orkiva.Shared.{
  ℕ, suc, Bool, true, false, String, Option, none, some, [], ◌∷◌, ◌++◌, length, subst, Result, ok,
  err, ◌≡◌, refl, sym, ap, ◌∙◌, arith, trim, str_eq, str_eq_iff, find?-append_some,
  find?-append_none, ◌==◌,
}
use orkiva.Shared.Actions.{◌>>=◌, give, ensure}
use orkiva.Shared.Actions.Refusals.{returned}
use orkiva.Shared.Dict.{get-set_self}
use orkiva.Auth.{VerifiedAuthClaims}
use orkiva.Domain.Thread.{ThreadStatus}
use orkiva.Domain.Message.{Message, Json, same_kind}
use orkiva.Domain.Message.Checks.{trim_if_given}
use orkiva.Bridge.Errors.{Thrown, is_reused}
use orkiva.Bridge.ThreadStore.{
  messages_of, get_thread_by_id, get_message_by_id, get_message_by_idempotency, is_sent_as,
}
use orkiva.Bridge.ThreadStore.Numbering.{IsNumbered}
use orkiva.Bridge.Requests.{Request, PostMessageRequest, PostMessageResponse}
use orkiva.Bridge.Dependencies.{Call}
use orkiva.Bridge.Memory.{BridgeState, memory}
use orkiva.Bridge.Handlers.Posting.{
  attempts, post_message, is_idempotent_replay_match, find_replay, replay_or,
  to_post_message_output, same_text,
}
use orkiva.Bridge.Posts.Permission.{AnswersIn, IsPermitted, post_message_upto}
use orkiva.Bridge.Posts.Delivery.{
  IsDeliverable, posted_message, IsNew, after_post, post_message_stores,
}

-- A permitted post under a key that its sender has used in the thread for a message.
pub record IsReplay (input : PostMessageRequest) (request : Request) (s : BridgeState)
    : Type 0 where
  pub permit : IsPermitted input request s
  pub key : String
  pub message : Message
  pub keyed : input.idempotency_key ≡ some key
  pub used :
      get_message_by_idempotency input.thread_id permit.claims.agent_id key s.threads ≡ some message

-- The payload's texts are trimmed, as the schema leaves them, and metadata equals itself.
pub record IsParsed (deep_equal : Option Json → Option Json → Bool) (input : PostMessageRequest)
    : Type 0 where
  pub body : trim input.body ≡ input.body
  pub in_reply_to : trim_if_given input.in_reply_to ≡ input.in_reply_to
  pub idempotency_key : trim_if_given input.idempotency_key ≡ input.idempotency_key
  pub metadata : deep_equal input.metadata input.metadata ≡ true

module _ (time : ℕ → ℕ) (id : ℕ → String) (deep_equal : Option Json → Option Json → Bool) where
  find_replay-some :
      (input : PostMessageRequest) (request : Request) (s : BridgeState)
      (r : IsReplay input request s)
      → find_replay deep_equal (memory time id) input r.permit.claims input.idempotency_key s
        ≡ (ok (some r.message), s)
  unfolding memory
  find_replay-some input request s r = rw (r.keyed, r.used) refl

  replay_same :
      (input : PostMessageRequest) (status : ThreadStatus)
      (otherwise : Call BridgeState PostMessageResponse) (m : Message) (s : BridgeState)
      → (is_idempotent_replay_match deep_equal input m ≡ true
          → replay_or deep_equal (memory time id) input status otherwise (some m) s
            ≡ (ok (to_post_message_output m status), s))
        × (is_idempotent_replay_match deep_equal input m ≡ false
            → replay_or deep_equal (memory time id) input status otherwise (some m) s
              ≡ (err is_reused, s))
  unfolding ◌>>=◌ ensure give
  replay_same input status otherwise m s = (λ same. rw same refl, λ other. rw other refl)

  -- A post under a key that its sender has used in the thread writes nothing: it is answered by the
  -- message that has the key where that has the payload's content, and is refused otherwise.
  pub post_message_replays :
      (input : PostMessageRequest) (request : Request) (s : BridgeState)
      (r : IsReplay input request s)
      → (is_idempotent_replay_match deep_equal input r.message ≡ true
          → post_message deep_equal (memory time id) input request s
            ≡ (ok (to_post_message_output r.message r.permit.thread.status), s))
        × (is_idempotent_replay_match deep_equal input r.message ≡ false
            → post_message deep_equal (memory time id) input request s ≡ (err is_reused, s))
  post_message_replays input request s r =
      let upto =
        post_message_upto time id deep_equal input request s r.permit
        ∙ returned
            (find_replay deep_equal (memory time id) input r.permit.claims input.idempotency_key) _
            s s (some r.message) (find_replay-some input request s r) in
      let otherwise =
        attempts deep_equal (memory time id) 3 input r.permit.claims r.permit.thread.status in
      (
        λ same. upto ∙ (replay_same input r.permit.thread.status otherwise r.message s).0 same,
        λ other. upto ∙ (replay_same input r.permit.thread.status otherwise r.message s).1 other,
      )

  messages_of-after_post :
      (input : PostMessageRequest) (m : Message) (s : BridgeState)
      → messages_of input.thread_id (after_post input m s).threads
        ≡ messages_of input.thread_id s.threads ++ m ∷ []
  unfolding messages_of
  messages_of-after_post input m s =
      rw
        (get-set_self input.thread_id (messages_of input.thread_id s.threads ++ m ∷ [])
          s.threads.message_records)
        refl

  AnswersIn-after_post :
      (input : PostMessageRequest) (m : Message) (s : BridgeState) (parent : Option String)
      → AnswersIn s input.thread_id parent
      → AnswersIn (after_post input m s) input.thread_id parent
  unfolding get_message_by_id
  AnswersIn-after_post input m s none h = tt
  AnswersIn-after_post input m s (some p) (parent, h) = (
    parent,
    rw (messages_of-after_post input m s) (
        find?-append_some (λ (x : Message). str_eq x.message_id p)
          (messages_of input.thread_id s.threads) (m ∷ []) h),
  )

  -- The message that a post has stored is found under its sender and key.
  get_message_by_idempotency-after_post :
      (input : PostMessageRequest) (m : Message) (s : BridgeState) (sender key : String)
      → get_message_by_idempotency input.thread_id sender key s.threads ≡ none
      → m.sender_agent_id ≡ sender
      → m.idempotency_key ≡ some key
      → get_message_by_idempotency input.thread_id sender key (after_post input m s).threads
        ≡ some m
  unfolding get_message_by_idempotency
  get_message_by_idempotency-after_post input m s sender key fresh sent keyed =
      let ms = messages_of input.thread_id s.threads in
      let here : is_sent_as sender key m ≡ true =
        let same_sender = (str_eq_iff sender sender).1 refl in
        let same_key = (str_eq_iff key key).1 refl in
        rw (sent, keyed, same_sender, same_key) refl in
      rw (messages_of-after_post input m s)
        (find?-append_none (is_sent_as sender key) ms (m ∷ []) fresh ∙ rw here refl)

  same_text_refl : (o : Option String) → same_text o o ≡ true
  same_text_refl none = refl
  same_text_refl (some t) = (str_eq_iff t t).1 refl

  posted_message-matches :
      (input : PostMessageRequest) (claims : VerifiedAuthClaims) (now n : ℕ) (msg : String)
      → IsParsed deep_equal input
      → is_idempotent_replay_match deep_equal input (posted_message input claims msg now n) ≡ true
  unfolding is_idempotent_replay_match
  posted_message-matches input claims now n msg parsed =
      let version : (input.schema_version == input.schema_version) ≡ true = ground arith in
      let kind : same_kind input.kind input.kind ≡ true = ground arith in
      let body = (str_eq_iff input.body input.body).1 refl in
      rw (parsed.body, parsed.in_reply_to, version, kind, body, parsed.metadata)
        (same_text_refl input.in_reply_to)

  -- A post that is sent again with its key changes nothing and gets the first answer again: in
  -- stores whose messages are numbered, where the first post is permitted and makes a new message,
  -- the payload's texts are trimmed and its metadata equals itself, and the token names its agent
  -- without spaces around the name.
  pub post_message_idem :
      (input : PostMessageRequest) (request : Request) (s : BridgeState) (key : String)
      → IsNumbered s.threads
      → (d : IsDeliverable (id s.ids) input request s) → IsParsed deep_equal input
      → input.idempotency_key ≡ some key
      → trim d.permit.claims.agent_id ≡ d.permit.claims.agent_id
      → let first = post_message deep_equal (memory time id) input request s in
        post_message deep_equal (memory time id) input request first.1 ≡ first
  unfolding get_thread_by_id
  post_message_idem input request s key h d parsed keyed named =
      let claims = d.permit.claims in
      let n = suc (length (messages_of input.thread_id s.threads)) in
      let m = posted_message input claims (id s.ids) (time s.clock) n in
      let t = after_post input m s in
      let first = post_message_stores time id deep_equal input request s h d in
      let fresh : get_message_by_idempotency input.thread_id claims.agent_id key s.threads ≡ none =
        subst (IsNew s input.thread_id claims.agent_id) keyed d.fresh in
      let permit : IsPermitted input request t = record {
        claims = claims;
        thread = d.permit.thread;
        authenticated = d.permit.authenticated;
        permitted = d.permit.permitted;
        identified = d.permit.identified;
        inside = d.permit.inside;
        found = d.permit.found;
        answers = AnswersIn-after_post input m s input.in_reply_to d.permit.answers;
      } in
      let replay : IsReplay input request t = record {
        permit = permit;
        key = key;
        message = m;
        keyed = keyed;
        used =
            get_message_by_idempotency-after_post input m s claims.agent_id key fresh named
              (parsed.idempotency_key ∙ keyed);
      } in
      let again =
        (post_message_replays input request t replay).0
          (posted_message-matches input claims (time s.clock) n (id s.ids) parsed) in
      ap
        (λ (r : Result Thrown PostMessageResponse × BridgeState).
          post_message deep_equal (memory time id) input request r.1)
        first
      ∙ again
      ∙ sym first
