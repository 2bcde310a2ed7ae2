-- ===== src/Bridge/Handlers/Effects.antt =====
-- What the handlers of apps/bridge-api/src/app.ts do to the state, where it is known what each call
-- of the dependencies does.
use orkiva.Shared.{ℕ, zero, suc, Bool, String, Option, none, some}
use orkiva.Shared.Actions.Effects.{
  IsEffect, Within, Within-give, Within-lift, Within-throw, within_rules,
}
use orkiva.Auth.{VerifiedAuthClaims}
use orkiva.Domain.Errors.{Date}
use orkiva.Domain.Thread.{Thread, ThreadStatus}
use orkiva.Domain.Message.{Json, Message, CreateMessageInput}
use orkiva.Domain.Cursor.{ParticipantCursor}
use orkiva.Domain.Session.{SessionHeartbeatInput}
use orkiva.Worker.Jobs.{TriggerJobRecord}
use orkiva.Bridge.Requests.{
  Request, CreateThreadRequest, UpdateThreadStatusRequest, SummarizeThreadRequest, HeartbeatRequest,
  TriggerRequest, PostMessageRequest, PostMessageResponse, ReadMessagesRequest, AckReadRequest,
  AuditEvent,
}
use orkiva.Bridge.ThreadStore.{CreateThreadRecordInput}
use orkiva.Bridge.Dependencies.{Call, Dependencies, Settings, write_audit_event}
use orkiva.Bridge.Handlers.{McpCall, handle}
use orkiva.Bridge.Handlers.{
  create_thread, get_thread, update_thread_status, summarize_thread, heartbeat_session,
  trigger_participant, post_message, read_messages, ack_read,
}
use orkiva.Bridge.Handlers.Threads
use orkiva.Bridge.Handlers.Triggers
use orkiva.Bridge.Handlers.Posting
use orkiva.Bridge.Handlers.Posting.{attempts}
use orkiva.Bridge.Handlers.Reading

-- Every call of the dependencies moves the state along `R`.
pub record Respects {S : Type 0} (R : S → S → Type 0) (d : Dependencies S) : Type 0 where
  pub now : Within R d.now
  pub new_id : Within R d.new_id
  pub create_thread : (input : CreateThreadRecordInput) → Within R (d.create_thread input)
  pub get_thread_by_id : (thread_id : String) → Within R (d.get_thread_by_id thread_id)
  pub update_thread_status :
      (thread_id : String) (status : ThreadStatus) (at : Date) (expected : Option ThreadStatus)
      → Within R (d.update_thread_status thread_id status at expected)
  pub summarize_thread : (thread_id : String) (n : ℕ) → Within R (d.summarize_thread thread_id n)
  pub create_message : (input : CreateMessageInput) → Within R (d.create_message input)
  pub get_latest_message_seq : (thread_id : String) → Within R (d.get_latest_message_seq thread_id)
  pub read_messages :
      (thread_id : String) (since limit : ℕ) → Within R (d.read_messages thread_id since limit)
  pub get_message_by_id :
      (thread_id message_id : String) → Within R (d.get_message_by_id thread_id message_id)
  pub get_message_by_idempotency :
      (thread_id sender key : String) → Within R (d.get_message_by_idempotency thread_id sender key)
  pub get_participant_cursor :
      (thread_id agent_id : String) → Within R (d.get_participant_cursor thread_id agent_id)
  pub upsert_participant_cursor :
      (cursor : ParticipantCursor) → Within R (d.upsert_participant_cursor cursor)
  pub heartbeat_session : (input : SessionHeartbeatInput) → Within R (d.heartbeat_session input)
  pub get_session :
      (agent_id workspace_id : String) → Within R (d.get_session agent_id workspace_id)
  pub create_or_reuse_trigger_job :
      (job : TriggerJobRecord) → Within R (d.create_or_reuse_trigger_job job)
  pub write_event : (event : AuditEvent) → Within R (write_audit_event d event)

module _ {S : Type 0} {R : S → S → Type 0} (effect : IsEffect R) (d : Dependencies S)
    (h : Respects R d) where
  check_agent-Within :
      (claims : VerifiedAuthClaims) (hint : Option String)
      → Within R (Threads.check_agent_if_given claims hint)
  check_agent-Within claims none = Within-give effect tt
  check_agent-Within claims (some agent_id) = Within-lift effect _ _

  check_workspace-Within :
      (claims : VerifiedAuthClaims) (hint : Option String)
      → Within R (Threads.check_workspace_if_given claims hint)
  check_workspace-Within claims none = Within-give effect tt
  check_workspace-Within claims (some workspace_id) = Within-lift effect _ _

  now-Within : Within R d.now
  now-Within = h.now

  new_id-Within : Within R d.new_id
  new_id-Within = h.new_id

  create_thread-Within :
      (input : CreateThreadRequest) (request : Request)
      → Within R (Threads.create_thread d input request)
  unfolding Threads.create_thread
  create_thread-Within input request =
      search (within_rules, effect, check_agent-Within, now-Within, new_id-Within, h.create_thread)
        depth 40

  get_thread-Within :
      (thread_id : String) (request : Request) → Within R (Threads.get_thread d thread_id request)
  unfolding Threads.get_thread
  get_thread-Within thread_id request = search (within_rules, effect, h.get_thread_by_id) depth 40

  updated_or_lost-Within :
      (thread_id : String) (result : Option Thread)
      → Within R (Threads.updated_or_lost d thread_id result)
  updated_or_lost-Within thread_id none = search (within_rules, effect, h.get_thread_by_id) depth 40
  updated_or_lost-Within thread_id (some t) = Within-give effect t

  update_thread_status-Within :
      (input : UpdateThreadStatusRequest) (request : Request)
      → Within R (Threads.update_thread_status d input request)
  unfolding Threads.update_thread_status
  update_thread_status-Within input request =
      search
        (
          within_rules, effect, check_agent-Within, updated_or_lost-Within, now-Within,
          h.get_thread_by_id, h.update_thread_status, h.write_event,
        )
        depth 40

  summarize_thread-Within :
      (input : SummarizeThreadRequest) (request : Request)
      → Within R (Threads.summarize_thread d input request)
  unfolding Threads.summarize_thread
  summarize_thread-Within input request =
      search (within_rules, effect, h.get_thread_by_id, h.summarize_thread) depth 40

  heartbeat_session-Within :
      (input : HeartbeatRequest) (request : Request)
      → Within R (Threads.heartbeat_session d input request)
  unfolding Threads.heartbeat_session
  heartbeat_session-Within input request =
      search (within_rules, effect, check_workspace-Within, now-Within, h.heartbeat_session) depth
        40

  trigger_participant-Within :
      (settings : Settings) (input : TriggerRequest) (request : Request)
      → Within R (Triggers.trigger_participant d settings input request)
  unfolding Triggers.trigger_participant
  trigger_participant-Within settings input request =
      search
        (
          within_rules, effect, now-Within, h.get_thread_by_id, h.get_session,
          h.create_or_reuse_trigger_job, h.write_event,
        )
        depth 40

  read_messages-Within :
      (input : ReadMessagesRequest) (request : Request)
      → Within R (Reading.read_messages d input request)
  unfolding Reading.read_messages
  read_messages-Within input request =
      search (within_rules, effect, check_agent-Within, h.get_thread_by_id, h.read_messages) depth
        40

  cursor_or_new-Within :
      (thread_id agent_id : String) (stored : Option ParticipantCursor)
      → Within R (Reading.cursor_or_new d thread_id agent_id stored)
  cursor_or_new-Within thread_id agent_id none = search (within_rules, effect, now-Within) depth 40
  cursor_or_new-Within thread_id agent_id (some cursor) = Within-give effect cursor

  ack_read-Within :
      (input : AckReadRequest) (request : Request) → Within R (Reading.ack_read d input request)
  unfolding Reading.ack_read
  ack_read-Within input request =
      search
        (
          within_rules, effect, check_agent-Within, cursor_or_new-Within, now-Within,
          h.get_thread_by_id, h.get_latest_message_seq, h.get_participant_cursor,
          h.upsert_participant_cursor,
        )
        depth 40

  module _ (deep_equal : Option Json → Option Json → Bool) where
    find_replay-Within :
        (input : PostMessageRequest) (claims : VerifiedAuthClaims) (key : Option String)
        → Within R (Posting.find_replay deep_equal d input claims key)
    find_replay-Within input claims none = Within-give effect none
    find_replay-Within input claims (some key) = h.get_message_by_idempotency _ _ _

    replay_or-Within :
        (input : PostMessageRequest) (status : ThreadStatus)
        (otherwise : Call S PostMessageResponse) (found : Option Message)
        → Within R otherwise
        → Within R (Posting.replay_or deep_equal d input status otherwise found)
    replay_or-Within input status otherwise none k = k
    replay_or-Within input status otherwise (some m) k = search (within_rules, effect) depth 40

    check_parent-Within :
        (input : PostMessageRequest) (parent : Option String)
        → Within R (Posting.check_parent deep_equal d input parent)
    check_parent-Within input none = Within-give effect tt
    check_parent-Within input (some parent) =
        search (within_rules, effect, h.get_message_by_id) depth 40

    attempts-Within :
        (left : ℕ) (input : PostMessageRequest) (claims : VerifiedAuthClaims)
        (status : ThreadStatus)
        → Within R (attempts deep_equal d left input claims status)
    unfolding attempts
    attempts-Within zero input claims status = Within-throw effect _
    attempts-Within (suc left) input claims status =
        let next = attempts-Within left input claims status in
        search
          (
            within_rules, effect, find_replay-Within, replay_or-Within, now-Within, new_id-Within,
            h.create_message, h.get_latest_message_seq,
          )
          depth 40

    post_message-Within :
        (input : PostMessageRequest) (request : Request)
        → Within R (Posting.post_message deep_equal d input request)
    unfolding Posting.post_message
    post_message-Within input request =
        search
          (
            within_rules, effect, find_replay-Within, replay_or-Within, check_parent-Within,
            attempts-Within, h.get_thread_by_id,
          )
          depth 40

    -- A request does to the state what the calls of the dependencies may do, whatever its method and
    -- payload, and also where it fails.
    pub handle-Within :
        (settings : Settings) (call : McpCall) (request : Request)
        → Within R (handle deep_equal d settings call request)
    unfolding handle
    handle-Within settings (create_thread input) request =
        search (within_rules, effect, create_thread-Within) depth 40
    handle-Within settings (get_thread thread_id) request =
        search (within_rules, effect, get_thread-Within) depth 40
    handle-Within settings (update_thread_status input) request =
        search (within_rules, effect, update_thread_status-Within) depth 40
    handle-Within settings (summarize_thread input) request =
        search (within_rules, effect, summarize_thread-Within) depth 40
    handle-Within settings (heartbeat_session input) request =
        search (within_rules, effect, heartbeat_session-Within) depth 40
    handle-Within settings (trigger_participant input) request =
        search (within_rules, effect, trigger_participant-Within) depth 40
    handle-Within settings (post_message input) request =
        search (within_rules, effect, post_message-Within) depth 40
    handle-Within settings (read_messages input) request =
        search (within_rules, effect, read_messages-Within) depth 40
    handle-Within settings (ack_read input) request =
        search (within_rules, effect, ack_read-Within) depth 40
