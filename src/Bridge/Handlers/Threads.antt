-- ===== src/Bridge/Handlers/Threads.antt =====
-- The handlers of apps/bridge-api/src/app.ts for threads and for heartbeats.
use Prim.Native.String
use orkiva.Shared.{
  ℕ, Bool, true, String, Option, none, some, List, [], ◌∷◌, any, not, ◌&&◌, starts_with,
}
use orkiva.Shared.Actions.{◌>>=◌, ◌>>◌, give, throw, ensure, present}
use orkiva.Auth.{
  VerifiedAuthClaims, AuthRole, participant, same_role, thread_read, thread_manage,
  session_heartbeat,
}
use orkiva.Domain.Errors.{at}
use orkiva.Domain.Thread.{Thread, ThreadStatus, closed, blocked, same_status}
use orkiva.Bridge.Errors.{is_missing, is_forbidden, is_conflict}
use orkiva.Bridge.Requests.{
  Request, CreateThreadRequest, CreateThreadResponse, UpdateThreadStatusRequest,
  UpdateThreadStatusResponse, SummarizeThreadRequest, HeartbeatRequest,
}
use orkiva.Bridge.ThreadStore.{ThreadSummary}
use orkiva.Bridge.Dependencies.{
  Call, Dependencies, require_context, check_role, check_identity, check_workspace, require_thread,
  write_audit_event, agent_hint,
}

abbrev pub override_reason_prefixes : List String
override_reason_prefixes = "human_override:" ∷ "coordinator_override:" ∷ []

unfoldable pub has_explicit_override_reason : String → Bool
has_explicit_override_reason value = any (starts_with value) override_reason_prefixes

-- `if (hint !== undefined) assertPayloadIdentityMatchesClaims(claims, { agent_id: hint })`
abbrev pub check_agent_if_given :
    {S : Type 0} → VerifiedAuthClaims → Option String → Call S (Unit {0})
check_agent_if_given claims none = give tt
check_agent_if_given claims (some agent_id) = check_identity claims (agent_hint (some agent_id))

abbrev pub check_workspace_if_given :
    {S : Type 0} → VerifiedAuthClaims → Option String → Call S (Unit {0})
check_workspace_if_given claims none = give tt
check_workspace_if_given claims (some workspace_id) = check_workspace claims workspace_id

abbrev pub is_forced_close : AuthRole → ThreadStatus → Bool
is_forced_close role status = same_role role participant && same_status status closed

abbrev pub is_disputed_close : ThreadStatus → ThreadStatus → Bool
is_disputed_close current next = same_status current blocked && same_status next closed

module _ {S : Type 0} (d : Dependencies S) where
  unfoldable pub create_thread : CreateThreadRequest → Request → Call S CreateThreadResponse
  create_thread input request = do
    claims ← require_context request
    check_role claims.role thread_manage
    check_workspace claims input.workspace_id
    check_agent_if_given claims input.created_by
    created_at ← d.now
    id ← d.new_id
    created ← d.create_thread (record {
      thread_id = String.◌++◌ "th_" id;
      workspace_id = input.workspace_id;
      title = input.title;
      type = input.type;
      participants = input.participants;
      created_at = at created_at;
    })
    give (record {
      thread_id = created.thread_id;
      status = created.status;
      created_at = created.created_at;
    })

  unfoldable pub get_thread : String → Request → Call S Thread
  get_thread thread_id request = do
    claims ← require_context request
    check_role claims.role thread_read
    require_thread d claims thread_id

  -- What is thrown where the store did not update the thread: that it is gone, or that it has
  -- another status.
  abbrev pub lost_update : String → Call S Thread
  lost_update thread_id = do
    latest ← d.get_thread_by_id thread_id
    still_there ← present latest is_missing
    throw is_conflict

  abbrev pub updated_or_lost : String → Option Thread → Call S Thread
  updated_or_lost thread_id none = lost_update thread_id
  updated_or_lost thread_id (some updated) = give updated

  abbrev pub audit_update : Request → VerifiedAuthClaims → Thread → Call S (Unit {0})
  audit_update request claims updated = do
    written_at ← d.now
    write_audit_event d (record {
      workspace_id = claims.workspace_id;
      actor_agent_id = some claims.agent_id;
      actor_role = some claims.role;
      operation = "mcp.update_thread_status";
      resource_type = "thread";
      resource_id = updated.thread_id;
      thread_id = some updated.thread_id;
      request_id = request.id;
      is_success = true;
      created_at = written_at;
    })

  unfoldable pub update_thread_status :
      UpdateThreadStatusRequest → Request → Call S UpdateThreadStatusResponse
  unfolding has_explicit_override_reason
  update_thread_status input request = do
    claims ← require_context request
    ensure (not (is_forced_close claims.role input.status)) is_forbidden
    check_role claims.role thread_manage
    check_agent_if_given claims input.agent_id
    existing ← require_thread d claims input.thread_id
    ensure
        (not (
          is_disputed_close existing.status input.status
          && not (has_explicit_override_reason input.reason)))
        is_forbidden
    now ← d.now
    result ← d.update_thread_status input.thread_id input.status (at now) (some existing.status)
    updated ← updated_or_lost input.thread_id result
    audit_update request claims updated
    give (record {
      thread_id = updated.thread_id;
      status = updated.status;
      updated_at = updated.updated_at;
    })

  unfoldable pub summarize_thread : SummarizeThreadRequest → Request → Call S ThreadSummary
  summarize_thread input request = do
    claims ← require_context request
    check_role claims.role thread_read
    existing ← require_thread d claims input.thread_id
    summary ← d.summarize_thread input.thread_id input.max_messages
    present summary is_missing

  -- The answer is the time that the store has recorded.
  unfoldable pub heartbeat_session : HeartbeatRequest → Request → Call S ℕ
  heartbeat_session input request = do
    claims ← require_context request
    check_role claims.role session_heartbeat
    check_identity claims (record {
      agent_id = input.agent_id;
      workspace_id = none;
      role = none;
      session_id = some input.session_id;
    })
    check_workspace_if_given claims input.workspace_id
    now ← d.now
    recorded ← d.heartbeat_session (record {
      agent_id = claims.agent_id;
      workspace_id = claims.workspace_id;
      session_id = input.session_id;
      runtime = input.runtime;
      management_mode = input.management_mode;
      resumable = input.resumable;
      status = input.status;
      heartbeat_at = some (at now);
    })
    give recorded.last_heartbeat_at
