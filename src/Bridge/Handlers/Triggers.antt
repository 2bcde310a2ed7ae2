-- ===== src/Bridge/Handlers/Triggers.antt =====
-- `trigger_participant` of apps/bridge-api/src/app.ts: how an agent is to be woken, and the job
-- that is queued for it.
use Prim.Native.String
use orkiva.Shared.{
  ℕ, Bool, true, false, Option, none, some, ok, err, str_eq, if◌then◌else◌, not, ◌&&◌, ◌||◌,
}
use orkiva.Shared.Actions.{◌>>=◌, ◌>>◌, give, ensure}
use orkiva.Auth.{VerifiedAuthClaims, thread_manage}
use orkiva.Domain.Errors.{Checked, Number, at}
use orkiva.Domain.Thread.{Thread, is_thread_participant}
use orkiva.Domain.Session.{
  SessionRecord, managed, offline, same_mode, same_session_status, is_session_stale,
}
use orkiva.Worker.Jobs.{TriggerJobRecord, TriggerJobStatus, queued, fallback_resume, fallback_spawn}
use orkiva.Bridge.Errors.{is_invalid, is_reused}
use orkiva.Bridge.Requests.{
  Request, TriggerRequest, TriggerResponse, TriggerAction, trigger_runtime, fallback_required,
  FallbackAction, resume_session, spawn_session,
}
use orkiva.Bridge.Dependencies.{
  Call, Dependencies, Settings, checked, require_context, check_role, require_thread,
  write_audit_event,
}

-- The parts of a `TriggerDecision` that are read: the rest follows from the status.
pub record TriggerDecision : Type 0 where
  pub job_status : TriggerJobStatus
  pub stale_session : Bool

abbrev pub decision_of : SessionRecord → Bool → TriggerDecision
decision_of session stale =
    let available =
      same_mode session.management_mode managed
      && not (same_session_status session.status offline)
      && not stale in
    let fallback = if session.resumable && not stale then fallback_resume else fallback_spawn in
    record { job_status = if available then queued else fallback; stale_session = stale }

abbrev pub decided : SessionRecord → Checked Bool → Checked TriggerDecision
decided session (err code) = err code
decided session (ok stale) = ok (decision_of session stale)

unfoldable pub resolve_trigger_decision :
    Option SessionRecord → Number → ℕ → Checked TriggerDecision
resolve_trigger_decision none stale_after_hours reference_time =
    ok (record { job_status = fallback_spawn; stale_session = false })
resolve_trigger_decision (some session) stale_after_hours reference_time =
    decided session (is_session_stale session stale_after_hours (at reference_time))

abbrev pub action_of_job_status : TriggerJobStatus → TriggerAction
action_of_job_status fallback_resume = fallback_required
action_of_job_status fallback_spawn = fallback_required
action_of_job_status _ = trigger_runtime

abbrev pub fallback_of_job_status : TriggerJobStatus → Option FallbackAction
fallback_of_job_status fallback_resume = some resume_session
fallback_of_job_status fallback_spawn = some spawn_session
fallback_of_job_status _ = none

abbrev pub has_trigger_replay_match : TriggerJobRecord → TriggerJobRecord → Bool
has_trigger_replay_match existing expected =
    str_eq existing.thread_id expected.thread_id
    && str_eq existing.workspace_id expected.workspace_id
    && str_eq existing.target_agent_id expected.target_agent_id
    && str_eq existing.reason expected.reason
    && str_eq existing.prompt expected.prompt

-- What the response says of the agent's session.
abbrev pub map_session : {A : Type 0} → (SessionRecord → A) → Option SessionRecord → Option A
map_session f none = none
map_session f (some session) = some (f session)

abbrev pub to_trigger_participant_output :
    TriggerJobRecord → Bool → Option SessionRecord → TriggerResponse
to_trigger_participant_output job stale session = record {
  trigger_id = job.trigger_id;
  target_agent_id = job.target_agent_id;
  action = action_of_job_status job.status;
  fallback_action = fallback_of_job_status job.status;
  job_status = job.status;
  target_session_id = job.target_session_id;
  runtime = map_session (λ (s : SessionRecord). s.runtime) session;
  management_mode = map_session (λ (s : SessionRecord). s.management_mode) session;
  session_status = map_session (λ (s : SessionRecord). s.status) session;
  stale_session = stale;
  triggered_at = job.created_at;
}

abbrev pub trigger_job_of :
    Settings
    → TriggerRequest
    → Request
    → Thread
    → Option SessionRecord
    → TriggerDecision
    → ℕ
    → TriggerJobRecord
trigger_job_of settings input request thread session decision time = record {
  trigger_id = String.◌++◌ "trg_" request.id;
  thread_id = input.thread_id;
  workspace_id = thread.workspace_id;
  target_agent_id = input.target_agent_id;
  target_session_id = map_session (λ (s : SessionRecord). s.session_id) session;
  reason = input.reason;
  prompt = input.trigger_prompt;
  status = decision.job_status;
  attempts = 0;
  max_retries = settings.trigger_max_retries;
  next_retry_at = none;
  created_at = time;
  updated_at = time;
}

module _ {S : Type 0} (d : Dependencies S) (settings : Settings) where
  abbrev pub audit_trigger : Request → VerifiedAuthClaims → Thread → Call S (Unit {0})
  audit_trigger request claims thread = do
    written_at ← d.now
    write_audit_event d (record {
      workspace_id = claims.workspace_id;
      actor_agent_id = some claims.agent_id;
      actor_role = some claims.role;
      operation = "mcp.trigger_participant";
      resource_type = "thread";
      resource_id = thread.thread_id;
      thread_id = some thread.thread_id;
      request_id = request.id;
      is_success = true;
      created_at = written_at;
    })

  -- The end of `trigger_participant`: its job is stored, or the one that has its id is compared.
  abbrev pub queue_job :
      Request
      → VerifiedAuthClaims
      → Thread
      → TriggerJobRecord
      → Bool
      → Option SessionRecord
      → Call S TriggerResponse
  queue_job request claims thread job stale session = do
    result ← d.create_or_reuse_trigger_job job
    ensure (result.created || has_trigger_replay_match result.job job) is_reused
    audit_trigger request claims thread
    give (to_trigger_participant_output result.job stale session)

  -- What follows the checks: the decision, and the job.
  abbrev pub wake : TriggerRequest → Request → VerifiedAuthClaims → Thread → Call S TriggerResponse
  wake input request claims thread = do
    time ← d.now
    session ← d.get_session input.target_agent_id thread.workspace_id
    decision ← checked (resolve_trigger_decision session settings.session_stale_after_hours time)
    let job = trigger_job_of settings input request thread session decision time
    queue_job request claims thread job decision.stale_session session

  unfoldable pub trigger_participant : TriggerRequest → Request → Call S TriggerResponse
  unfolding resolve_trigger_decision
  trigger_participant input request = do
    claims ← require_context request
    check_role claims.role thread_manage
    thread ← require_thread d claims input.thread_id
    takes_part ← checked (is_thread_participant thread input.target_agent_id)
    ensure takes_part is_invalid
    wake input request claims thread
