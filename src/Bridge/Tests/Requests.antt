-- ===== src/Bridge/Tests/Requests.antt =====
-- The other requests at work.
use orkiva.Shared.{
  ℕ, zero, suc, ◌+◌, ◌≤◌, ◌<◌, Bool, true, false, String, Option, none, some, List, [], ◌∷◌, ok,
  err, ◌≡◌, ◌⊎◌, ◌↔◌, refl, length, filter, any, trim, arith, inl, inr, Result,
}
use orkiva.Shared.Dict.{get}
use orkiva.Auth.{VerifiedAuthClaims, coordinator, participant}
use orkiva.Domain.Errors.{nat, at}
use orkiva.Domain.Thread.{Thread, workflow, active, blocked, closed}
use orkiva.Domain.Session.{SessionRecord, managed, idle}
use orkiva.Worker.Jobs.{
  due_trigger_statuses, same_job_status, queued, fallback_resume, fallback_spawn,
}
use orkiva.Bridge.Errors.{Thrown}
use orkiva.Bridge.Requests.{
  fallback_required, spawn_session, TriggerRequest, TriggerResponse, UpdateThreadStatusRequest,
  AckReadRequest,
}
use orkiva.Bridge.ThreadStore.{ThreadStore, messages_of, is_after, read_messages}
use orkiva.Bridge.ThreadStore.Numbering.{IsNumbered}
use orkiva.Bridge.ThreadStore.Paging.{IsPage, read_messages-IsPage, read_all, read_all_complete}
use orkiva.Bridge.Dependencies.{default_settings}
use orkiva.Bridge.Memory.{BridgeState, memory}
use orkiva.Bridge.Handlers.{McpCall, handle}
use orkiva.Bridge.Handlers.Triggers.{TriggerDecision, trigger_participant, resolve_trigger_decision}
use orkiva.Bridge.Handlers.Threads
use orkiva.Bridge.Handlers.Reading
use orkiva.Bridge.Invariants.Numbering.{handle-IsNumbered}
use orkiva.Bridge.Invariants.Jobs.{KeepsJobs, handle-KeepsJobs}
use orkiva.Bridge.Waking.{IsRunning, IsResumable, resolve_trigger_decision_iff}
use orkiva.Bridge.Waking.Jobs.{IsQueued, trigger_participant-IsQueued}
use orkiva.Bridge.Reading.{IsAcknowledged, ack_read-IsAcknowledged}
use orkiva.Bridge.Closing.{IsEntitled, update_thread_status-IsEntitled}
use orkiva.Bridge.Tests.{time, id, deep_equal, ada, by_ada, begun, begun-IsNumbered, a_post}

handle-IsNumbered_example :
    IsNumbered
      (handle deep_equal
        (memory time id)
        default_settings
        (McpCall.post_message (a_post "k3"))
        by_ada
        begun).1.threads
handle-IsNumbered_example =
    handle-IsNumbered time id deep_equal default_settings (McpCall.post_message (a_post "k3"))
      by_ada begun begun-IsNumbered

abbrev a_trigger : TriggerRequest
a_trigger = record {
  thread_id = "t";
  target_agent_id = "bob";
  reason = "review";
  trigger_prompt = "look";
}

handle-KeepsJobs_example :
    KeepsJobs begun.triggers
      (handle deep_equal
        (memory time id)
        default_settings
        (McpCall.trigger_participant a_trigger)
        by_ada
        begun).1.triggers
handle-KeepsJobs_example =
    handle-KeepsJobs time id deep_equal default_settings (McpCall.trigger_participant a_trigger)
      by_ada begun

abbrev triggered : Result Thrown TriggerResponse × BridgeState
triggered = trigger_participant (memory time id) default_settings a_trigger by_ada begun

abbrev the_response : TriggerResponse
the_response = record {
  trigger_id = "trg_r1";
  target_agent_id = "bob";
  action = fallback_required;
  fallback_action = some spawn_session;
  job_status = fallback_spawn;
  target_session_id = none;
  runtime = none;
  management_mode = none;
  session_status = none;
  stale_session = false;
  triggered_at = 1000;
}

trigger_participant-IsQueued_example : IsQueued a_trigger by_ada the_response begun triggered.1
unfolding trigger_participant orkiva.Shared.Actions.◌>>=◌ orkiva.Auth.authorize_operation memory
    orkiva.Bridge.ThreadStore.get_thread_by_id get orkiva.Auth.assert_workspace_boundary
    orkiva.Shared.is_empty trim orkiva.Domain.Thread.is_thread_participant
    orkiva.Domain.Errors.require_non_empty_string orkiva.Bridge.SessionStore.get_session
    orkiva.Bridge.TriggerStore.create_or_reuse_trigger_job
trigger_participant-IsQueued_example =
    trigger_participant-IsQueued time id default_settings a_trigger by_ada begun {r = the_response}
      {t = triggered.1} refl

abbrev a_session : SessionRecord
a_session = record {
  agent_id = "bob";
  workspace_id = "w";
  session_id = "s";
  runtime = "codex";
  management_mode = managed;
  resumable = true;
  status = idle;
  last_heartbeat_at = 10;
  updated_at = 10;
}

resolve_trigger_decision_iff_example :
    (d : TriggerDecision) × (resolve_trigger_decision (some a_session) (nat 12) 20 ≡ ok d)
    × ((any (same_job_status d.job_status) due_trigger_statuses ≡ true)
        ↔ IsRunning 12 20 (some a_session))
    × ((d.job_status ≡ queued) ↔ IsRunning 12 20 (some a_session))
    × ((d.job_status ≡ fallback_resume)
        ↔ ((IsRunning 12 20 (some a_session) → ⊥) × IsResumable 12 20 (some a_session)))
resolve_trigger_decision_iff_example = resolve_trigger_decision_iff (some a_session) 11 20

abbrev an_ack : AckReadRequest
an_ack = record { thread_id = "t"; agent_id = none; last_read_seq = 2 }

ack_read-IsAcknowledged_example :
    IsAcknowledged an_ack ada begun (Reading.ack_read (memory time id) an_ack by_ada begun).1
unfolding Reading.ack_read orkiva.Shared.Actions.◌>>=◌ orkiva.Auth.authorize_operation memory
    orkiva.Bridge.ThreadStore.get_thread_by_id get orkiva.Auth.assert_workspace_boundary
    orkiva.Shared.is_empty trim orkiva.Bridge.ThreadStore.get_latest_message_seq
    orkiva.Bridge.ThreadStore.get_participant_cursor orkiva.Domain.Cursor.create_participant_cursor
    orkiva.Domain.Errors.require_non_empty_string orkiva.Domain.Errors.require_date
    orkiva.Domain.Cursor.acknowledge_read orkiva.Domain.Errors.require_non_negative_integer
ack_read-IsAcknowledged_example =
    ack_read-IsAcknowledged time id an_ack by_ada ada begun {moment = 1001}
      {t = (Reading.ack_read (memory time id) an_ack by_ada begun).1} tt refl refl refl refl

abbrev an_update : UpdateThreadStatusRequest
an_update = record { thread_id = "t"; status = closed; reason = "done"; agent_id = none }

update_thread_status-IsEntitled_example : IsEntitled an_update by_ada begun
unfolding Threads.update_thread_status orkiva.Shared.Actions.◌>>=◌ orkiva.Auth.authorize_operation
    memory orkiva.Bridge.ThreadStore.get_thread_by_id get orkiva.Auth.assert_workspace_boundary
    orkiva.Shared.is_empty trim orkiva.Bridge.ThreadStore.update_thread_status
    orkiva.Domain.Thread.transition_thread_status
update_thread_status-IsEntitled_example =
    update_thread_status-IsEntitled time id an_update by_ada begun
      {r = record { thread_id = "t"; status = closed; updated_at = 1000 }}
      {t = (Threads.update_thread_status (memory time id) an_update by_ada begun).1} refl

read_messages-IsPage_example :
    IsPage (messages_of "t" begun.threads) 0 (read_messages "t" 0 1 begun.threads)
read_messages-IsPage_example = read_messages-IsPage "t" 0 1 begun.threads begun-IsNumbered

read_all_complete_example :
    read_all 3 "t" 0 1 begun.threads ≡ filter (is_after 0) (messages_of "t" begun.threads)
unfolding messages_of get
read_all_complete_example = read_all_complete 3 "t" 0 0 begun.threads begun-IsNumbered (omega arith)
