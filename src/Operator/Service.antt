-- ===== src/Operator/Service.antt =====
-- `OperatorCliService` of apps/operator-cli/src/service.ts, over its repository.
pub mod Changes
use orkiva.Shared.{
  ℕ, Bool, true, false, String, Option, none, some, List, [], ◌∷◌, any, starts_with, str_eq, not,
  ◌&&◌, if◌then◌else◌,
}
use orkiva.Shared.Actions.{Action, ◌>>=◌, ◌>>◌, give, ensure, present, lift}
use orkiva.Domain.Errors.{DomainErrorCode}
use orkiva.Domain.Thread.{
  Thread, ThreadStatus, active, blocked, closed, same_status, can_transition_thread_status,
}
use orkiva.Domain.Message.{Message}
use orkiva.Worker.Jobs.{TriggerJobRecord}
use orkiva.Operator.Commands.{
  OperatorCommand, inspect_thread, escalate_thread, unblock_thread, override_close_thread,
}

-- An error of the service, of the domain, or of the repository.
pub data OperatorCliError : Type 0 where
  not_found workspace_mismatch invalid_transition override_required conflict : OperatorCliError
  domain : DomainErrorCode → OperatorCliError
  repository : OperatorCliError

pub record StatusChange : Type 0 where
  pub thread_id : String
  pub expected_current_status : ThreadStatus
  pub next_status : ThreadStatus
  pub updated_at : ℕ

-- An audit event, less its payload; its result is always a success.
pub record OperatorAuditEvent : Type 0 where
  pub workspace_id : String
  pub actor_agent_id : String
  pub operation : String
  pub thread_id : String
  pub created_at : ℕ

abbrev pub OperatorCall : Type 0 → Type 0 → Type 0
OperatorCall S A = Action OperatorCliError S A

-- The repository, with the clock. Its thread has the fields that are read here.
pub record OperatorRepository (S : Type 0) : Type 0 where
  pub now : OperatorCall S ℕ
  pub get_thread_by_id : String → OperatorCall S (Option Thread)
  pub list_participants : String → OperatorCall S (List String)
  pub list_messages : String → ℕ → OperatorCall S (List Message)
  pub list_trigger_jobs : String → ℕ → OperatorCall S (List TriggerJobRecord)
  pub update_thread_status : StatusChange → OperatorCall S (Option Thread)
  pub append_audit_event : OperatorAuditEvent → OperatorCall S (Unit {0})

-- The `data` of a result.
pub data OperatorResult : Type 0 where
  inspected : Thread → List String → List Message → List TriggerJobRecord → ℕ → OperatorResult
  moved : String → ThreadStatus → Bool → ℕ → OperatorResult

abbrev pub override_reason_prefixes : List String
override_reason_prefixes = "human_override:" ∷ "coordinator_override:" ∷ []

abbrev pub requires_override_reason : ThreadStatus → ThreadStatus → Bool
requires_override_reason current next = same_status current blocked && same_status next closed

unfoldable pub has_override_reason : String → Bool
has_override_reason reason = any (starts_with reason) override_reason_prefixes

-- The argument of `transitionThreadStatus`.
pub record ThreadTransition : Type 0 where
  pub thread_id : String
  pub next_status : ThreadStatus
  pub reason : String
  pub actor_agent_id : String
  pub operation : String

module _ {S : Type 0} (d : OperatorRepository S) (workspace_id : String) where
  abbrev pub thread_in_workspace : String → OperatorCall S Thread
  thread_in_workspace thread_id = do
    found ← d.get_thread_by_id thread_id
    thread ← present found not_found
    ensure (str_eq thread.workspace_id workspace_id) workspace_mismatch
    give thread

  abbrev pub record_and_answer : ThreadTransition → Thread → Bool → OperatorCall S OperatorResult
  record_and_answer input thread changed = do
    written_at ← d.now
    d.append_audit_event (record {
      workspace_id = thread.workspace_id;
      actor_agent_id = input.actor_agent_id;
      operation = input.operation;
      thread_id = thread.thread_id;
      created_at = written_at;
    })
    happened_at ← d.now
    give (moved thread.thread_id thread.status changed happened_at)

  -- The status is changed: the end of `transitionThreadStatus`.
  abbrev pub change_status : ThreadTransition → Thread → OperatorCall S OperatorResult
  change_status input existing = do
    allowed ← lift domain (can_transition_thread_status existing.status input.next_status)
    ensure allowed invalid_transition
    ensure
        (not (
          requires_override_reason existing.status input.next_status
          && not (has_override_reason input.reason)))
        override_required
    now ← d.now
    result ← d.update_thread_status (record {
      thread_id = existing.thread_id;
      expected_current_status = existing.status;
      next_status = input.next_status;
      updated_at = now;
    })
    updated ← present result conflict
    record_and_answer input updated true

  abbrev pub transition_thread_status : ThreadTransition → OperatorCall S OperatorResult
  transition_thread_status input = do
    existing ← thread_in_workspace input.thread_id
    let settled = record_and_answer input existing false
    let changed = change_status input existing
    if same_status existing.status input.next_status then settled else changed

  abbrev pub inspect : String → ℕ → ℕ → OperatorCall S OperatorResult
  inspect thread_id limit_messages limit_triggers = do
    thread ← thread_in_workspace thread_id
    participants ← d.list_participants thread.thread_id
    messages ← d.list_messages thread.thread_id limit_messages
    jobs ← d.list_trigger_jobs thread.thread_id limit_triggers
    happened_at ← d.now
    give (inspected thread participants messages jobs happened_at)

  unfoldable pub execute : OperatorCommand → OperatorCall S OperatorResult
  unfolding has_override_reason
  execute (inspect_thread thread_id limit_messages limit_triggers json) =
      inspect thread_id limit_messages limit_triggers
  execute (escalate_thread thread_id reason actor json) = transition_thread_status (record {
    thread_id = thread_id;
    next_status = blocked;
    reason = reason;
    actor_agent_id = actor;
    operation = "escalate-thread";
  })
  execute (unblock_thread thread_id reason actor json) = transition_thread_status (record {
    thread_id = thread_id;
    next_status = active;
    reason = reason;
    actor_agent_id = actor;
    operation = "unblock-thread";
  })
  execute (override_close_thread thread_id reason actor json) = transition_thread_status (record {
    thread_id = thread_id;
    next_status = closed;
    reason = reason;
    actor_agent_id = actor;
    operation = "override-close-thread";
  })
