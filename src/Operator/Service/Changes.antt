-- ===== src/Operator/Service/Changes.antt =====
-- Which changes of status service.ts asks its repository for.
use orkiva.Shared.{ℕ, Bool, true, false, String, ok, ◌≡◌, arith, ap, ◌∙◌, inl, inr, Bool-cases}
use orkiva.Shared.Actions.Effects.{
  IsEffect, Within, Within-bind, Within-give, Within-present, Within-after_lift,
  Within-after_ensure, within_rules,
}
use orkiva.Domain.Thread.{
  Thread, active, blocked, closed, same_status, can_transition_thread_status,
}
use orkiva.Operator.Commands.{
  OperatorCommand, inspect_thread, escalate_thread, unblock_thread, override_close_thread,
}
use orkiva.Operator.Service.{
  OperatorRepository, OperatorAuditEvent, StatusChange, ThreadTransition, has_override_reason,
  transition_thread_status, record_and_answer, change_status, thread_in_workspace, execute,
}

-- The change is to another status, is one that the domain allows, and where it closes a blocked
-- thread, the reason begins with one of the override prefixes.
pub record IsLegal (reason : String) (change : StatusChange) : Type 0 where
  pub other : same_status change.expected_current_status change.next_status ≡ false
  pub allowed :
      can_transition_thread_status change.expected_current_status change.next_status ≡ ok true
  pub override :
      change.expected_current_status ≡ blocked
      → change.next_status ≡ closed
      → has_override_reason reason ≡ true

abbrev pub reason_of : OperatorCommand → String
reason_of (inspect_thread thread_id limit_messages limit_triggers json) = ""
reason_of (escalate_thread thread_id reason actor json) = reason
reason_of (unblock_thread thread_id reason actor json) = reason
reason_of (override_close_thread thread_id reason actor json) = reason

-- Every call of the repository moves the state along `R`, a change of status where it is legal.
pub record RespectsLegal {S : Type 0} (R : S → S → Type 0) (d : OperatorRepository S)
    (reason : String) : Type 0 where
  pub now : Within R d.now
  pub get_thread_by_id : (k : String) → Within R (d.get_thread_by_id k)
  pub list_participants : (k : String) → Within R (d.list_participants k)
  pub list_messages : (k : String) (n : ℕ) → Within R (d.list_messages k n)
  pub list_trigger_jobs : (k : String) (n : ℕ) → Within R (d.list_trigger_jobs k n)
  pub update_thread_status :
      (change : StatusChange) → IsLegal reason change → Within R (d.update_thread_status change)
  pub append_audit_event : (event : OperatorAuditEvent) → Within R (d.append_audit_event event)

module _ {S : Type 0} {R : S → S → Type 0} (effect : IsEffect R) (d : OperatorRepository S)
    (workspace_id : String) where
  module _ (reason : String) (h : RespectsLegal R d reason) where
    now-Within : Within R d.now
    now-Within = h.now

    record_and_answer-Within :
        (input : ThreadTransition) (thread : Thread) (changed : Bool)
        → Within R (record_and_answer d workspace_id input thread changed)
    record_and_answer-Within input thread changed =
        search (within_rules, effect, now-Within, h.append_audit_event) depth 40

    thread_in_workspace-Within : (k : String) → Within R (thread_in_workspace d workspace_id k)
    thread_in_workspace-Within k = search (within_rules, effect, h.get_thread_by_id) depth 40

  change_status-Within :
      (input : ThreadTransition) (existing : Thread)
      → RespectsLegal R d input.reason
      → same_status existing.status input.next_status ≡ false
      → Within R (change_status d workspace_id input existing)
  change_status-Within input existing h other =
      Within-after_lift effect _ (can_transition_thread_status existing.status input.next_status) _
        λ allowed yes. Within-after_ensure effect allowed _ _ λ legal.
          Within-after_ensure effect _ _ _ λ overridden. Within-bind effect d.now _ h.now λ moment.
            let change : StatusChange = record {
              thread_id = existing.thread_id;
              expected_current_status = existing.status;
              next_status = input.next_status;
              updated_at = moment;
            } in
            let is_legal : IsLegal input.reason change = record {
              other = other;
              allowed = yes ∙ ap ok legal;
              override = λ was next. ground (arith, was, next, overridden);
            } in
            Within-bind effect _ _ (h.update_thread_status change is_legal) λ result.
              Within-bind effect _ _ (Within-present effect result _)
                λ updated. record_and_answer-Within input.reason h input updated true

  transition_thread_status-Within :
      (input : ThreadTransition)
      → RespectsLegal R d input.reason
      → Within R (transition_thread_status d workspace_id input)
  transition_thread_status-Within input h =
      Within-bind effect _ _ (thread_in_workspace-Within input.reason h input.thread_id) λ existing.
        elim (Bool-cases (same_status existing.status input.next_status)) [
          | inl same ↦ rw same (record_and_answer-Within input.reason h input existing false)
          | inr other ↦ rw other (change_status-Within input existing h other)
        ]

  -- Whatever command an operator gives, the repository is asked for a change of status only to
  -- another status that the domain allows, and for one that closes a blocked thread only with a
  -- reason that begins with an override prefix: what the repository's other calls and such changes
  -- respect, the command respects, also where it fails.
  pub execute-Within :
      (command : OperatorCommand)
      → RespectsLegal R d (reason_of command)
      → Within R (execute d workspace_id command)
  unfolding execute
  execute-Within (inspect_thread thread_id limit_messages limit_triggers json) h =
      Within-bind effect _ _ (thread_in_workspace-Within "" h thread_id) λ thread.
        Within-bind effect _ _ (h.list_participants thread.thread_id) λ participants.
          Within-bind effect _ _ (h.list_messages thread.thread_id limit_messages) λ messages.
            Within-bind effect _ _ (h.list_trigger_jobs thread.thread_id limit_triggers)
              λ jobs. Within-bind effect _ _ h.now λ happened_at. Within-give effect _
  execute-Within (escalate_thread thread_id reason actor json) h =
      transition_thread_status-Within
        (record {
          thread_id = thread_id;
          next_status = blocked;
          reason = reason;
          actor_agent_id = actor;
          operation = "escalate-thread";
        })
        h
  execute-Within (unblock_thread thread_id reason actor json) h =
      transition_thread_status-Within
        (record {
          thread_id = thread_id;
          next_status = active;
          reason = reason;
          actor_agent_id = actor;
          operation = "unblock-thread";
        })
        h
  execute-Within (override_close_thread thread_id reason actor json) h =
      transition_thread_status-Within
        (record {
          thread_id = thread_id;
          next_status = closed;
          reason = reason;
          actor_agent_id = actor;
          operation = "override-close-thread";
        })
        h
