-- ===== src/Bridge/Dependencies.antt =====
-- What the handlers of apps/bridge-api/src/app.ts are given: the clock, the generator of ids and
-- the stores, each call over a state `S`; and the checks that all handlers share.
use orkiva.Shared.{ℕ, String, Option, none, some}
use orkiva.Shared.Actions.{Action, ◌>>=◌, ◌>>◌, give, lift, present, catching}
use orkiva.Auth.{
  VerifiedAuthClaims, AuthRole, AuthOperation, PayloadIdentityHints, authorize_operation,
  assert_payload_identity_matches_claims, assert_workspace_boundary,
}
use orkiva.Domain.Errors.{Date, Number, Checked}
use orkiva.Domain.Thread.{Thread, ThreadStatus}
use orkiva.Domain.Message.{Message, CreateMessageInput}
use orkiva.Domain.Cursor.{ParticipantCursor}
use orkiva.Domain.Session.{SessionRecord, SessionHeartbeatInput}
use orkiva.Worker.Jobs.{TriggerJobRecord}
use orkiva.Bridge.Errors.{Thrown, auth, domain, bridge, unauthorized, is_missing}
use orkiva.Bridge.Requests.{AuditEvent, Request}
use orkiva.Bridge.ThreadStore.{CreateThreadRecordInput, ThreadSummary, ReadMessagesResult}
use orkiva.Bridge.TriggerStore.{CreateOrReuseTriggerJobResult}

abbrev pub Call : Type 0 → Type 0 → Type 0
Call S A = Action Thrown S A

-- `auditStore` may be left out.
pub record Dependencies (S : Type 0) : Type 0 where
  pub now : Call S ℕ
  pub new_id : Call S String
  pub create_thread : CreateThreadRecordInput → Call S Thread
  pub get_thread_by_id : String → Call S (Option Thread)
  pub update_thread_status :
      String → ThreadStatus → Date → Option ThreadStatus → Call S (Option Thread)
  pub summarize_thread : String → ℕ → Call S (Option ThreadSummary)
  pub create_message : CreateMessageInput → Call S Message
  pub get_latest_message_seq : String → Call S ℕ
  pub read_messages : String → ℕ → ℕ → Call S ReadMessagesResult
  pub get_message_by_id : String → String → Call S (Option Message)
  pub get_message_by_idempotency : String → String → String → Call S (Option Message)
  pub get_participant_cursor : String → String → Call S (Option ParticipantCursor)
  pub upsert_participant_cursor : ParticipantCursor → Call S (Unit {0})
  pub heartbeat_session : SessionHeartbeatInput → Call S SessionRecord
  pub get_session : String → String → Call S (Option SessionRecord)
  pub create_or_reuse_trigger_job : TriggerJobRecord → Call S CreateOrReuseTriggerJobResult
  pub write_event : Option (AuditEvent → Call S (Unit {0}))

-- `sessionStaleAfterHours` and `triggerMaxRetries`, with the defaults where they are not given.
pub record Settings : Type 0 where
  pub session_stale_after_hours : Number
  pub trigger_max_retries : ℕ

abbrev pub default_settings : Settings
default_settings = record { session_stale_after_hours = Number.nat 12; trigger_max_retries = 2 }

module _ {S : Type 0} where
  -- `requireContext`
  abbrev pub require_context : Request → Call S VerifiedAuthClaims
  require_context request =
      present request.context (bridge (record { code = unauthorized; status_code = 401 }))

  abbrev pub check_role : AuthRole → AuthOperation → Call S (Unit {0})
  check_role role operation = lift auth (authorize_operation role operation)

  abbrev pub check_identity : VerifiedAuthClaims → PayloadIdentityHints → Call S (Unit {0})
  check_identity claims hints = lift auth (assert_payload_identity_matches_claims claims hints)

  abbrev pub check_workspace : VerifiedAuthClaims → String → Call S (Unit {0})
  check_workspace claims workspace_id = lift auth (assert_workspace_boundary claims workspace_id)

  abbrev pub checked : {A : Type 0} → Checked A → Call S A
  checked result = lift domain result

  -- A write of the audit that fails does not fail the request.
  abbrev pub write_audit_event : Dependencies S → AuditEvent → Call S (Unit {0})
  write_audit_event d event = elim d.write_event [
    | none ↦ give tt
    | some write ↦ catching (write event) (λ error. give tt)
  ]

  -- The thread of a request, which must exist and lie in the token's workspace.
  abbrev pub require_thread : Dependencies S → VerifiedAuthClaims → String → Call S Thread
  require_thread d claims thread_id = do
    found ← d.get_thread_by_id thread_id
    thread ← present found is_missing
    check_workspace claims thread.workspace_id
    give thread

-- The hint that a payload gives of its agent, where it gives one.
abbrev pub agent_hint : Option String → PayloadIdentityHints
agent_hint agent_id = record {
  agent_id = agent_id;
  workspace_id = none;
  role = none;
  session_id = none;
}
