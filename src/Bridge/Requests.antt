-- ===== src/Bridge/Requests.antt =====
-- The requests and responses of apps/bridge-api/src/app.ts, once the schemas have parsed them, and
-- who sends them. The metadata of a change of status, which only the audit stores, is left out.
-- A time is in milliseconds, not its text.
use orkiva.Shared.{ℕ, Bool, String, Option, List}
use orkiva.Auth.{AuthRole, VerifiedAuthClaims}
use orkiva.Domain.Thread.{ThreadType, ThreadStatus}
use orkiva.Domain.Message.{MessageKind, Json}
use orkiva.Domain.Session.{ManagementMode, SessionStatus}
use orkiva.Worker.Jobs.{TriggerJobStatus}

-- A request has its id, and the claims of its token where the hook has verified it.
pub record Request : Type 0 where
  pub id : String
  pub context : Option VerifiedAuthClaims

pub record CreateThreadRequest : Type 0 where
  pub workspace_id : String
  pub title : String
  pub type : ThreadType
  pub participants : List String
  pub created_by : Option String

pub record CreateThreadResponse : Type 0 where
  pub thread_id : String
  pub status : ThreadStatus
  pub created_at : ℕ

pub record UpdateThreadStatusRequest : Type 0 where
  pub thread_id : String
  pub status : ThreadStatus
  pub reason : String
  pub agent_id : Option String

pub record UpdateThreadStatusResponse : Type 0 where
  pub thread_id : String
  pub status : ThreadStatus
  pub updated_at : ℕ

pub record SummarizeThreadRequest : Type 0 where
  pub thread_id : String
  pub max_messages : ℕ

pub record HeartbeatRequest : Type 0 where
  pub agent_id : Option String
  pub workspace_id : Option String
  pub session_id : String
  pub runtime : String
  pub management_mode : ManagementMode
  pub resumable : Bool
  pub status : SessionStatus

pub record TriggerRequest : Type 0 where
  pub thread_id : String
  pub target_agent_id : String
  pub reason : String
  pub trigger_prompt : String

pub data TriggerAction : Type 0 where
  trigger_runtime fallback_required : TriggerAction

pub data FallbackAction : Type 0 where
  resume_session spawn_session : FallbackAction

-- The response's `result` is queued exactly where its action is `trigger_runtime`.
pub record TriggerResponse : Type 0 where
  pub trigger_id : String
  pub target_agent_id : String
  pub action : TriggerAction
  pub fallback_action : Option FallbackAction
  pub job_status : TriggerJobStatus
  pub target_session_id : Option String
  pub runtime : Option String
  pub management_mode : Option ManagementMode
  pub session_status : Option SessionStatus
  pub stale_session : Bool
  pub triggered_at : ℕ

pub record PostMessageRequest : Type 0 where
  pub thread_id : String
  pub schema_version : ℕ
  pub sender_agent_id : Option String
  pub sender_session_id : Option String
  pub kind : MessageKind
  pub body : String
  pub metadata : Option Json
  pub in_reply_to : Option String
  pub idempotency_key : Option String

pub record PostMessageResponse : Type 0 where
  pub message_id : String
  pub seq : ℕ
  pub thread_status : ThreadStatus
  pub created_at : ℕ

pub record ReadMessagesRequest : Type 0 where
  pub thread_id : String
  pub agent_id : Option String
  pub since_seq : ℕ
  pub limit : ℕ

pub record AckReadRequest : Type 0 where
  pub thread_id : String
  pub agent_id : Option String
  pub last_read_seq : ℕ

-- An event of the audit, less its payload.
pub record AuditEvent : Type 0 where
  pub workspace_id : String
  pub actor_agent_id : Option String
  pub actor_role : Option AuthRole
  pub operation : String
  pub resource_type : String
  pub resource_id : String
  pub thread_id : Option String
  pub request_id : String
  pub is_success : Bool
  pub created_at : ℕ
