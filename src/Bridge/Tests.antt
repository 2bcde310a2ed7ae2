-- ===== src/Bridge/Tests.antt =====
-- A thread with two messages, for the tests of the bridge.
mod Posts
mod Requests
mod Server
use orkiva.Shared.{
  ℕ, zero, suc, ◌+◌, ◌≤◌, ◌<◌, Bool, true, false, String, Option, none, some, List, [], ◌∷◌, ok,
  err, ◌≡◌, ◌⊎◌, ◌↔◌, refl, length, filter, any, trim, arith, inl, inr, Result,
}
use orkiva.Shared.Dict.{get}
use orkiva.Shared.Actions.Refusals.{IsRefused}
use orkiva.Auth.{VerifiedAuthClaims, coordinator, participant}
use orkiva.Domain.Errors.{nat, at}
use orkiva.Domain.Thread.{Thread, workflow, active, blocked, closed}
use orkiva.Domain.Message.{Message, Json, chat}
use orkiva.Domain.Session.{SessionRecord, managed, idle}
use orkiva.Worker.Jobs.{
  due_trigger_statuses, same_job_status, queued, fallback_resume, fallback_spawn,
}
use orkiva.Bridge.Errors.{Thrown, database, is_reused}
use orkiva.Bridge.Requests.{
  fallback_required, spawn_session, Request, PostMessageRequest, PostMessageResponse,
  ReadMessagesRequest, TriggerRequest, TriggerResponse, UpdateThreadStatusRequest,
  UpdateThreadStatusResponse, AckReadRequest,
}
use orkiva.Bridge.ThreadStore.{ThreadStore, messages_of, is_after, read_messages}
use orkiva.Bridge.ThreadStore.Numbering.{IsNumbered}
use orkiva.Bridge.ThreadStore.Paging.{IsPage, read_messages-IsPage, read_all, read_all_complete}
use orkiva.Bridge.Dependencies.{Dependencies, default_settings}
use orkiva.Bridge.Memory.{BridgeState, memory}
use orkiva.Bridge.Handlers.{McpCall, handle}
use orkiva.Bridge.Handlers.Posting.{
  post_message, to_post_message_output, is_idempotent_replay_match,
}
use orkiva.Bridge.Handlers.Triggers.{TriggerDecision, trigger_participant, resolve_trigger_decision}
use orkiva.Bridge.Handlers.Threads
use orkiva.Bridge.Handlers.Reading
use orkiva.Bridge.Access.{IsAllowed}
use orkiva.Bridge.Access.Calls.{handle-IsAllowed}
use orkiva.Bridge.Invariants.Numbering.{handle-IsNumbered}
use orkiva.Bridge.Invariants.Jobs.{KeepsJobs, handle-KeepsJobs}
use orkiva.Bridge.Posts.Permission.{IsPermitted}
use orkiva.Bridge.Posts.Delivery.{IsDeliverable, posted_message, after_post, post_message_delivers}
use orkiva.Bridge.Posts.Replays.{IsReplay, IsParsed, post_message_replays, post_message_idem}
use orkiva.Bridge.Posts.Attempts.{IsWriteCount, Costs, post_message_writes}
use orkiva.Bridge.Waking.{IsRunning, IsResumable, resolve_trigger_decision_iff}
use orkiva.Bridge.Waking.Jobs.{IsQueued, trigger_participant-IsQueued}
use orkiva.Bridge.Reading.{IsAcknowledged, ack_read-IsAcknowledged}
use orkiva.Bridge.Closing.{IsEntitled, update_thread_status-IsEntitled}

abbrev pub time : ℕ → ℕ
time n = n + 1000

abbrev pub id : ℕ → String
id zero = "one"
id (suc n) = "two"

abbrev pub deep_equal : Option Json → Option Json → Bool
deep_equal none none = true
deep_equal _ _ = false

abbrev pub ada : VerifiedAuthClaims
ada = record {
  agent_id = "ada";
  workspace_id = "w";
  role = coordinator;
  session_id = "s";
  issued_at = 1;
  expires_at = 9;
  jwt_id = "j";
}

abbrev pub by_ada : Request
by_ada = record { id = "r1"; context = some ada }

abbrev pub a_thread : Thread
a_thread = record {
  thread_id = "t";
  workspace_id = "w";
  title = "work";
  type = workflow;
  status = active;
  participants = "ada" ∷ "bob" ∷ [];
  created_at = 5;
  updated_at = 5;
}

abbrev pub a_message : ℕ → String → Message
a_message seq key = record {
  message_id = "msg_zero";
  thread_id = "t";
  schema_version = 1;
  seq = seq;
  sender_agent_id = "ada";
  sender_session_id = "s";
  kind = chat;
  body = "hello";
  metadata = none;
  in_reply_to = none;
  idempotency_key = some key;
  created_at = 6;
}

abbrev pub begun : BridgeState
begun = record {
  threads = record {
    thread_records = ("t", a_thread) ∷ [];
    message_records = ("t", a_message 1 "k1" ∷ a_message 2 "k2" ∷ []) ∷ [];
    cursor_records = [];
  };
  sessions = [];
  triggers = [];
  audit = [];
  clock = 0;
  ids = 0;
}

pub begun-IsNumbered : IsNumbered begun.threads
begun-IsNumbered = ((refl, (refl, tt)), tt)

abbrev pub a_post : String → PostMessageRequest
a_post key = record {
  thread_id = "t";
  schema_version = 1;
  sender_agent_id = none;
  sender_session_id = none;
  kind = chat;
  body = "hello";
  metadata = none;
  in_reply_to = some "msg_zero";
  idempotency_key = some key;
}
