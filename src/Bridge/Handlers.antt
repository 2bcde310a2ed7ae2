-- ===== src/Bridge/Handlers.antt =====
-- The handlers of `methodHandlers` in apps/bridge-api/src/app.ts, over their dependencies, and the
-- choice between them by the method's name.
pub mod Threads
pub mod Triggers
pub mod Posting
pub mod Reading
pub mod Effects
use orkiva.Shared.{ℕ, Bool, String, Option}
use orkiva.Shared.Actions.{◌>>=◌, give}
use orkiva.Domain.Thread.{Thread}
use orkiva.Domain.Message.{Json}
use orkiva.Bridge.Requests
use orkiva.Bridge.Requests.{Request}
use orkiva.Bridge.ThreadStore.{ThreadSummary, ReadMessagesResult}
use orkiva.Bridge.Dependencies.{Call, Dependencies, Settings}

-- A method with its payload.
pub data McpCall : Type 0 where
  create_thread : Requests.CreateThreadRequest → McpCall
  get_thread : String → McpCall
  update_thread_status : Requests.UpdateThreadStatusRequest → McpCall
  summarize_thread : Requests.SummarizeThreadRequest → McpCall
  heartbeat_session : Requests.HeartbeatRequest → McpCall
  trigger_participant : Requests.TriggerRequest → McpCall
  post_message : Requests.PostMessageRequest → McpCall
  read_messages : Requests.ReadMessagesRequest → McpCall
  ack_read : Requests.AckReadRequest → McpCall

pub data McpResponse : Type 0 where
  thread_created : Requests.CreateThreadResponse → McpResponse
  thread : Thread → McpResponse
  status_updated : Requests.UpdateThreadStatusResponse → McpResponse
  summary : ThreadSummary → McpResponse
  recorded_at : ℕ → McpResponse
  triggered : Requests.TriggerResponse → McpResponse
  posted : Requests.PostMessageResponse → McpResponse
  page : ReadMessagesResult → McpResponse
  acknowledged_at : ℕ → McpResponse

module _ {S : Type 0} where
  abbrev pub answer : {A : Type 0} → (A → McpResponse) → Call S A → Call S McpResponse
  answer respond call = call >>= λ result. give (respond result)

  unfoldable pub handle :
      (Option Json → Option Json → Bool)
      → Dependencies S
      → Settings
      → McpCall
      → Request
      → Call S McpResponse
  handle deep_equal d settings (create_thread input) request =
      answer thread_created (Threads.create_thread d input request)
  handle deep_equal d settings (get_thread thread_id) request =
      answer thread (Threads.get_thread d thread_id request)
  handle deep_equal d settings (update_thread_status input) request =
      answer status_updated (Threads.update_thread_status d input request)
  handle deep_equal d settings (summarize_thread input) request =
      answer summary (Threads.summarize_thread d input request)
  handle deep_equal d settings (heartbeat_session input) request =
      answer recorded_at (Threads.heartbeat_session d input request)
  handle deep_equal d settings (trigger_participant input) request =
      answer triggered (Triggers.trigger_participant d settings input request)
  handle deep_equal d settings (post_message input) request =
      answer posted (Posting.post_message deep_equal d input request)
  handle deep_equal d settings (read_messages input) request =
      answer page (Reading.read_messages d input request)
  handle deep_equal d settings (ack_read input) request =
      answer acknowledged_at (Reading.ack_read d input request)
