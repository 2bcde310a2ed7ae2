-- ===== src/Bridge/Access/Calls.antt =====
-- Each method handler of apps/bridge-api/src/app.ts, and all of them, by who may call them; what the
-- server's error handler adds where they throw stands in Bridge/Server.
use orkiva.Shared.{ℕ, Bool, String, Option, ◌⊎◌, inl, inr, sym}
use orkiva.Shared.Actions.Refusals.{
  IsRefused, present-Checks, lift-Checks, ensure-Checks, IsRefused-first, passing,
}
use orkiva.Auth.{thread_manage, authorize_operation, assert_workspace_boundary}
use orkiva.Auth.Boundary.{assert_workspace_boundary_iff}
use orkiva.Domain.Message.{Json}
use orkiva.Bridge.Errors.{auth}
use orkiva.Bridge.Requests
use orkiva.Bridge.Requests.{Request}
use orkiva.Bridge.Dependencies.{Call, Settings}
use orkiva.Bridge.Memory.{BridgeState, memory}
use orkiva.Bridge.Handlers.{
  McpCall, create_thread, get_thread, update_thread_status, summarize_thread, heartbeat_session,
  trigger_participant, post_message, read_messages, ack_read, handle, McpResponse, answer,
}
use orkiva.Bridge.Handlers.Threads
use orkiva.Bridge.Handlers.Triggers
use orkiva.Bridge.Handlers.Posting
use orkiva.Bridge.Handlers.Reading
use orkiva.Bridge.Access.{
  IsAllowed, require_thread-Checks, context-Checks, thread-Checks, agent-Checks,
}

module _ (time : ℕ → ℕ) (id : ℕ → String) where
  read_messages-IsAllowed :
      (input : Requests.ReadMessagesRequest) (request : Request) (s : BridgeState)
      → IsAllowed s request (read_messages input)
        ⊎ IsRefused (Reading.read_messages (memory time id) input request) s
  unfolding Reading.read_messages
  read_messages-IsAllowed input request s =
      context-Checks time id request s (read_messages input) _
        λ claims _. agent-Checks time id claims input.agent_id input.thread_id s _

  ack_read-IsAllowed :
      (input : Requests.AckReadRequest) (request : Request) (s : BridgeState)
      → IsAllowed s request (ack_read input)
        ⊎ IsRefused (Reading.ack_read (memory time id) input request) s
  unfolding Reading.ack_read
  ack_read-IsAllowed input request s =
      context-Checks time id request s (ack_read input) _
        λ claims _. agent-Checks time id claims input.agent_id input.thread_id s _

  get_thread-IsAllowed :
      (thread_id : String) (request : Request) (s : BridgeState)
      → IsAllowed s request (get_thread thread_id)
        ⊎ IsRefused (Threads.get_thread (memory time id) thread_id request) s
  unfolding Threads.get_thread
  get_thread-IsAllowed thread_id request s =
      context-Checks time id request s (get_thread thread_id) _ λ claims _.
        elim (require_thread-Checks time id claims thread_id s) [
          | inl refused ↦ inr refused
          | inr (t, _, (here, inside)) ↦ inl (t, here, inside)
        ]

  summarize_thread-IsAllowed :
      (input : Requests.SummarizeThreadRequest) (request : Request) (s : BridgeState)
      → IsAllowed s request (summarize_thread input)
        ⊎ IsRefused (Threads.summarize_thread (memory time id) input request) s
  unfolding Threads.summarize_thread
  summarize_thread-IsAllowed input request s =
      context-Checks time id request s (summarize_thread input) _
        λ claims _. thread-Checks time id claims input.thread_id s _

  trigger_participant-IsAllowed :
      (settings : Settings) (input : Requests.TriggerRequest) (request : Request) (s : BridgeState)
      → IsAllowed s request (trigger_participant input)
        ⊎ IsRefused (Triggers.trigger_participant (memory time id) settings input request) s
  unfolding Triggers.trigger_participant
  trigger_participant-IsAllowed settings input request s =
      context-Checks time id request s (trigger_participant input) _
        λ claims _. thread-Checks time id claims input.thread_id s _

  post_message-IsAllowed :
      (deep_equal : Option Json → Option Json → Bool) (input : Requests.PostMessageRequest)
      (request : Request) (s : BridgeState)
      → IsAllowed s request (post_message input)
        ⊎ IsRefused (Posting.post_message deep_equal (memory time id) input request) s
  unfolding Posting.post_message
  post_message-IsAllowed deep_equal input request s =
      context-Checks time id request s (post_message input) _ λ claims _.
        passing _ _ s (lift-Checks auth _ s) λ _ _. thread-Checks time id claims input.thread_id s _

  heartbeat_session-IsAllowed :
      (input : Requests.HeartbeatRequest) (request : Request) (s : BridgeState)
      → IsAllowed s request (heartbeat_session input)
        ⊎ IsRefused (Threads.heartbeat_session (memory time id) input request) s
  unfolding Threads.heartbeat_session
  heartbeat_session-IsAllowed input request s =
      context-Checks time id request s (heartbeat_session input) _ λ claims _. inl tt

  create_thread-IsAllowed :
      (input : Requests.CreateThreadRequest) (request : Request) (s : BridgeState)
      → IsAllowed s request (create_thread input)
        ⊎ IsRefused (Threads.create_thread (memory time id) input request) s
  unfolding Threads.create_thread
  create_thread-IsAllowed input request s =
      context-Checks time id request s (create_thread input) _ λ claims _.
        passing _ _ s (lift-Checks auth (assert_workspace_boundary claims input.workspace_id) s)
          λ _ same. inl (sym ((assert_workspace_boundary_iff claims input.workspace_id).0 same).0)

  update_thread_status-IsAllowed :
      (input : Requests.UpdateThreadStatusRequest) (request : Request) (s : BridgeState)
      → IsAllowed s request (update_thread_status input)
        ⊎ IsRefused (Threads.update_thread_status (memory time id) input request) s
  unfolding Threads.update_thread_status
  update_thread_status-IsAllowed input request s =
      passing _ _ s (present-Checks request.context _ s) λ claims authenticated.
        passing _ _ s (ensure-Checks _ _ s) λ _ _.
          passing _ _ s (lift-Checks auth (authorize_operation claims.role thread_manage) s)
            λ _ permitted. elim (agent-Checks time id claims input.agent_id input.thread_id s _) [
              | inl inside ↦ inl (record {
                claims = claims;
                authenticated = authenticated;
                permitted = permitted;
                bounded = inside;
              })
              | inr refused ↦ inr refused
            ]

  answered :
      {A G : Type 0} (respond : A → McpResponse) (call : Call BridgeState A) (s : BridgeState)
      → G ⊎ IsRefused call s
      → G ⊎ IsRefused (answer respond call) s
  answered respond call s (inl g) = inl g
  answered respond call s (inr r) = inr (IsRefused-first call _ s r)

  -- The handler of a request throws and leaves its state, unless the token is there, the token's
  -- role may do what the method does, and the thread (or the workspace of a new thread) that the
  -- payload names lies in the token's workspace.
  pub handle-IsAllowed :
      (deep_equal : Option Json → Option Json → Bool) (settings : Settings) (call : McpCall)
      (request : Request) (s : BridgeState)
      → IsAllowed s request call
        ⊎ IsRefused (handle deep_equal (memory time id) settings call request) s
  unfolding handle
  handle-IsAllowed deep_equal settings (create_thread input) request s =
      answered _ _ s (create_thread-IsAllowed input request s)
  handle-IsAllowed deep_equal settings (get_thread thread_id) request s =
      answered _ _ s (get_thread-IsAllowed thread_id request s)
  handle-IsAllowed deep_equal settings (update_thread_status input) request s =
      answered _ _ s (update_thread_status-IsAllowed input request s)
  handle-IsAllowed deep_equal settings (summarize_thread input) request s =
      answered _ _ s (summarize_thread-IsAllowed input request s)
  handle-IsAllowed deep_equal settings (heartbeat_session input) request s =
      answered _ _ s (heartbeat_session-IsAllowed input request s)
  handle-IsAllowed deep_equal settings (trigger_participant input) request s =
      answered _ _ s (trigger_participant-IsAllowed settings input request s)
  handle-IsAllowed deep_equal settings (post_message input) request s =
      answered _ _ s (post_message-IsAllowed deep_equal input request s)
  handle-IsAllowed deep_equal settings (read_messages input) request s =
      answered _ _ s (read_messages-IsAllowed input request s)
  handle-IsAllowed deep_equal settings (ack_read input) request s =
      answered _ _ s (ack_read-IsAllowed input request s)
