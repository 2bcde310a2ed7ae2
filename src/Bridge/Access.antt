-- ===== src/Bridge/Access.antt =====
-- Who may do what to which workspace through the bridge of apps/bridge-api/src/app.ts.
pub mod Calls
pub mod Roles
use orkiva.Shared.{ℕ, Bool, String, Option, none, some, ok, ◌≡◌, ◌⊎◌, inl, inr, refl, sym, ◌∙◌}
use orkiva.Shared.Actions.{◌>>=◌, give}
use orkiva.Shared.Actions.Refusals.{
  Checks, IsRefused, present-Checks, lift-Checks, ensure-Checks, IsRefused-first, passing, forget,
  Checks-bind,
}
use orkiva.Auth.{
  VerifiedAuthClaims, AuthOperation, thread_read, thread_manage, message_read, message_write,
  session_heartbeat, authorize_operation, assert_workspace_boundary,
  assert_payload_identity_matches_claims,
}
use orkiva.Auth.Boundary.{assert_workspace_boundary_iff}
use orkiva.Domain.Message.{Json}
use orkiva.Domain.Thread.{Thread}
use orkiva.Bridge.ThreadStore.{get_thread_by_id}
use orkiva.Bridge.Errors.{auth, is_missing}
use orkiva.Bridge.Requests
use orkiva.Bridge.Requests.{Request}
use orkiva.Bridge.Dependencies.{
  Call, Settings, require_thread, require_context, check_role, check_identity, agent_hint,
}
use orkiva.Bridge.Memory.{BridgeState, memory}
use orkiva.Bridge.Handlers.{
  McpCall, create_thread, get_thread, update_thread_status, summarize_thread, heartbeat_session,
  trigger_participant, post_message, read_messages, ack_read, handle, McpResponse, answer,
}
use orkiva.Bridge.Handlers.Threads
use orkiva.Bridge.Handlers.Triggers
use orkiva.Bridge.Handlers.Posting
use orkiva.Bridge.Handlers.Reading

-- What a call does, as the roles are asked.
abbrev pub operation_of : McpCall → AuthOperation
operation_of (create_thread input) = thread_manage
operation_of (get_thread thread_id) = thread_read
operation_of (update_thread_status input) = thread_manage
operation_of (summarize_thread input) = thread_read
operation_of (heartbeat_session input) = session_heartbeat
operation_of (trigger_participant input) = thread_manage
operation_of (post_message input) = message_write
operation_of (read_messages input) = message_read
operation_of (ack_read input) = message_read

-- The thread exists and lies in the workspace.
abbrev pub IsThreadOf : BridgeState → String → String → Type 0
IsThreadOf s workspace_id thread_id =
    (t : Thread) × (get_thread_by_id thread_id s.threads ≡ some t) × (t.workspace_id ≡ workspace_id)

-- What the call names lies in the workspace.
abbrev pub IsInWorkspace : BridgeState → String → McpCall → Type 0
IsInWorkspace s w (create_thread input) = input.workspace_id ≡ w
IsInWorkspace s w (get_thread thread_id) = IsThreadOf s w thread_id
IsInWorkspace s w (update_thread_status input) = IsThreadOf s w input.thread_id
IsInWorkspace s w (summarize_thread input) = IsThreadOf s w input.thread_id
IsInWorkspace s w (heartbeat_session input) = Unit
IsInWorkspace s w (trigger_participant input) = IsThreadOf s w input.thread_id
IsInWorkspace s w (post_message input) = IsThreadOf s w input.thread_id
IsInWorkspace s w (read_messages input) = IsThreadOf s w input.thread_id
IsInWorkspace s w (ack_read input) = IsThreadOf s w input.thread_id

pub record IsAllowed (s : BridgeState) (request : Request) (call : McpCall) : Type 0 where
  pub claims : VerifiedAuthClaims
  pub authenticated : request.context ≡ some claims
  pub permitted : authorize_operation claims.role (operation_of call) ≡ ok tt
  pub bounded : IsInWorkspace s claims.workspace_id call

module _ (time : ℕ → ℕ) (id : ℕ → String) where
  pub require_thread-Checks :
      (claims : VerifiedAuthClaims) (thread_id : String) (s : BridgeState)
      → Checks (require_thread (memory time id) claims thread_id) s (λ (t : Thread).
        (get_thread_by_id thread_id s.threads ≡ some t) × (t.workspace_id ≡ claims.workspace_id))
  unfolding memory give
  require_thread-Checks claims thread_id s =
      let found = get_thread_by_id thread_id s.threads in
      Checks-bind _ _ s {P = λ o. o ≡ found} (inr (found, refl, refl)) λ o same.
        Checks-bind _ _ s (present-Checks o is_missing s) λ t here.
          Checks-bind _ _ s (lift-Checks auth (assert_workspace_boundary claims t.workspace_id) s)
            λ _ passed.
              let inside = sym ((assert_workspace_boundary_iff claims t.workspace_id).0 passed).0 in
              inr (t, refl, (sym same ∙ here, inside))

  -- A handler that checks the token, the role and then the rest.
  pub context-Checks :
      {A : Type 0} (request : Request) (s : BridgeState) (call : McpCall)
      (rest : VerifiedAuthClaims → Call BridgeState A)
      → ((claims : VerifiedAuthClaims)
          → authorize_operation claims.role (operation_of call) ≡ ok tt
          → IsInWorkspace s claims.workspace_id call ⊎ IsRefused (rest claims) s)
      → IsAllowed s request call
        ⊎ IsRefused
            (require_context request >>= λ claims.
              check_role claims.role (operation_of call) >>= λ _. rest claims)
            s
  context-Checks request s call rest k =
      passing _ _ s (present-Checks request.context _ s) λ claims authenticated.
        passing _ _ s (lift-Checks auth (authorize_operation claims.role (operation_of call)) s)
          λ _ permitted. elim (k claims permitted) [
            | inl inside ↦ inl (record {
              claims = claims;
              authenticated = authenticated;
              permitted = permitted;
              bounded = inside;
            })
            | inr refused ↦ inr refused
          ]

  pub thread-Checks :
      {A : Type 0} (claims : VerifiedAuthClaims) (thread_id : String) (s : BridgeState)
      (rest : Thread → Call BridgeState A)
      → IsThreadOf s claims.workspace_id thread_id
        ⊎ IsRefused (require_thread (memory time id) claims thread_id >>= rest) s
  thread-Checks claims thread_id s rest =
      passing _ rest s (require_thread-Checks claims thread_id s)
        λ t (here, inside). inl (t, here, inside)

  pub check_agent-Checks :
      (claims : VerifiedAuthClaims) (hint : Option String) (s : BridgeState)
      → Checks (Threads.check_agent_if_given claims hint) s (λ _. Unit {0})
  unfolding give
  check_agent-Checks claims none s = inr (tt, refl, tt)
  check_agent-Checks claims (some agent_id) s =
      forget (check_identity claims (agent_hint (some agent_id))) (
        lift-Checks auth
          (assert_payload_identity_matches_claims claims (agent_hint (some agent_id))) s)

  -- A call that checks the agent of its payload before the thread.
  pub agent-Checks :
      {A : Type 0} (claims : VerifiedAuthClaims) (hint : Option String) (thread_id : String)
      (s : BridgeState) (rest : Thread → Call BridgeState A)
      → IsThreadOf s claims.workspace_id thread_id
        ⊎ IsRefused
            (Threads.check_agent_if_given claims hint >>= λ _.
              require_thread (memory time id) claims thread_id >>= rest)
            s
  agent-Checks claims hint thread_id s rest =
      passing _ _ s (check_agent-Checks claims hint s) λ _ _. thread-Checks claims thread_id s rest
