-- ===== src/Bridge/Access/Roles.antt =====
-- What each method of apps/bridge-api/src/app.ts does for a token whose role may not do it.
use orkiva.Shared.{
  ℕ, Bool, not, Bool-cases, String, Option, some, err, ok, ◌≡◌, ◌≢◌, refl, inl, inr, arith, ap,
}
use orkiva.Shared.Actions.{◌>>=◌, give, resume, lift, present, ensure}
use orkiva.Auth.{
  VerifiedAuthClaims, AuthRole, AuthOperation, forbidden, thread_manage, authorize_operation,
}
use orkiva.Domain.Message.{Json}
use orkiva.Bridge.Errors.{Thrown, auth, is_forbidden, map_unknown_error}
use orkiva.Bridge.Requests.{Request, UpdateThreadStatusRequest}
use orkiva.Bridge.Dependencies.{Call, Settings, require_context, check_role}
use orkiva.Bridge.Memory.{BridgeState, memory}
use orkiva.Bridge.Handlers.{
  McpCall, McpResponse, create_thread, get_thread, update_thread_status, summarize_thread,
  heartbeat_session, trigger_participant, post_message, read_messages, ack_read, handle, answer,
}
use orkiva.Bridge.Handlers.Threads
use orkiva.Bridge.Handlers.Triggers
use orkiva.Bridge.Handlers.Posting
use orkiva.Bridge.Handlers.Reading
use orkiva.Bridge.Access.{operation_of}

-- The call throws what is answered with 403, and leaves its state.
abbrev pub IsForbidden : {A : Type 0} → Call BridgeState A → BridgeState → Type 0
IsForbidden call s =
    (e : Thrown) × ((map_unknown_error e).status_code ≡ 403) × (call s ≡ (err e, s))

authorize_denied :
    (role : AuthRole) (operation : AuthOperation)
    → authorize_operation role operation ≢ ok tt
    → authorize_operation role operation ≡ err forbidden
unfolding authorize_operation
authorize_denied role operation h = ground arith

IsForbidden-context :
    {A : Type 0} (request : Request) (claims : VerifiedAuthClaims) (operation : AuthOperation)
    (rest : VerifiedAuthClaims → Call BridgeState A) (s : BridgeState)
    → request.context ≡ some claims
    → authorize_operation claims.role operation ≢ ok tt
    → IsForbidden (require_context request >>= λ c. check_role c.role operation >>= λ _. rest c) s
unfolding ◌>>=◌ present lift
IsForbidden-context request claims operation rest s h denied =
    (auth forbidden, refl, rw (h, authorize_denied claims.role operation denied) refl)

IsForbidden-answer :
    {A : Type 0} (respond : A → McpResponse) (call : Call BridgeState A) (s : BridgeState)
    → IsForbidden call s
    → IsForbidden (answer respond call) s
unfolding ◌>>=◌
IsForbidden-answer respond call s (e, status, h) =
    (e, status, ap (λ r. resume r (λ result. give (respond result))) h)

module _ (time : ℕ → ℕ) (id : ℕ → String) where
  update_thread_status-IsForbidden :
      (input : UpdateThreadStatusRequest) (request : Request) (claims : VerifiedAuthClaims)
      (s : BridgeState)
      → request.context ≡ some claims
      → authorize_operation claims.role (operation_of (update_thread_status input)) ≢ ok tt
      → IsForbidden (Threads.update_thread_status (memory time id) input request) s
  unfolding Threads.update_thread_status ◌>>=◌ present lift ensure
  update_thread_status-IsForbidden input request claims s h denied =
      elim (Bool-cases (not (Threads.is_forced_close claims.role input.status))) [
        | inl open_close ↦ (
          auth forbidden,
          refl,
          rw (h, open_close, authorize_denied claims.role thread_manage denied) refl,
        )
        | inr forced ↦ (is_forbidden, refl, rw (h, forced) refl)
      ]

  -- A token whose role may not do what a call does is refused with 403, whatever the call.
  pub handle-IsForbidden :
      (deep_equal : Option Json → Option Json → Bool) (settings : Settings) (call : McpCall)
      (request : Request) (claims : VerifiedAuthClaims) (s : BridgeState)
      → request.context ≡ some claims
      → authorize_operation claims.role (operation_of call) ≢ ok tt
      → IsForbidden (handle deep_equal (memory time id) settings call request) s
  unfolding handle Threads.create_thread Threads.get_thread Threads.summarize_thread
      Threads.heartbeat_session Triggers.trigger_participant Posting.post_message
      Reading.read_messages Reading.ack_read
  handle-IsForbidden deep_equal settings (create_thread input) request claims s h denied =
      IsForbidden-answer _ _ s (IsForbidden-context request claims _ _ s h denied)
  handle-IsForbidden deep_equal settings (get_thread thread_id) request claims s h denied =
      IsForbidden-answer _ _ s (IsForbidden-context request claims _ _ s h denied)
  handle-IsForbidden deep_equal settings (update_thread_status input) request claims s h denied =
      IsForbidden-answer _ _ s (update_thread_status-IsForbidden input request claims s h denied)
  handle-IsForbidden deep_equal settings (summarize_thread input) request claims s h denied =
      IsForbidden-answer _ _ s (IsForbidden-context request claims _ _ s h denied)
  handle-IsForbidden deep_equal settings (heartbeat_session input) request claims s h denied =
      IsForbidden-answer _ _ s (IsForbidden-context request claims _ _ s h denied)
  handle-IsForbidden deep_equal settings (trigger_participant input) request claims s h denied =
      IsForbidden-answer _ _ s (IsForbidden-context request claims _ _ s h denied)
  handle-IsForbidden deep_equal settings (post_message input) request claims s h denied =
      IsForbidden-answer _ _ s (IsForbidden-context request claims _ _ s h denied)
  handle-IsForbidden deep_equal settings (read_messages input) request claims s h denied =
      IsForbidden-answer _ _ s (IsForbidden-context request claims _ _ s h denied)
  handle-IsForbidden deep_equal settings (ack_read input) request claims s h denied =
      IsForbidden-answer _ _ s (IsForbidden-context request claims _ _ s h denied)
