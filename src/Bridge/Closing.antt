-- ===== src/Bridge/Closing.antt =====
-- Who may change the status of a thread by `update_thread_status` of apps/bridge-api/src/app.ts.
use orkiva.Shared.{ℕ, true, String, some, ok, ◌≡◌, arith}
use orkiva.Shared.Actions.Refusals.{stepped_check, lift-Checks, present-Checks, ensure-Checks}
use orkiva.Auth.{VerifiedAuthClaims, coordinator, thread_manage, authorize_operation}
use orkiva.Domain.Thread.{Thread, blocked, closed}
use orkiva.Bridge.Errors.{auth}
use orkiva.Bridge.Requests.{Request, UpdateThreadStatusRequest, UpdateThreadStatusResponse}
use orkiva.Bridge.ThreadStore.{get_thread_by_id}
use orkiva.Bridge.Memory.{BridgeState, memory}
use orkiva.Bridge.Handlers.Threads.{update_thread_status, has_explicit_override_reason}
use orkiva.Bridge.Access.{require_thread-Checks, check_agent-Checks}

-- Who a request that changes a status comes from, and why it closes a blocked thread if it does.
pub record IsEntitled (input : UpdateThreadStatusRequest) (request : Request) (s : BridgeState)
    : Type 0 where
  pub claims : VerifiedAuthClaims
  pub authenticated : request.context ≡ some claims
  pub coordinates : claims.role ≡ coordinator
  pub existing : Thread
  pub found : get_thread_by_id input.thread_id s.threads ≡ some existing
  pub inside : existing.workspace_id ≡ claims.workspace_id
  pub override :
      existing.status ≡ blocked
      → input.status ≡ closed
      → has_explicit_override_reason input.reason ≡ true

-- A change of status that succeeds is a coordinator's, of a thread in the token's workspace; where
-- it closes a blocked thread, its reason begins with one of the override prefixes.
pub update_thread_status-IsEntitled :
    (time : ℕ → ℕ) (id : ℕ → String) (input : UpdateThreadStatusRequest) (request : Request)
    (s : BridgeState) {r : UpdateThreadStatusResponse} {t : BridgeState}
    → update_thread_status (memory time id) input request s ≡ (ok r, t)
    → IsEntitled input request s
unfolding update_thread_status authorize_operation
update_thread_status-IsEntitled time id input request s h =
    let (claims, authenticated, h1) = stepped_check _ _ s (present-Checks request.context _ s) h in
    let (_, _, h2) = stepped_check _ _ s (ensure-Checks _ _ s) h1 in
    let (_, permitted, h3) =
      stepped_check _ _ s (lift-Checks auth (authorize_operation claims.role thread_manage) s) h2 in
    let (_, _, h4) = stepped_check _ _ s (check_agent-Checks time id claims input.agent_id s) h3 in
    let (existing, (found, inside), h5) =
      stepped_check _ _ s (require_thread-Checks time id claims input.thread_id s) h4 in
    let (_, undisputed, _) = stepped_check _ _ s (ensure-Checks _ _ s) h5 in
    record {
      claims = claims;
      authenticated = authenticated;
      coordinates = ground (arith, permitted);
      existing = existing;
      found = found;
      inside = inside;
      override = λ was next. ground (arith, was, next, undisputed);
    }
