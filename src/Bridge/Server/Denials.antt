-- ===== src/Bridge/Server/Denials.antt =====
-- What a request that may not be done leaves behind in the server of apps/bridge-api/src/app.ts, over
-- the in-memory stores.
use orkiva.Shared.{ℕ, suc, false, Option, none, some, [], ◌∷◌, ◌++◌, Result, ok, ◌≡◌, ◌≢◌, ◌⊎◌}
use orkiva.Shared.Actions
use orkiva.Shared.Actions.{recover}
use orkiva.Auth.{VerifiedAuthClaims}
use orkiva.Bridge.Errors.{Thrown}
use orkiva.Bridge.Requests.{AuditEvent}
use orkiva.Bridge.Memory.{BridgeState}
use orkiva.Bridge.Handlers.{McpCall}
use orkiva.Bridge.Access.{IsAllowed}
use orkiva.Bridge.Server.{HttpRequest, parsed, HttpResponse, ErrorResponse, failed}

-- The sender and the workspace of an audit event are the token's, where there is one.
abbrev pub IsOf : Option VerifiedAuthClaims → AuditEvent → Type 0
IsOf none event = (event.actor_agent_id ≡ none) × (event.workspace_id ≡ "unknown")
IsOf (some claims) event =
    (event.actor_agent_id ≡ some claims.agent_id) × (event.workspace_id ≡ claims.workspace_id)

-- What is added to the audit: one event of a rejected request where the status is 401 or 403, and
-- nothing otherwise.
abbrev pub IsAudited :
    HttpRequest → Option VerifiedAuthClaims → ℕ → BridgeState → BridgeState → Type 0
IsAudited request context status_code s t =
    ((status_code ≡ 401) ⊎ (status_code ≡ 403)
      → (event : AuditEvent) × (t.audit ≡ s.audit ++ event ∷ [])
        × (event.is_success ≡ false)
        × (event.request_id ≡ request.id)
        × IsOf context event)
    × (status_code ≢ 401 → status_code ≢ 403 → t.audit ≡ s.audit)

-- The request is answered by an error, and only the audit and the clock have moved.
pub record IsTurnedAway (request : HttpRequest) (context : Option VerifiedAuthClaims)
    (s : BridgeState) (answer : Result Thrown HttpResponse × BridgeState) : Type 0 where
  pub response : ErrorResponse
  pub refused : answer.0 ≡ ok (failed response)
  pub named : response.request_id ≡ request.id
  pub threads : answer.1.threads ≡ s.threads
  pub sessions : answer.1.sessions ≡ s.sessions
  pub triggers : answer.1.triggers ≡ s.triggers
  pub ids : answer.1.ids ≡ s.ids
  pub audited : IsAudited request context response.status_code s answer.1

-- It is answered with the given status.
abbrev pub IsAnswered :
    HttpRequest
    → Option VerifiedAuthClaims
    → BridgeState
    → ℕ
    → Result Thrown HttpResponse × BridgeState
    → Type 0
IsAnswered request context s status_code answer =
    (t : IsTurnedAway request context s answer) × (t.response.status_code ≡ status_code)

-- A token that verifies, and a call that it allows.
pub record IsWelcome (claims : VerifiedAuthClaims) (request : HttpRequest) (s : BridgeState)
    : Type 0 where
  pub call : McpCall
  pub understood : request.payload ≡ parsed call
  pub allowed : IsAllowed s (record { id = request.id; context = some claims }) call

abbrev ticked : BridgeState → BridgeState
ticked s = record s { clock = suc s.clock }
