-- ===== src/Bridge/Server.antt =====
-- The server around the handlers in apps/bridge-api/src/app.ts: the bearer token of a request, the
-- route `/v1/mcp/:method`, and the error handler, which audits what was refused. Headers of
-- responses, logs and metrics are left out.

pub mod Denials
use Prim.Native.Char.{code}
use Prim.Native.String
use Prim.Native.String.{[], ◌∷◌}
use orkiva.Shared.{
  ℕ, Bool, false, String, Option, none, some, ok, err, ◌>>=◌, ◌==◌, str_eq, starts_with, is_empty,
  trim, or_else, if◌then◌else◌, ◌||◌,
}
use orkiva.Shared.Actions
use orkiva.Shared.Actions.{give, throw, catching}
use orkiva.Auth.{AuthErrorCode, Authorized, VerifiedAuthClaims}
use orkiva.Domain.Message.{Json}
use orkiva.Bridge.Errors.{ProtocolErrorCode, Thrown, auth, issues, map_unknown_error, is_missing}
use orkiva.Bridge.Requests.{AuditEvent, Request}
use orkiva.Bridge.Dependencies.{Call, Dependencies, Settings, write_audit_event}
use orkiva.Bridge.Handlers.{McpCall, McpResponse, handle}

-- The two fields of a JSON body that the error handler looks for, where they are texts.
pub record Body : Type 0 where
  pub thread_id : Option String
  pub workspace_id : Option String

-- What the route makes of its method and body: no method of that name, a body that its schema
-- refuses, or a call.
pub data Payload : Type 0 where
  unknown_method unparsed : Payload
  parsed : McpCall → Payload

pub record HttpRequest : Type 0 where
  pub id : String
  pub verb : String
  pub url : String
  pub method_param : Option String
  pub authorization : Option String
  pub body : Body
  pub payload : Payload

pub record ErrorResponse : Type 0 where
  pub code : ProtocolErrorCode
  pub status_code : ℕ
  pub request_id : String
  pub occurred_at : ℕ

pub data HttpResponse : Type 0 where
  answered : McpResponse → HttpResponse
  failed : ErrorResponse → HttpResponse

-- `text.split(" ", 2)`: the text before the first space, and that between it and the next.
unfoldable pub until_space : String → String
until_space [] = []
until_space (c ∷ s) = let rest = until_space s in if code c == 32 then [] else c ∷ rest

unfoldable pub second_piece : String → Option String
unfolding until_space
second_piece [] = none
second_piece (c ∷ s) =
    let rest = second_piece s in if code c == 32 then some (until_space s) else rest

abbrev pub token_of : Option String → Authorized String
token_of none = err AuthErrorCode.unauthorized
token_of (some token) = if is_empty (trim token) then err AuthErrorCode.unauthorized else ok token

unfoldable pub parse_bearer_token : Option String → Authorized String
unfolding until_space second_piece
parse_bearer_token none = err AuthErrorCode.unauthorized
parse_bearer_token (some header) =
    if str_eq (until_space header) "Bearer"
    then token_of (second_piece header)
    else err AuthErrorCode.unauthorized

abbrev pub text_given : Option String → Option String
text_given none = none
text_given (some text) = if is_empty (trim text) then none else some text

-- There is no body yet where the token is refused.
abbrev pub extract_thread_id_from_body : Option Body → Option String
extract_thread_id_from_body none = none
extract_thread_id_from_body (some body) = text_given body.thread_id

abbrev pub extract_workspace_id_from_body : Option Body → Option String
extract_workspace_id_from_body none = none
extract_workspace_id_from_body (some body) = text_given body.workspace_id

abbrev pub route_name : HttpRequest → String
route_name request = String.◌++◌ request.verb (String.◌++◌ " " request.url)

abbrev pub derive_operation_name : HttpRequest → String
derive_operation_name request =
    if starts_with request.url "/v1/mcp/"
    then elim (text_given request.method_param) [
      | none ↦ route_name request
      | some method ↦ String.◌++◌ "mcp." method
    ]
    else route_name request

-- The event that the error handler writes, with what is known of the sender.
abbrev pub rejected_event : HttpRequest → Option Body → Option VerifiedAuthClaims → ℕ → AuditEvent
rejected_event request body context now =
    let thread_id = extract_thread_id_from_body body in
    record {
      workspace_id = elim context [
        | none ↦ or_else (extract_workspace_id_from_body body) "unknown"
        | some claims ↦ claims.workspace_id
      ];
      actor_agent_id = elim context [ none ↦ none | some claims ↦ some claims.agent_id ];
      actor_role = elim context [ none ↦ none | some claims ↦ some claims.role ];
      operation = derive_operation_name request;
      resource_type = elim thread_id [ none ↦ "request" | some id ↦ "thread" ];
      resource_id = or_else thread_id request.url;
      thread_id = thread_id;
      request_id = request.id;
      is_success = false;
      created_at = now;
    }

abbrev pub is_denial : ℕ → Bool
is_denial status_code = status_code == 401 || status_code == 403

module _ {S : Type 0} (d : Dependencies S) where
  abbrev pub audit_denial :
      HttpRequest → Option Body → Option VerifiedAuthClaims → Call S (Unit {0})
  audit_denial request body context =
      Actions.◌>>=◌ d.now λ now. write_audit_event d (rejected_event request body context now)

  -- `setErrorHandler`
  unfoldable pub on_error :
      HttpRequest → Option Body → Option VerifiedAuthClaims → Thrown → Call S HttpResponse
  on_error request body context error =
      let mapped = map_unknown_error error in
      let audited = audit_denial request body context in
      Actions.◌>>=◌ (if is_denial mapped.status_code then audited else give tt) λ _.
        Actions.◌>>=◌ d.now λ now. give (
          failed (record {
            code = mapped.code;
            status_code = mapped.status_code;
            request_id = request.id;
            occurred_at = now;
          }))

  -- The route's handler.
  abbrev pub call_method :
      (Option Json → Option Json → Bool) → Settings → Payload → Request → Call S McpResponse
  call_method deep_equal settings unknown_method request = throw is_missing
  call_method deep_equal settings unparsed request = throw issues
  call_method deep_equal settings (parsed call) request = handle deep_equal d settings call request

  -- A request of the route, from the `onRequest` hook to its answer.
  unfoldable pub serve :
      (Option Json → Option Json → Bool)
      → Settings
      → (String → Authorized VerifiedAuthClaims)
      → HttpRequest
      → Call S HttpResponse
  serve deep_equal settings verify_access_token request =
      let verified = parse_bearer_token request.authorization >>= verify_access_token in
      Actions.◌>>=◌ d.now λ received. elim verified [
        | err code ↦ on_error request none none (auth code)
        | ok claims ↦
            catching
              (Actions.◌>>=◌
                (call_method deep_equal settings request.payload
                  (record { id = request.id; context = some claims }))
                λ response. give (answered response))
              (on_error request (some request.body) (some claims))
      ]
