-- ===== src/Bridge/Tests/Server.antt =====
-- The server at work: a participant asks for an agent to be woken, which only coordinators may.
use orkiva.Shared.{ℕ, String, none, some, [], ◌∷◌, false, Result, ok, ◌≡◌, refl, ◌>>=◌}
use orkiva.Auth.{Authorized, VerifiedAuthClaims, participant, authorize_operation}
use orkiva.Bridge.Errors.{Thrown}
use orkiva.Bridge.Requests.{AuditEvent, TriggerRequest}
use orkiva.Bridge.Dependencies.{default_settings}
use orkiva.Bridge.Memory.{BridgeState, memory}
use orkiva.Bridge.Handlers.{McpCall}
use orkiva.Bridge.Server.{HttpRequest, HttpResponse, parsed, parse_bearer_token, serve}
use orkiva.Bridge.Tests.{time, id, deep_equal, ada, begun}

abbrev a_participant : VerifiedAuthClaims
a_participant = record ada { role = participant }

abbrev verify : String → Authorized VerifiedAuthClaims
verify token = ok a_participant

abbrev a_wake : TriggerRequest
a_wake = record {
  thread_id = "t";
  target_agent_id = "bob";
  reason = "review";
  trigger_prompt = "look";
}

abbrev a_request : HttpRequest
a_request = record {
  id = "r1";
  verb = "POST";
  url = "/v1/mcp/trigger_participant";
  method_param = some "trigger_participant";
  authorization = some "Bearer abc";
  body = record { thread_id = some "t"; workspace_id = none };
  payload = parsed (McpCall.trigger_participant a_wake);
}

abbrev verified : Authorized VerifiedAuthClaims
verified = parse_bearer_token (some "Bearer abc") >>= verify

abbrev answer : Result Thrown HttpResponse × BridgeState
answer = serve (memory time id) deep_equal default_settings verify a_request begun

abbrev the_event : AuditEvent
the_event = record {
  workspace_id = "w";
  actor_agent_id = some "ada";
  actor_role = some participant;
  operation = "mcp.trigger_participant";
  resource_type = "thread";
  resource_id = "t";
  thread_id = some "t";
  request_id = "r1";
  is_success = false;
  created_at = 1001;
}

-- The refusal is audited.
denied_audit : answer.1.audit ≡ the_event ∷ []
unfolding serve parse_bearer_token memory orkiva.Bridge.Server.on_error
    orkiva.Bridge.Handlers.handle orkiva.Bridge.Handlers.Triggers.trigger_participant
    orkiva.Shared.Actions.◌>>=◌ orkiva.Shared.Actions.catching orkiva.Auth.authorize_operation
    orkiva.Shared.is_empty orkiva.Shared.trim orkiva.Shared.starts_with
denied_audit = refl
