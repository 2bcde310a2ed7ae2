-- ===== src/Auth.antt =====
-- packages/auth/src: the claims of a token, the roles, and the checks of a request against them.
-- A thrown `AuthError` is its code. The verification of a token is a library's; what it hands over
-- is the payload, in which a claim is a text, a number or something else.
pub mod Boundary
mod Tests
use orkiva.Shared.{
  ℕ, zero, suc, Bool, true, false, String, Option, none, some, List, [], ◌∷◌, Result, ok, err,
  ◌>>=◌, ◌>>◌, guard, any, str_eq, is_empty, trim, if◌then◌else◌, not, or_else,
}

pub data AuthErrorCode : Type 0 where
  unauthorized forbidden invalid_argument invalid_claims claim_mismatch workspace_mismatch :
      AuthErrorCode

abbrev pub Authorized : Type 0 → Type 0
Authorized A = Result AuthErrorCode A

pub data AuthRole : Type 0 where
  participant coordinator auditor : AuthRole

abbrev pub same_role : AuthRole → AuthRole → Bool
same_role participant participant = true
same_role coordinator coordinator = true
same_role auditor auditor = true
same_role _ _ = false

pub data AuthOperation : Type 0 where
  thread_read thread_manage message_read message_write session_heartbeat audit_read : AuthOperation

-- `operationAllowedRoles`
abbrev pub operation_allowed_roles : AuthOperation → List AuthRole
operation_allowed_roles thread_read = participant ∷ coordinator ∷ auditor ∷ []
operation_allowed_roles thread_manage = coordinator ∷ []
operation_allowed_roles message_read = participant ∷ coordinator ∷ auditor ∷ []
operation_allowed_roles message_write = participant ∷ coordinator ∷ []
operation_allowed_roles session_heartbeat = participant ∷ coordinator ∷ auditor ∷ []
operation_allowed_roles audit_read = coordinator ∷ auditor ∷ []

abbrev pub is_role_allowed : AuthRole → List AuthRole → Bool
is_role_allowed role allowed = any (same_role role) allowed

abbrev pub assert_role_allowed : AuthRole → List AuthRole → Authorized (Unit {0})
assert_role_allowed role allowed = if is_role_allowed role allowed then ok tt else err forbidden

unfoldable pub authorize_operation : AuthRole → AuthOperation → Authorized (Unit {0})
authorize_operation role operation = assert_role_allowed role (operation_allowed_roles operation)

-- The `raw` payload, which no code reads back, is left out. Numbers are whole.
pub record VerifiedAuthClaims : Type 0 where
  pub agent_id : String
  pub workspace_id : String
  pub role : AuthRole
  pub session_id : String
  pub issued_at : ℕ
  pub expires_at : ℕ
  pub jwt_id : String

-- A claim of the payload: `missing` is undefined, and `other` has another type, or is a number
-- that is not finite.
pub data Claim : Type 0 where
  text : String → Claim
  number : ℕ → Claim
  negative other missing : Claim

pub record JwtPayload : Type 0 where
  pub agent_id : Claim
  pub workspace_id : Claim
  pub role : Claim
  pub session_id : Claim
  pub jti : Claim
  pub iat : Claim
  pub exp : Claim

abbrev pub require_string_claim : Claim → Authorized String
require_string_claim (text value) = if is_empty (trim value) then err invalid_claims else ok value
require_string_claim _ = err invalid_claims

-- With the minimum 1 that both callers give.
abbrev pub require_numeric_claim : Claim → Authorized ℕ
require_numeric_claim (number zero) = err invalid_claims
require_numeric_claim (number (suc n)) = ok (suc n)
require_numeric_claim _ = err invalid_claims

abbrev pub role_named : String → Authorized AuthRole
role_named name =
    if str_eq name "participant"
    then ok participant
    else if str_eq name "coordinator"
    then ok coordinator
    else if str_eq name "auditor"
    then ok auditor
    else err invalid_claims

abbrev pub require_role_claim : Claim → Authorized AuthRole
require_role_claim claim = require_string_claim claim >>= λ (name : String). role_named name

unfoldable pub map_verified_claims : JwtPayload → Authorized VerifiedAuthClaims
map_verified_claims payload = do
  agent_id ← require_string_claim payload.agent_id
  workspace_id ← require_string_claim payload.workspace_id
  role ← require_role_claim payload.role
  session_id ← require_string_claim payload.session_id
  jwt_id ← require_string_claim payload.jti
  issued_at ← require_numeric_claim payload.iat
  expires_at ← require_numeric_claim payload.exp
  ok (record {
    agent_id = agent_id;
    workspace_id = workspace_id;
    role = role;
    session_id = session_id;
    issued_at = issued_at;
    expires_at = expires_at;
    jwt_id = jwt_id;
  })

abbrev pub role_text : AuthRole → String
role_text participant = "participant"
role_text coordinator = "coordinator"
role_text auditor = "auditor"

pub record PayloadIdentityHints : Type 0 where
  pub agent_id : Option String
  pub workspace_id : Option String
  pub role : Option String
  pub session_id : Option String

abbrev pub assert_hint_match : Option String → String → Authorized (Unit {0})
assert_hint_match none claim = ok tt
assert_hint_match (some hint) claim = if str_eq hint claim then ok tt else err claim_mismatch

unfoldable pub assert_payload_identity_matches_claims :
    VerifiedAuthClaims → PayloadIdentityHints → Authorized (Unit {0})
assert_payload_identity_matches_claims claims hints = do
  assert_hint_match hints.agent_id claims.agent_id
  assert_hint_match hints.workspace_id claims.workspace_id
  assert_hint_match hints.role (role_text claims.role)
  assert_hint_match hints.session_id claims.session_id

unfoldable pub assert_workspace_boundary : VerifiedAuthClaims → String → Authorized (Unit {0})
assert_workspace_boundary claims target_workspace_id = do
  guard (not (is_empty (trim target_workspace_id))) invalid_argument
  guard (str_eq claims.workspace_id target_workspace_id) workspace_mismatch
