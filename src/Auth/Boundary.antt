-- ===== src/Auth/Boundary.antt =====
-- What the checks of packages/auth/src let pass.
use orkiva.Shared.{
  ℕ, ◌<◌, ap, ◌∙◌, >>=-eq-ok, false, String, Option, none, some, ok, str_eq_iff, is_empty, trim,
  ◌≡◌, ◌≢◌, ◌↔◌, ◌⊎◌, refl, inl, inr, arith,
}
use orkiva.Auth.{
  AuthRole, participant, coordinator, auditor, AuthOperation, thread_manage, message_write,
  audit_read, VerifiedAuthClaims, JwtPayload, Claim, text, number, PayloadIdentityHints, role_text,
  authorize_operation, map_verified_claims, assert_payload_identity_matches_claims,
  assert_workspace_boundary, assert_hint_match, require_string_claim, require_role_claim,
  require_numeric_claim, role_named,
}

-- A role may do an operation exactly when it is the coordinator, or the operation is not managing
-- threads, and an auditor does not write messages, and a participant does not read the audit.
pub authorize_operation_iff :
    (role : AuthRole) (operation : AuthOperation)
    → (authorize_operation role operation ≡ ok tt) ↔ (
        (role ≡ coordinator)
        ⊎ ((operation ≢ thread_manage)
            × ((role ≡ auditor) × (operation ≢ message_write)
                ⊎ (role ≡ participant) × (operation ≢ audit_read))))
unfolding authorize_operation
authorize_operation_iff role operation = ground arith

-- A request for a workspace passes exactly when the workspace is the token's, and is not blank.
pub assert_workspace_boundary_iff :
    (claims : VerifiedAuthClaims) (workspace_id : String)
    → (assert_workspace_boundary claims workspace_id ≡ ok tt)
      ↔ ((claims.workspace_id ≡ workspace_id) × (is_empty (trim workspace_id) ≡ false))
unfolding assert_workspace_boundary
assert_workspace_boundary_iff claims workspace_id =
    ground (arith, str_eq_iff claims.workspace_id workspace_id)

abbrev pub Agrees : Option String → String → Type 0
Agrees hint value = (hint ≡ none) ⊎ (hint ≡ some value)

Agrees-of_assert_hint_match :
    (hint : Option String) (value : String) {u : Unit {0}}
    → assert_hint_match hint value ≡ ok u
    → Agrees hint value
Agrees-of_assert_hint_match none value h = inl refl
Agrees-of_assert_hint_match (some hint) value h = inr (ground (arith, str_eq_iff hint value))

assert_hint_match_of_Agrees :
    (hint : Option String) (value : String)
    → Agrees hint value
    → assert_hint_match hint value ≡ ok tt
assert_hint_match_of_Agrees none value h = refl
assert_hint_match_of_Agrees (some hint) value h = ground (arith, str_eq_iff hint value)

-- What a payload says of its sender passes exactly when each of the four is left out or equals
-- the token's claim.
pub assert_payload_identity_iff :
    (claims : VerifiedAuthClaims) (hints : PayloadIdentityHints)
    → (assert_payload_identity_matches_claims claims hints ≡ ok tt) ↔ (
        Agrees hints.agent_id claims.agent_id
        × Agrees hints.workspace_id claims.workspace_id
        × Agrees hints.role (role_text claims.role)
        × Agrees hints.session_id claims.session_id)
unfolding assert_payload_identity_matches_claims
assert_payload_identity_iff claims hints = (
  (λ h.
      let (_, agent, h1) = >>=-eq-ok (assert_hint_match hints.agent_id claims.agent_id) _ h in
      let (_, workspace, h2) =
        >>=-eq-ok (assert_hint_match hints.workspace_id claims.workspace_id) _ h1 in
      let (_, role, session) =
        >>=-eq-ok (assert_hint_match hints.role (role_text claims.role)) _ h2 in
      (
        Agrees-of_assert_hint_match hints.agent_id claims.agent_id agent,
        Agrees-of_assert_hint_match hints.workspace_id claims.workspace_id workspace,
        Agrees-of_assert_hint_match hints.role (role_text claims.role) role,
        Agrees-of_assert_hint_match hints.session_id claims.session_id session,
      )),
  (λ (agent, workspace, role, session).
      rw
        (
          assert_hint_match_of_Agrees hints.agent_id claims.agent_id agent,
          assert_hint_match_of_Agrees hints.workspace_id claims.workspace_id workspace,
          assert_hint_match_of_Agrees hints.role (role_text claims.role) role,
        )
        (assert_hint_match_of_Agrees hints.session_id claims.session_id session)),
)

-- A claim that stands in the payload, not blank.
abbrev pub IsClaim : Claim → String → Type 0
IsClaim claim value = (claim ≡ text value) × (is_empty (trim value) ≡ false)

IsClaim-of_require_string_claim :
    (claim : Claim) {value : String} → require_string_claim claim ≡ ok value → IsClaim claim value
IsClaim-of_require_string_claim claim h = ground arith

role_named_lem :
    (name : String) {role : AuthRole} → role_named name ≡ ok role → name ≡ role_text role
role_named_lem name {role} h =
    ground (
      arith,
      str_eq_iff name "participant",
      str_eq_iff name "coordinator",
      str_eq_iff name "auditor",
    )

-- A claim that stands in the payload as a positive whole number.
abbrev pub IsMoment : Claim → ℕ → Type 0
IsMoment claim value = (claim ≡ number value) × (0 < value)

IsMoment-of_require_numeric_claim :
    (claim : Claim) {value : ℕ} → require_numeric_claim claim ≡ ok value → IsMoment claim value
IsMoment-of_require_numeric_claim claim h = ground arith

-- Where claims are made of a payload, each of the seven is that of the payload: the agent, the
-- workspace, the session and the token's id are its texts as they stand, none of them blank, the
-- role is the one that its text names, and the two times are its numbers, which are positive.
pub map_verified_claims_requires :
    (payload : JwtPayload) {claims : VerifiedAuthClaims}
    → map_verified_claims payload ≡ ok claims
    → IsClaim payload.agent_id claims.agent_id
      × IsClaim payload.workspace_id claims.workspace_id
      × IsClaim payload.session_id claims.session_id
      × IsClaim payload.jti claims.jwt_id
      × IsMoment payload.iat claims.issued_at
      × IsMoment payload.exp claims.expires_at
      × (payload.role ≡ text (role_text claims.role))
unfolding map_verified_claims
map_verified_claims_requires payload {claims} h =
    let (agent, a, h1) = >>=-eq-ok (require_string_claim payload.agent_id) _ h in
    let (workspace, w, h2) = >>=-eq-ok (require_string_claim payload.workspace_id) _ h1 in
    let (role, r, h3) = >>=-eq-ok (require_role_claim payload.role) _ h2 in
    let (session, s, h4) = >>=-eq-ok (require_string_claim payload.session_id) _ h3 in
    let (jwt, j, h5) = >>=-eq-ok (require_string_claim payload.jti) _ h4 in
    let (issued, i, h6) = >>=-eq-ok (require_numeric_claim payload.iat) _ h5 in
    let (expires, e, h7) = >>=-eq-ok (require_numeric_claim payload.exp) _ h6 in
    let (name, n, named) = >>=-eq-ok (require_string_claim payload.role) _ r in
    let agent_same : agent ≡ claims.agent_id = cc h7 in
    let workspace_same : workspace ≡ claims.workspace_id = cc h7 in
    let session_same : session ≡ claims.session_id = cc h7 in
    let jwt_same : jwt ≡ claims.jwt_id = cc h7 in
    let issued_same : issued ≡ claims.issued_at = cc h7 in
    let expires_same : expires ≡ claims.expires_at = cc h7 in
    let role_same : role ≡ claims.role = cc h7 in
    (
      rw (← agent_same) (IsClaim-of_require_string_claim payload.agent_id a),
      rw (← workspace_same) (IsClaim-of_require_string_claim payload.workspace_id w),
      rw (← session_same) (IsClaim-of_require_string_claim payload.session_id s),
      rw (← jwt_same) (IsClaim-of_require_string_claim payload.jti j),
      rw (← issued_same) (IsMoment-of_require_numeric_claim payload.iat i),
      rw (← expires_same) (IsMoment-of_require_numeric_claim payload.exp e),
      rw (← role_same) (
          (IsClaim-of_require_string_claim payload.role n).0 ∙ ap text (role_named_lem name named)),
    )
