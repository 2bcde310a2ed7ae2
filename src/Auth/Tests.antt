-- ===== src/Auth/Tests.antt =====
-- Tokens at work.
use orkiva.Shared.{none, some, ok, ◌≡◌, ◌≢◌, ◌↔◌, ◌⊎◌, refl, is_empty, trim}
use orkiva.Auth.{
  participant, coordinator, auditor, message_write, thread_manage, audit_read, VerifiedAuthClaims,
  JwtPayload, text, number, PayloadIdentityHints, authorize_operation, map_verified_claims,
  assert_payload_identity_matches_claims,
}
use orkiva.Auth.Boundary.{
  Agrees, IsClaim, IsMoment, authorize_operation_iff, assert_payload_identity_iff,
  map_verified_claims_requires,
}

authorize_operation_iff_example : (authorize_operation auditor message_write ≡ ok tt) ↔ (
    (auditor ≡ coordinator)
    ⊎ ((message_write ≢ thread_manage)
        × ((auditor ≡ auditor) × (message_write ≢ message_write)
            ⊎ (auditor ≡ participant) × (message_write ≢ audit_read))))
authorize_operation_iff_example = authorize_operation_iff auditor message_write

abbrev ada : VerifiedAuthClaims
ada = record {
  agent_id = "ada";
  workspace_id = "w";
  role = participant;
  session_id = "s";
  issued_at = 1;
  expires_at = 9;
  jwt_id = "j";
}

abbrev hints : PayloadIdentityHints
hints = record { agent_id = some "ada"; workspace_id = none; role = none; session_id = some "s2" }

assert_payload_identity_iff_example : (assert_payload_identity_matches_claims ada hints ≡ ok tt) ↔ (
    Agrees (some "ada") "ada"
    × Agrees none "w"
    × Agrees none "participant"
    × Agrees (some "s2") "s")
assert_payload_identity_iff_example = assert_payload_identity_iff ada hints

abbrev a_token : JwtPayload
a_token = record {
  agent_id = text "ada";
  workspace_id = text "w";
  role = text "participant";
  session_id = text "s";
  jti = text "j";
  iat = number 1;
  exp = number 9;
}

map_verified_claims_requires_example :
    IsClaim (text "ada") "ada"
    × IsClaim (text "w") "w"
    × IsClaim (text "s") "s"
    × IsClaim (text "j") "j"
    × IsMoment (number 1) 1
    × IsMoment (number 9) 9
    × (text "participant" ≡ text "participant")
unfolding map_verified_claims is_empty trim
map_verified_claims_requires_example = map_verified_claims_requires a_token {claims = ada} refl
