-- ===== src/Bridge/Errors.antt =====
-- The errors of apps/bridge-api/src/app.ts: what may be thrown, and the response that it becomes.
-- Messages and details are left out.
pub mod Responses
use orkiva.Shared.{ℕ, Bool, true, false, String, str_eq, ◌||◌, if◌then◌else◌}
use orkiva.Auth.{AuthErrorCode}
use orkiva.Domain.Errors.{DomainErrorCode}

pub data ProtocolErrorCode : Type 0 where
  unauthorized forbidden invalid_argument not_found conflict workspace_mismatch
        invalid_thread_transition idempotency_conflict rate_limited internal :
      ProtocolErrorCode

pub record BridgeApiError : Type 0 where
  pub code : ProtocolErrorCode
  pub status_code : ℕ

-- An error of the bridge, of a check of the token, of the domain, of the validation of a payload,
-- of a database with its code, or any other.
pub data Thrown : Type 0 where
  bridge : BridgeApiError → Thrown
  auth : AuthErrorCode → Thrown
  domain : DomainErrorCode → Thrown
  issues : Thrown
  database : String → Thrown
  unknown : Thrown

abbrev pub map_auth_error : AuthErrorCode → BridgeApiError
map_auth_error AuthErrorCode.unauthorized = record { code = unauthorized; status_code = 401 }
map_auth_error AuthErrorCode.invalid_claims = record { code = unauthorized; status_code = 401 }
map_auth_error AuthErrorCode.forbidden = record { code = forbidden; status_code = 403 }
map_auth_error AuthErrorCode.workspace_mismatch = record {
  code = workspace_mismatch;
  status_code = 403;
}
map_auth_error AuthErrorCode.claim_mismatch = record { code = forbidden; status_code = 403 }
map_auth_error AuthErrorCode.invalid_argument = record {
  code = invalid_argument;
  status_code = 400;
}

abbrev pub map_domain_error : DomainErrorCode → BridgeApiError
map_domain_error DomainErrorCode.invalid_thread_transition = record {
  code = invalid_thread_transition;
  status_code = 409;
}
map_domain_error DomainErrorCode.invalid_argument = record {
  code = invalid_argument;
  status_code = 400;
}
map_domain_error _ = record { code = conflict; status_code = 409 }

abbrev pub map_unknown_error : Thrown → BridgeApiError
map_unknown_error (bridge error) = error
map_unknown_error (auth code) = map_auth_error code
map_unknown_error (domain code) = map_domain_error code
map_unknown_error issues = record { code = invalid_argument; status_code = 400 }
map_unknown_error (database code) =
    if str_eq code "23505" || str_eq code "40001"
    then record { code = conflict; status_code = 409 }
    else record { code = internal; status_code = 500 }
map_unknown_error unknown = record { code = internal; status_code = 500 }

-- The errors that the handlers throw themselves.
abbrev pub is_missing : Thrown
is_missing = bridge (record { code = not_found; status_code = 404 })

abbrev pub is_forbidden : Thrown
is_forbidden = bridge (record { code = forbidden; status_code = 403 })

abbrev pub is_invalid : Thrown
is_invalid = bridge (record { code = invalid_argument; status_code = 400 })

abbrev pub is_conflict : Thrown
is_conflict = bridge (record { code = conflict; status_code = 409 })

abbrev pub is_reused : Thrown
is_reused = bridge (record { code = idempotency_conflict; status_code = 409 })
