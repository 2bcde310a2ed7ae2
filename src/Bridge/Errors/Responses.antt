-- ===== src/Bridge/Errors/Responses.antt =====
-- The status codes of the bridge's error responses.
use orkiva.Shared.{◌≡◌, ◌⊎◌, ◌↔◌, arith, str_eq_iff}
use orkiva.Domain.Errors.{DomainErrorCode}
use orkiva.Bridge.Errors.{
  conflict, BridgeApiError, Thrown, auth, domain, issues, database, bridge, unknown,
  map_unknown_error,
}

-- What another writer causes, and nothing else but an error that says so itself, is a conflict:
-- a sequence number, a cursor or a session that has moved on, and a database's unique or
-- serialization failure.
pub map_unknown_error-conflict_iff :
    (e : Thrown)
    → ((map_unknown_error e).code ≡ conflict) ↔ (
        (e ≡ domain DomainErrorCode.sequence_violation)
        ⊎ (e ≡ domain DomainErrorCode.sequence_overflow)
        ⊎ (e ≡ domain DomainErrorCode.cursor_regression)
        ⊎ (e ≡ domain DomainErrorCode.session_scope_mismatch)
        ⊎ (e ≡ database "23505")
        ⊎ (e ≡ database "40001")
        ⊎ ((b : BridgeApiError) × (e ≡ bridge b) × (b.code ≡ conflict)))
map_unknown_error-conflict_iff (bridge b) = ground arith
map_unknown_error-conflict_iff (auth code) = ground arith
map_unknown_error-conflict_iff (domain code) = ground arith
map_unknown_error-conflict_iff issues = ground arith
map_unknown_error-conflict_iff (database code) =
    ground (arith, str_eq_iff code "23505", str_eq_iff code "40001")
map_unknown_error-conflict_iff unknown = ground arith
