-- ===== src/Bridge/SessionStore.antt =====
-- `InMemorySessionStore` of apps/bridge-api/src/session-store.ts.
use Prim.Native.String
use orkiva.Shared.{ℕ, Bool, String, Option, none, some, ok, ◌>>=◌, or_else, if◌then◌else◌, not}
use orkiva.Shared.Dict.{Dict, get, set}
use orkiva.Domain.Errors.{Checked, at}
use orkiva.Domain.Session.{
  SessionRecord, SessionHeartbeatInput, SessionLookupInput, apply_session_heartbeat,
  is_session_stale,
}

abbrev pub SessionStore : Type 0
SessionStore = Dict SessionRecord

abbrev pub session_key : String → String → String
session_key agent_id workspace_id = String.◌++◌ agent_id (String.◌++◌ "::" workspace_id)

unfoldable pub heartbeat_session :
    ℕ → SessionHeartbeatInput → SessionStore → Checked (SessionRecord × SessionStore)
heartbeat_session now input sessions = do
  let key = session_key input.agent_id input.workspace_id
  updated ← apply_session_heartbeat now (get key sessions) input
  ok (updated, set key updated sessions)

unfoldable pub get_latest_resumable_session :
    ℕ → SessionLookupInput → SessionStore → Checked (Option SessionRecord)
get_latest_resumable_session now lookup sessions =
    elim (get (session_key lookup.agent_id lookup.workspace_id) sessions) [
      | none ↦ ok none
      | some existing ↦
          let answer : Checked (Option SessionRecord) =
            is_session_stale existing lookup.stale_after_hours
              (or_else lookup.reference_time (at now))
            >>= λ (stale : Bool). ok (if stale then none else some existing) in
          if not existing.resumable then ok none else answer
    ]

unfoldable pub get_session : String → String → SessionStore → Option SessionRecord
get_session agent_id workspace_id sessions = get (session_key agent_id workspace_id) sessions
