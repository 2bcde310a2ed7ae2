-- ===== src/Domain/Session/Heartbeats.antt =====
-- The heartbeats of packages/domain/src/session.ts.
use orkiva.Shared.{
  ℕ, ◌<◌, String, none, some, ok, err, ◌>>=◌, ◌≡◌, ◌≢◌, ◌⊎◌, arith, trim, or_else, str_eq_iff, leb,
  >>=-eq-ok, if◌then◌else◌,
}
use orkiva.Domain.Errors.{at, require_date, require_non_empty_string, session_scope_mismatch}
use orkiva.Domain.Thread.Creation.{
  IsPresent, IsPresent_of_require_non_empty_string, require_non_empty_string_of_IsPresent,
}
use orkiva.Domain.Session.{
  SessionRecord, SessionHeartbeatInput, SessionStatus, ManagementMode, require_management_mode,
  require_session_status, update_session, create_session_from_heartbeat, apply_session_heartbeat,
}

-- A heartbeat that is taken leaves the record as it is, or moves it to the heartbeat's later
-- time; agent and workspace stay.
pub apply_session_heartbeat_forward :
    (now : ℕ) (s : SessionRecord) (h : SessionHeartbeatInput) {s' : SessionRecord}
    → apply_session_heartbeat now (some s) h ≡ ok s'
    → (s'.agent_id ≡ s.agent_id)
      × (s'.workspace_id ≡ s.workspace_id)
      × ((s' ≡ s)
          ⊎ ((s.last_heartbeat_at < s'.last_heartbeat_at)
              × (or_else h.heartbeat_at (at now) ≡ at s'.last_heartbeat_at)))
unfolding apply_session_heartbeat require_date
apply_session_heartbeat_forward now s h e = ground arith

-- A heartbeat at time `t` for the agent and workspace of a record, with nothing blank.
pub record IsBeat (now : ℕ) (agent_id workspace_id : String) (h : SessionHeartbeatInput) (t : ℕ)
    : Type 0 where
  pub dated : or_else h.heartbeat_at (at now) ≡ at t
  pub agent : agent_id ≡ h.agent_id
  pub workspace : workspace_id ≡ h.workspace_id
  pub session : IsPresent h.session_id
  pub runtime : IsPresent h.runtime

-- The record with what a heartbeat says.
abbrev pub refreshed : SessionRecord → SessionHeartbeatInput → ℕ → SessionRecord
refreshed s h t = record s {
  session_id = trim h.session_id;
  runtime = trim h.runtime;
  management_mode = h.management_mode;
  resumable = h.resumable;
  status = h.status;
  last_heartbeat_at = t;
  updated_at = t;
}

require_management_mode_ok : (m : ManagementMode) → require_management_mode m ≡ ok m
unfolding require_management_mode
require_management_mode_ok m = ground arith

require_session_status_ok : (s : SessionStatus) → require_session_status s ≡ ok s
unfolding require_session_status
require_session_status_ok s = ground arith

-- What a heartbeat for the record does: nothing when it is not later than the record, and
-- otherwise it replaces all but agent and workspace.
pub update_session_lem :
    (now : ℕ) (s : SessionRecord) (h : SessionHeartbeatInput) (t : ℕ)
    → IsBeat now s.agent_id s.workspace_id h t
    → update_session now s h ≡ ok (if leb t s.last_heartbeat_at then s else refreshed s h t)
unfolding update_session require_date
update_session_lem now s h t b = ground (
  arith,
  str_eq_iff s.agent_id h.agent_id,
  str_eq_iff s.workspace_id h.workspace_id,
  require_non_empty_string_of_IsPresent h.session_id b.session,
  require_non_empty_string_of_IsPresent h.runtime b.runtime,
  require_management_mode_ok h.management_mode,
  require_session_status_ok h.status,
)

-- Two heartbeats for a record, at different times and with nothing blank, leave it the same in
-- either order.
pub heartbeats_commute :
    (now : ℕ) (s : SessionRecord) (a b : SessionHeartbeatInput) (t u : ℕ)
    → IsBeat now s.agent_id s.workspace_id a t
    → IsBeat now s.agent_id s.workspace_id b u
    → t ≢ u
    → (update_session now s a >>= λ s'. update_session now s' b)
      ≡ (update_session now s b >>= λ s'. update_session now s' a)
heartbeats_commute now s a b t u p q apart = ground (
  arith,
  update_session_lem now s a t p,
  update_session_lem now s b u q,
  update_session_lem now (refreshed s a t) b u q,
  update_session_lem now (refreshed s b u) a t p,
)

agent_of_create :
    (now : ℕ) (h : SessionHeartbeatInput) {s : SessionRecord}
    → create_session_from_heartbeat now h ≡ ok s
    → s.agent_id ≡ trim h.agent_id
unfolding create_session_from_heartbeat
agent_of_create now h e =
    let (_, _, h₁) = >>=-eq-ok (require_date (or_else h.heartbeat_at (at now))) _ e in
    let (a, named, h₂) = >>=-eq-ok (require_non_empty_string h.agent_id) _ h₁ in
    let (_, _, h₃) = >>=-eq-ok (require_non_empty_string h.workspace_id) _ h₂ in
    let (_, _, h₄) = >>=-eq-ok (require_non_empty_string h.session_id) _ h₃ in
    let (_, _, h₅) = >>=-eq-ok (require_non_empty_string h.runtime) _ h₄ in
    let (_, _, h₆) = >>=-eq-ok (require_management_mode h.management_mode) _ h₅ in
    let (_, _, h₇) = >>=-eq-ok (require_session_status h.status) _ h₆ in
    let (_, same) = IsPresent_of_require_non_empty_string _ named in ground arith

-- An agent whose id has white space at an end can report once only: the first heartbeat stores
-- the trimmed id, and each later one with a valid date, which is compared untrimmed,
-- is refused.
pub untrimmed_agent_locked_out :
    (now later t : ℕ) (h h' : SessionHeartbeatInput) {s : SessionRecord}
    → trim h.agent_id ≢ h.agent_id
    → apply_session_heartbeat now none h ≡ ok s
    → h'.agent_id ≡ h.agent_id
    → or_else h'.heartbeat_at (at later) ≡ at t
    → apply_session_heartbeat later (some s) h' ≡ err session_scope_mismatch
unfolding apply_session_heartbeat require_date
untrimmed_agent_locked_out now later t h h' {s} apart first same dated =
    ground (arith, agent_of_create now h first, str_eq_iff s.agent_id h'.agent_id)
