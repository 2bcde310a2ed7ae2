-- ===== src/Domain/Session.antt =====
-- packages/domain/src/session.ts: the runtime session of an agent in a workspace.
pub mod Heartbeats
pub mod Lookup
mod Tests
use orkiva.Shared.{
  ℕ, ◌+◌, ◌*◌, Bool, true, false, String, Option, none, some, List, [], ◌∷◌, Result, ok, err, ◌>>=◌,
  ◌>>◌, guard, any, filter, str_eq, ltb, leb, or_else, if◌then◌else◌, ◌&&◌,
}
use orkiva.Shared.Sorting.{sort}
use orkiva.Domain.Errors.{
  Checked, Date, at, Number, require_date, require_non_empty_string, require_positive_integer,
  invalid_argument, session_scope_mismatch,
}

pub data ManagementMode : Type 0 where
  managed unmanaged : ManagementMode

pub data SessionStatus : Type 0 where
  active idle offline : SessionStatus

abbrev pub same_mode : ManagementMode → ManagementMode → Bool
same_mode managed managed = true
same_mode unmanaged unmanaged = true
same_mode _ _ = false

abbrev pub same_session_status : SessionStatus → SessionStatus → Bool
same_session_status active active = true
same_session_status idle idle = true
same_session_status offline offline = true
same_session_status _ _ = false

pub record SessionRecord : Type 0 where
  pub agent_id : String
  pub workspace_id : String
  pub session_id : String
  pub runtime : String
  pub management_mode : ManagementMode
  pub resumable : Bool
  pub status : SessionStatus
  pub last_heartbeat_at : ℕ
  pub updated_at : ℕ

pub record SessionHeartbeatInput : Type 0 where
  pub agent_id : String
  pub workspace_id : String
  pub session_id : String
  pub runtime : String
  pub management_mode : ManagementMode
  pub resumable : Bool
  pub status : SessionStatus
  pub heartbeat_at : Option Date

pub record SessionLookupInput : Type 0 where
  pub agent_id : String
  pub workspace_id : String
  pub stale_after_hours : Number
  pub reference_time : Option Date

abbrev pub management_modes : List ManagementMode
management_modes = managed ∷ unmanaged ∷ []

abbrev pub session_statuses : List SessionStatus
session_statuses = active ∷ idle ∷ offline ∷ []

unfoldable pub require_management_mode : ManagementMode → Checked ManagementMode
require_management_mode value =
    if any (same_mode value) management_modes then ok value else err invalid_argument

unfoldable pub require_session_status : SessionStatus → Checked SessionStatus
require_session_status value =
    if any (same_session_status value) session_statuses then ok value else err invalid_argument

unfoldable pub create_session_from_heartbeat : ℕ → SessionHeartbeatInput → Checked SessionRecord
unfolding require_management_mode require_session_status
create_session_from_heartbeat now input = do
  heartbeat_at ← require_date (or_else input.heartbeat_at (at now))
  agent_id ← require_non_empty_string input.agent_id
  workspace_id ← require_non_empty_string input.workspace_id
  session_id ← require_non_empty_string input.session_id
  runtime ← require_non_empty_string input.runtime
  management_mode ← require_management_mode input.management_mode
  status ← require_session_status input.status
  ok (record {
    agent_id = agent_id;
    workspace_id = workspace_id;
    session_id = session_id;
    runtime = runtime;
    management_mode = management_mode;
    resumable = input.resumable;
    status = status;
    last_heartbeat_at = heartbeat_at;
    updated_at = heartbeat_at;
  })

-- The part of `applySessionHeartbeat` for a record that exists.
unfoldable pub update_session : ℕ → SessionRecord → SessionHeartbeatInput → Checked SessionRecord
unfolding require_management_mode require_session_status
update_session now existing heartbeat = do
  heartbeat_at ← require_date (or_else heartbeat.heartbeat_at (at now))
  guard
      (str_eq existing.agent_id heartbeat.agent_id
        && str_eq existing.workspace_id heartbeat.workspace_id)
      session_scope_mismatch
  let updated = do
    session_id ← require_non_empty_string heartbeat.session_id
    runtime ← require_non_empty_string heartbeat.runtime
    management_mode ← require_management_mode heartbeat.management_mode
    status ← require_session_status heartbeat.status
    ok (record existing {
      session_id = session_id;
      runtime = runtime;
      management_mode = management_mode;
      resumable = heartbeat.resumable;
      status = status;
      last_heartbeat_at = heartbeat_at;
      updated_at = heartbeat_at;
    })
  if leb heartbeat_at existing.last_heartbeat_at then ok existing else updated

unfoldable pub apply_session_heartbeat :
    ℕ → Option SessionRecord → SessionHeartbeatInput → Checked SessionRecord
unfolding update_session create_session_from_heartbeat
apply_session_heartbeat now none heartbeat = create_session_from_heartbeat now heartbeat
apply_session_heartbeat now (some existing) heartbeat = update_session now existing heartbeat

-- `reference - last > stale` with the subtraction moved to the other side.
unfoldable pub is_session_stale : SessionRecord → Number → Date → Checked Bool
unfolding require_positive_integer require_date
is_session_stale session stale_after_hours reference_time = do
  hours ← require_positive_integer stale_after_hours
  reference ← require_date reference_time
  ok (ltb (session.last_heartbeat_at + hours * 60 * 60 * 1000) reference)

-- The loop over the candidates, latest first.
unfoldable pub first_fresh : Number → Date → List SessionRecord → Checked (Option SessionRecord)
first_fresh hours reference [] = ok none
first_fresh hours reference (candidate ∷ rest) =
    let later = first_fresh hours reference rest in
    do
      stale ← is_session_stale candidate hours reference
      if stale then later else ok (some candidate)

-- The comparator `right.lastHeartbeatAt - left.lastHeartbeatAt`.
abbrev pub beats_later : SessionRecord → SessionRecord → Bool
beats_later a b = ltb b.last_heartbeat_at a.last_heartbeat_at

unfoldable pub find_latest_resumable_session :
    ℕ → List SessionRecord → SessionLookupInput → Checked (Option SessionRecord)
unfolding first_fresh sort
find_latest_resumable_session now sessions lookup = do
  agent_id ← require_non_empty_string lookup.agent_id
  workspace_id ← require_non_empty_string lookup.workspace_id
  reference ← require_date (or_else lookup.reference_time (at now))
  let matches = λ (s : SessionRecord).
      str_eq s.agent_id agent_id && str_eq s.workspace_id workspace_id && s.resumable
  first_fresh lookup.stale_after_hours (at reference) (sort beats_later (filter matches sessions))
