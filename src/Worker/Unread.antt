-- ===== src/Worker/Unread.antt =====
-- apps/supervisor-worker/src/unread-reconciliation.ts: who has unread messages and is asleep.
pub mod Notices
pub mod Once
mod Tests
use Prim.Native.String
use orkiva.Shared.{
  ℕ, suc, ◌+◌, ◌-◌, Bool, true, false, String, Option, none, some, List, [], ◌∷◌, ◌++◌, Result, ok,
  err, ◌>>=◌, filter, length, str_eq, leb, or_else, if◌then◌else◌, not, ◌&&◌,
}
use orkiva.Shared.Dict.{Dict, get, set}
use orkiva.Domain.Errors.{Checked, DomainErrorCode, Date, at, Number}
use orkiva.Domain.Thread.{ThreadStatus, closed, same_status}
use orkiva.Domain.Session.{
  SessionRecord, SessionStatus, ManagementMode, active, same_session_status, is_session_stale,
}

pub record SessionSnapshot : Type 0 where
  pub session_id : String
  pub management_mode : ManagementMode
  pub resumable : Bool
  pub status : SessionStatus
  pub last_heartbeat_at : ℕ

pub record UnreadParticipantSnapshot : Type 0 where
  pub thread_id : String
  pub workspace_id : String
  pub thread_status : ThreadStatus
  pub participant_agent_id : String
  pub latest_seq : ℕ
  pub last_read_seq : ℕ
  pub session : Option SessionSnapshot

abbrev pub reconciliation_state_key : String → String → String
reconciliation_state_key thread_id agent_id = String.◌++◌ thread_id (String.◌++◌ "::" agent_id)

-- The state of `InMemoryUnreadReconciliationStateStore`: what was notified, and when.
pub record Notified : Type 0 where
  pub latest_seq : ℕ
  pub notified_at : ℕ

abbrev pub Notices : Type 0
Notices = Dict Notified

abbrev pub seq_of : Option Notified → Option ℕ
seq_of none = none
seq_of (some n) = some n.latest_seq

unfoldable pub get_last_notified_seq : String → String → Notices → Option ℕ
get_last_notified_seq thread_id agent_id state =
    seq_of (get (reconciliation_state_key thread_id agent_id) state)

unfoldable pub mark_notified : String → String → ℕ → ℕ → Notices → Notices
mark_notified thread_id agent_id latest_seq notified_at state =
    set (reconciliation_state_key thread_id agent_id)
      (record { latest_seq = latest_seq; notified_at = notified_at }) state

pub data CandidateStatus : Type 0 where
  missing : CandidateStatus
  known : SessionStatus → CandidateStatus

-- The constant `reason` is left out.
pub record UnreadReconciliationCandidate : Type 0 where
  pub thread_id : String
  pub workspace_id : String
  pub participant_agent_id : String
  pub unread_count : ℕ
  pub latest_seq : ℕ
  pub last_read_seq : ℕ
  pub session_status : CandidateStatus
  pub session_id : Option String
  pub management_mode : Option ManagementMode
  pub resumable : Option Bool
  pub stale_session : Bool

pub record Stats : Type 0 where
  pub participants_scanned : ℕ
  pub unread_participants : ℕ
  pub dormant_unread_participants : ℕ
  pub deduplicated_participants : ℕ

-- The record that is made of a snapshot to ask whether it is stale.
abbrev pub session_of : SessionSnapshot → SessionRecord
session_of s = record {
  agent_id = "n/a";
  workspace_id = "n/a";
  session_id = s.session_id;
  runtime = "n/a";
  management_mode = s.management_mode;
  resumable = s.resumable;
  status = s.status;
  last_heartbeat_at = s.last_heartbeat_at;
  updated_at = s.last_heartbeat_at;
}

unfoldable pub is_dormant_session : Option SessionSnapshot → Number → ℕ → Checked Bool
is_dormant_session none hours now = ok true
is_dormant_session (some s) hours now =
    if not (same_session_status s.status active)
    then ok true
    else is_session_stale (session_of s) hours (at now)

unfoldable pub is_stale_snapshot : Option SessionSnapshot → Number → ℕ → Checked Bool
is_stale_snapshot none hours now = ok false
is_stale_snapshot (some s) hours now = is_session_stale (session_of s) hours (at now)

abbrev pub status_of : Option SessionSnapshot → CandidateStatus
status_of none = missing
status_of (some s) = known s.status

abbrev pub of_session {ℓ} : {A : Type ℓ} → (SessionSnapshot → A) → Option SessionSnapshot → Option A
of_session f none = none
of_session f (some s) = some (f s)

abbrev pub candidate_of : UnreadParticipantSnapshot → Bool → UnreadReconciliationCandidate
candidate_of s stale = record {
  thread_id = s.thread_id;
  workspace_id = s.workspace_id;
  participant_agent_id = s.participant_agent_id;
  unread_count = s.latest_seq - s.last_read_seq;
  latest_seq = s.latest_seq;
  last_read_seq = s.last_read_seq;
  session_status = status_of s.session;
  session_id = of_session (λ (x : SessionSnapshot). x.session_id) s.session;
  management_mode = of_session (λ (x : SessionSnapshot). x.management_mode) s.session;
  resumable = of_session (λ (x : SessionSnapshot). x.resumable) s.session;
  stale_session = stale;
}

-- The variables of the loop of `reconcile`.
pub record Progress : Type 0 where
  pub candidates : List UnreadReconciliationCandidate
  pub unread : ℕ
  pub dormant : ℕ
  pub deduplicated : ℕ

abbrev pub start : Progress
start = record { candidates = []; unread = 0; dormant = 0; deduplicated = 0 }

-- `lastNotifiedSeq !== null && lastNotifiedSeq >= latestSeq`
abbrev pub is_notified : Option ℕ → ℕ → Bool
is_notified none latest = false
is_notified (some seq) latest = leb latest seq

-- What one snapshot does: its error and the notices that stay, or the loop's next variables.
abbrev pub notice_of :
    Number → ℕ → UnreadParticipantSnapshot → Progress → Notices → Checked Progress × Notices
notice_of hours now s p state =
    let state' = mark_notified s.thread_id s.participant_agent_id s.latest_seq now state in
    (
      (do
        stale ← is_stale_snapshot s.session hours now
        ok (record p { candidates = p.candidates ++ candidate_of s stale ∷ [] })),
      state',
    )

abbrev pub on_dormant :
    Number
    → ℕ
    → UnreadParticipantSnapshot
    → Progress
    → Notices
    → Checked Bool
    → Checked Progress × Notices
on_dormant hours now s p state (err e) = (err e, state)
on_dormant hours now s p state (ok false) = (ok p, state)
on_dormant hours now s p state (ok true) =
    let p' = record p { dormant = p.dormant + 1 } in
    if is_notified (get_last_notified_seq s.thread_id s.participant_agent_id state) s.latest_seq
    then (ok (record p' { deduplicated = p.deduplicated + 1 }), state)
    else notice_of hours now s p' state

unfoldable pub reconcile_one :
    Number → ℕ → UnreadParticipantSnapshot → Progress → Notices → Checked Progress × Notices
unfolding is_dormant_session is_stale_snapshot get_last_notified_seq mark_notified
reconcile_one hours now s p state =
    let p' = record p { unread = p.unread + 1 } in
    if leb s.latest_seq s.last_read_seq
    then (ok p, state)
    else on_dormant hours now s p' state (is_dormant_session s.session hours now)

abbrev pub then_on :
    Checked Progress × Notices
    → (Progress → Notices → Checked Progress × Notices)
    → Checked Progress × Notices
then_on (ok p, state) k = k p state
then_on (err e, state) k = (err e, state)

unfoldable pub reconcile_all :
    Number → ℕ → List UnreadParticipantSnapshot → Progress → Notices → Checked Progress × Notices
reconcile_all hours now [] p state = (ok p, state)
reconcile_all hours now (s ∷ rest) p state =
    then_on (reconcile_one hours now s p state) (reconcile_all hours now rest)

pub record UnreadReconciliationResult : Type 0 where
  pub workspace_id : String
  pub polled_at : ℕ
  pub candidates : List UnreadReconciliationCandidate
  pub stats : Stats

-- The filter of `InMemoryUnreadReconciliationSnapshotStore.listParticipantSnapshots`.
unfoldable pub list_participant_snapshots :
    String → Bool → List UnreadParticipantSnapshot → List UnreadParticipantSnapshot
list_participant_snapshots workspace_id include_closed snapshots =
    filter
      (λ (s : UnreadParticipantSnapshot).
        str_eq s.workspace_id workspace_id
        && (if not include_closed && same_status s.thread_status closed then false else true))
      snapshots

abbrev pub result_of : String → ℕ → ℕ → Progress → UnreadReconciliationResult
result_of workspace_id now scanned p = record {
  workspace_id = workspace_id;
  polled_at = now;
  candidates = p.candidates;
  stats = record {
    participants_scanned = scanned;
    unread_participants = p.unread;
    dormant_unread_participants = p.dormant;
    deduplicated_participants = p.deduplicated;
  };
}

-- `list` is the snapshot store's `listParticipantSnapshots`.
unfoldable pub reconcile :
    (String → Bool → List UnreadParticipantSnapshot)
    → String
    → Number
    → Option Bool
    → ℕ
    → Notices
    → Checked UnreadReconciliationResult × Notices
unfolding reconcile_all reconcile_one
reconcile list workspace_id hours include_closed now state =
    let snapshots = list workspace_id (or_else include_closed false) in
    let (p, state') = reconcile_all hours now snapshots start state in
    ((do final ← p; ok (result_of workspace_id now (length snapshots) final)), state')
