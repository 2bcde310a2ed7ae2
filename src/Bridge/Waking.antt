-- ===== src/Bridge/Waking.antt =====
-- How `trigger_participant` of apps/bridge-api/src/app.ts decides to wake an agent, and which of its
-- jobs apps/supervisor-worker/src/trigger-queue.ts claims.
pub mod Jobs
use orkiva.Shared.{
  ℕ, suc, ◌+◌, ◌*◌, ◌≤◌, Bool, true, false, Option, none, some, ok, any, ◌≡◌, ◌≢◌, ◌↔◌, refl, arith,
}
use orkiva.Domain.Errors.{nat}
use orkiva.Domain.Session.{SessionRecord, managed, offline, is_session_stale}
use orkiva.Worker.Jobs.{
  same_job_status, due_trigger_statuses, queued, fallback_resume, fallback_spawn,
}
use orkiva.Bridge.Handlers.Triggers.{TriggerDecision, resolve_trigger_decision}

-- A session that runs: managed, not offline, and heard of within the hours.
abbrev pub IsRunning : ℕ → ℕ → Option SessionRecord → Type 0
IsRunning hours now none = ⊥
IsRunning hours now (some s) =
    (s.management_mode ≡ managed)
    × (s.status ≢ offline)
    × (now ≤ s.last_heartbeat_at + hours * 3600000)

-- A session to resume: it does not run, may be resumed, and was heard of within the hours.
abbrev pub IsResumable : ℕ → ℕ → Option SessionRecord → Type 0
IsResumable hours now none = ⊥
IsResumable hours now (some s) =
    (s.resumable ≡ true) × (now ≤ s.last_heartbeat_at + hours * 3600000)

-- With a whole positive number of hours the decision to wake an agent is made. Its job is queued,
-- and has a status with which a worker claims jobs, exactly where the session runs: managed, not
-- offline and fresh. The job is to be resumed exactly where the session does not run, and is
-- resumable and fresh.
pub resolve_trigger_decision_iff :
    (session : Option SessionRecord) (k now : ℕ)
    → (d : TriggerDecision) × (resolve_trigger_decision session (nat (suc k)) now ≡ ok d)
      × ((any (same_job_status d.job_status) due_trigger_statuses ≡ true)
          ↔ IsRunning (suc k) now session)
      × ((d.job_status ≡ queued) ↔ IsRunning (suc k) now session)
      × ((d.job_status ≡ fallback_resume)
          ↔ ((IsRunning (suc k) now session → ⊥) × IsResumable (suc k) now session))
unfolding resolve_trigger_decision is_session_stale
resolve_trigger_decision_iff none k now = (_, refl, ground arith, ground arith, ground arith)
resolve_trigger_decision_iff (some s) k now = (_, refl, ground arith, ground arith, ground arith)
