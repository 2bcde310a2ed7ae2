-- ===== src/Worker/Unread/Tests.antt =====
-- Reconciliations at work.
use orkiva.Shared.{ℕ, String, List, [], ◌∷◌, none, ok, err, arith, ◌≡◌, refl}
use orkiva.Shared.Dict.{get}
use orkiva.Domain.Errors.{Checked, nat}
use orkiva.Domain.Thread.{active}
use orkiva.Worker.Unread.{
  UnreadParticipantSnapshot, Notices, Progress, start, seq_of, reconcile_all,
}
use orkiva.Worker.Unread.Notices.{IsCount}
use orkiva.Worker.Unread.Once.{reconcile_all_twice}

abbrev snapshot : String → ℕ → ℕ → UnreadParticipantSnapshot
snapshot agent latest last = record {
  thread_id = "th_1";
  workspace_id = "w";
  thread_status = active;
  participant_agent_id = agent;
  latest_seq = latest;
  last_read_seq = last;
  session = none;
}

abbrev snapshots : List UnreadParticipantSnapshot
snapshots = snapshot "a" 5 2 ∷ snapshot "b" 5 5 ∷ []

abbrev after : Checked Progress × Notices
after = reconcile_all (nat 12) 100 snapshots start []

abbrev progress_of : Checked Progress → Progress
progress_of (ok p) = p
progress_of (err e) = start

first_run : after.0 ≡ ok (progress_of after.0)
unfolding reconcile_all orkiva.Worker.Unread.reconcile_one get
first_run = refl

start-IsCount : IsCount 0 start
start-IsCount = record { split = refl; dormant = omega arith; unread = omega arith }

reconcile_all_twice_example :
    (q : Progress) × (reconcile_all (nat 12) 100 snapshots start after.1 ≡ (ok q, after.1))
    × (q.candidates ≡ [])
reconcile_all_twice_example = reconcile_all_twice 11 100 snapshots []
