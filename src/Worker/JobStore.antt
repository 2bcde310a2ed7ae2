-- ===== src/Worker/JobStore.antt =====
-- `InMemoryTriggerQueueStore` of apps/supervisor-worker/src/trigger-queue.ts.
pub mod Claims
pub mod Oldest
pub mod Transitions
mod Tests
use orkiva.Shared.{
  ℕ, Bool, true, false, String, Option, none, some, List, [], ◌∷◌, ◌++◌, any, filter, take, str_eq,
  leb, ltb, ◌==◌, or_else, if◌then◌else◌, not, ◌&&◌,
}
use orkiva.Shared.Dict.{Dict, get, set, values}
use orkiva.Shared.Sorting.{sort}
use orkiva.Worker.Jobs.{
  TriggerJobStatus, triggering, TriggerAttemptResult, TriggerJobRecord, same_job_status,
  due_trigger_statuses, BlockReason, Transition, TriggerQueueStore,
}

pub record BlockedThread : Type 0 where
  pub blocked_at : ℕ
  pub reason : BlockReason

pub record Attempt : Type 0 where
  pub attempt_no : ℕ
  pub attempt_result : TriggerAttemptResult
  pub error_code : Option String
  pub created_at : ℕ

pub record JobStore : Type 0 where
  pub jobs : Dict TriggerJobRecord
  pub blocked_threads : Dict BlockedThread
  pub attempts_by_trigger : Dict (List Attempt)

-- The loop of the constructor.
unfoldable pub seed_jobs : List TriggerJobRecord → Dict TriggerJobRecord → Dict TriggerJobRecord
seed_jobs [] jobs = jobs
seed_jobs (job ∷ rest) jobs = seed_jobs rest (set job.trigger_id job jobs)

unfoldable pub new_store : List TriggerJobRecord → JobStore
unfolding seed_jobs
new_store seeds = record {
  jobs = seed_jobs seeds [];
  blocked_threads = [];
  attempts_by_trigger = [];
}

-- `nextRetryAt === null || nextRetryAt <= claimedAt`
abbrev pub is_ripe : Option ℕ → ℕ → Bool
is_ripe none now = true
is_ripe (some time) now = leb time now

-- The three filters of `claimDueJobs`, in one test.
abbrev pub is_due : String → ℕ → TriggerJobRecord → Bool
is_due workspace_id now job =
    str_eq job.workspace_id workspace_id
    && any (same_job_status job.status) due_trigger_statuses
    && is_ripe job.next_retry_at now

abbrev pub created_before : TriggerJobRecord → TriggerJobRecord → Bool
created_before a b = ltb a.created_at b.created_at

unfoldable pub due_jobs : String → ℕ → ℕ → Dict TriggerJobRecord → List TriggerJobRecord
unfolding sort
due_jobs workspace_id limit now jobs =
    take limit (sort created_before (filter (is_due workspace_id now) (values jobs)))

abbrev pub claimed_as : ℕ → TriggerJobRecord → TriggerJobRecord
claimed_as now job = record job { status = triggering; updated_at = now }

-- `current` is still as the candidate was read.
abbrev pub is_unchanged : TriggerJobRecord → TriggerJobRecord → Bool
is_unchanged current candidate =
    same_job_status current.status candidate.status && current.updated_at == candidate.updated_at

-- The loop of `claimDueJobs`: the claimed jobs, and the jobs with these set to `triggering`.
unfoldable pub claim_from :
    ℕ
    → List TriggerJobRecord
    → Dict TriggerJobRecord
    → List TriggerJobRecord × Dict TriggerJobRecord
claim_from now [] jobs = ([], jobs)
claim_from now (candidate ∷ rest) jobs = elim (get candidate.trigger_id jobs) [
  | none ↦ claim_from now rest jobs
  | some current ↦
      let skipped = claim_from now rest jobs in
      let triggering_job = claimed_as now current in
      let taken : List TriggerJobRecord × Dict TriggerJobRecord =
        let (later, jobs') =
          claim_from now rest (set triggering_job.trigger_id triggering_job jobs) in
        (triggering_job ∷ later, jobs') in
      if is_unchanged current candidate then taken else skipped
]

unfoldable pub claim_due_jobs : String → ℕ → ℕ → JobStore → List TriggerJobRecord × JobStore
unfolding claim_from due_jobs
claim_due_jobs workspace_id limit now store =
    let (claimed, jobs) = claim_from now (due_jobs workspace_id limit now store.jobs) store.jobs in
    (claimed, record store { jobs = jobs })

abbrev pub attempt_of : Transition → Attempt
attempt_of t = record {
  attempt_no = t.attempt_no;
  attempt_result = t.attempt_result;
  error_code = t.error_code;
  created_at = t.transitioned_at;
}

abbrev pub transitioned : Transition → TriggerJobRecord → TriggerJobRecord
transitioned t job = record job {
  attempts = t.attempt_no;
  status = t.next_status;
  next_retry_at = t.next_retry_at;
  updated_at = t.transitioned_at;
}

unfoldable pub record_attempt_and_transition :
    Transition → JobStore → Option TriggerJobRecord × JobStore
record_attempt_and_transition t store = elim (get t.trigger_id store.jobs) [
  | none ↦ (none, store)
  | some current ↦
      let attempts = or_else (get t.trigger_id store.attempts_by_trigger) [] in
      let updated = transitioned t current in
      if same_job_status current.status triggering
      then (
        some updated,
        record store {
          jobs = set t.trigger_id updated store.jobs;
          attempts_by_trigger =
              set t.trigger_id (attempts ++ attempt_of t ∷ []) store.attempts_by_trigger;
        },
      )
      else (none, store)
]

abbrev pub is_dead_letter : String → TriggerJobRecord → Bool
is_dead_letter workspace_id job =
    str_eq job.workspace_id workspace_id && same_job_status job.status TriggerJobStatus.failed

abbrev pub updated_after : TriggerJobRecord → TriggerJobRecord → Bool
updated_after a b = ltb b.updated_at a.updated_at

unfoldable pub list_dead_letter_jobs : String → ℕ → JobStore → List TriggerJobRecord
unfolding sort
list_dead_letter_jobs workspace_id limit store =
    take limit (sort updated_after (filter (is_dead_letter workspace_id) (values store.jobs)))

unfoldable pub get_job_by_id : String → JobStore → Option TriggerJobRecord
get_job_by_id trigger_id store = get trigger_id store.jobs

unfoldable pub mark_thread_blocked : String → ℕ → BlockReason → JobStore → Bool × JobStore
mark_thread_blocked thread_id blocked_at reason store = elim (get thread_id store.blocked_threads) [
  | some existing ↦ (false, store)
  | none ↦ (
    true,
    record store {
      blocked_threads =
          set thread_id (record { blocked_at = blocked_at; reason = reason }) store.blocked_threads;
    },
  )
]

-- The store as the processor uses it.
abbrev pub in_memory_store : TriggerQueueStore JobStore
in_memory_store = record {
  claim_due_jobs = claim_due_jobs;
  record_attempt_and_transition = record_attempt_and_transition;
  list_dead_letter_jobs = list_dead_letter_jobs;
  get_job_by_id = get_job_by_id;
  mark_thread_blocked = mark_thread_blocked;
}
