-- ===== src/Worker/Queue/Tests.antt =====
-- The queue's processor at work.
use orkiva.Shared.{
  ℕ, ◌+◌, ◌*◌, ◌^◌, ◌≤◌, ◌<◌, Bool, true, false, String, Option, List, [], ◌∷◌, none, some, All,
  arith, ◌≡◌, ◌≢◌, ◌↔◌, ◌⊎◌, inl, inr, refl,
}
use orkiva.Shared.Dict.{get}
use orkiva.Worker.Jobs.{
  TriggerJobRecord, TriggerJobStatus, TriggerAttemptResult, queued, TriggerExecutionOutcome,
  TriggerFallbackOutcome, resume_failed, Executors, BlockReason, no_progress_turns,
}
use orkiva.Worker.JobStore.{JobStore, in_memory_store, claim_due_jobs}
use orkiva.Worker.JobStore.Claims.{IsWellKept}
use orkiva.Worker.Queue.{
  Settings, Batch, Processor, Decision, empty_tally, process_job, attempt, should_retry,
  transition_of, blocked_decision, default_safeguards, new_processor, compute_backoff_ms,
  is_progress, update_loop_state, decide, process_due_jobs,
}
use orkiva.Worker.Queue.RateLimit.{IsInOrder, IsLimited, request_all, request_all-IsLimited}
use orkiva.Worker.Queue.LoopGuard.{
  guard_all, turns, repeats, since_progress, update_loop_state-none_iff,
}
use orkiva.Worker.Queue.Decisions.{decide-timeout}
use orkiva.Worker.Queue.Blocking.{IsBlocked, tried_in, process_job_blocks}
use orkiva.Worker.Queue.Batches.{
  IsCount, IsDone, FallbacksSettle, process_due_jobs-IsCount, process_due_jobs-IsDone,
}

abbrev job : String → ℕ → TriggerJobRecord
job id created = record {
  trigger_id = id;
  thread_id = "th_1";
  workspace_id = "w";
  target_agent_id = "a";
  target_session_id = none;
  reason = "new_message";
  prompt = "look";
  status = queued;
  attempts = 0;
  max_retries = 2;
  next_retry_at = none;
  created_at = created;
  updated_at = created;
}

abbrev store : JobStore
store = record {
  jobs = ("t_1", job "t_1" 3) ∷ ("t_2", job "t_2" 1) ∷ [];
  attempts_by_trigger = [];
  blocked_threads = [];
}

store_IsWellKept : IsWellKept store
unfolding orkiva.Shared.Dict.get
store_IsWellKept = (refl, refl, (refl, refl, tt))

abbrev settings : Settings
settings = record {
  safeguards = default_safeguards;
  backoff_base_ms = 1000;
  backoff_max_ms = 60000;
}

abbrev timed_out : TriggerExecutionOutcome
timed_out = record {
  attempt_result = TriggerAttemptResult.timeout;
  retryable = true;
  retry_after_ms = none;
  error_code = some "PANE_DEAD";
}

abbrev fallen : TriggerFallbackOutcome
fallen = record {
  attempt_result = resume_failed;
  next_status = TriggerJobStatus.failed;
  error_code = some "FALLBACK_SPAWN_FAILED";
}

-- Each attempt times out, and each fallback fails; the state counts the calls.
abbrev dead : Executors ℕ
dead = record {
  execute = λ job n now calls. (timed_out, calls + 1);
  fall_back = λ job n outcome now calls. (fallen, calls + 1);
}

dead_settles : FallbacksSettle dead settings
dead_settles job n outcome now calls = (λ e. cc, λ e. cc)

process_due_jobs-IsDone_example :
    All
      (IsDone dead settings
        (process_due_jobs in_memory_store dead settings "w" 2 5 new_processor store 0).1.store.jobs)
      (claim_due_jobs "w" 2 5 store).0
process_due_jobs-IsDone_example =
    process_due_jobs-IsDone dead settings dead_settles "w" 2 5 new_processor store 0
      store_IsWellKept

process_due_jobs-IsCount_example :
    IsCount
      (process_due_jobs in_memory_store dead settings "w" 2 5 new_processor store 0).0.claimed_jobs
      (process_due_jobs in_memory_store dead settings "w" 2 5 new_processor store 0).0.tally
process_due_jobs-IsCount_example =
    process_due_jobs-IsCount in_memory_store dead settings "w" 2 5 new_processor store 0

abbrev requests : List (TriggerJobRecord × ℕ)
requests = (job "t_1" 3, 10) ∷ (job "t_2" 1, 20) ∷ []

requests-IsInOrder : IsInOrder 0 requests
requests-IsInOrder = (omega arith, (omega arith, tt))

request_all-IsLimited_example : IsLimited settings (request_all settings requests new_processor [])
request_all-IsLimited_example = request_all-IsLimited settings requests requests-IsInOrder

update_loop_state-none_iff_example :
    ((update_loop_state settings "th_1" timed_out
        (guard_all settings (("th_1", timed_out) ∷ []) new_processor)).0
      ≡ none)
    ↔ ((is_progress timed_out.attempt_result ≡ true)
        ⊎ ((turns (timed_out ∷ since_progress "th_1" (("th_1", timed_out) ∷ []))
              < settings.safeguards.loop_max_turns)
            × (repeats (timed_out ∷ since_progress "th_1" (("th_1", timed_out) ∷ []))
                < settings.safeguards.loop_max_repeated_findings)))
update_loop_state-none_iff_example =
    update_loop_state-none_iff settings "th_1" timed_out (("th_1", timed_out) ∷ [])

failed≢timeout : TriggerJobStatus.failed ≢ TriggerJobStatus.timeout
failed≢timeout e = cc

decided :
    (decide in_memory_store dead settings (job "t_1" 3) 10 timed_out 0).0.next_status
    ≡ TriggerJobStatus.timeout
unfolding decide
decided = refl

decide-timeout_example :
    (0 < 2)
    × (timed_out.attempt_result ≡ TriggerAttemptResult.timeout)
    × (timed_out.retryable ≡ true)
    × ((decide in_memory_store dead settings (job "t_1" 3) 10 timed_out 0).0.next_retry_at
        ≡ some (10 + compute_backoff_ms settings 1))
decide-timeout_example =
    decide-timeout in_memory_store dead settings (job "t_1" 3) 10 timed_out 0 failed≢timeout decided

abbrev impatient : Settings
impatient = record settings { safeguards = record default_safeguards { loop_max_turns = 1 } }

abbrev batch : Batch JobStore ℕ
batch = record {
  processor = new_processor;
  store = (claim_due_jobs "w" 1 5 store).1;
  world = 0;
  tally = empty_tally;
}

abbrev claimed_job : TriggerJobRecord
claimed_job = record (job "t_2" 1) { status = TriggerJobStatus.triggering; updated_at = 5 }

abbrev blocked_batch : Batch JobStore ℕ
blocked_batch = process_job in_memory_store dead impatient 5 claimed_job batch

abbrev answer : Bool × Option BlockReason
answer = tried_in dead impatient 5 claimed_job batch

claimed_found : get "t_2" batch.store.jobs ≡ some claimed_job
unfolding claim_due_jobs get orkiva.Shared.Sorting.sort orkiva.Shared.Dict.set
claimed_found = refl

none_blocked : get "th_1" batch.store.blocked_threads ≡ none
unfolding claim_due_jobs get
none_blocked = refl

-- The attempt was to be retried, and the loop guard has its reason.
answer_lem : answer ≡ (true, some (no_progress_turns 1))
unfolding decide attempt update_loop_state should_retry orkiva.Worker.Queue.apply_rate_limit get
answer_lem = refl

process_job_blocks_example :
    ((answer.1 ≡ none)
      × (blocked_batch.store.blocked_threads ≡ batch.store.blocked_threads)
      × (blocked_batch.tally.auto_blocked ≡ 0))
    ⊎ ((reason : BlockReason) × (answer.1 ≡ some reason)
        × IsBlocked 5 claimed_job reason answer.0 batch blocked_batch)
process_job_blocks_example =
    process_job_blocks dead impatient 5 claimed_job batch claimed_found refl none_blocked
