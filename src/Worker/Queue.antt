-- ===== src/Worker/Queue.antt =====
-- `TriggerQueueProcessor` of apps/supervisor-worker/src/trigger-queue.ts: a round of a job, and the
-- batch of the jobs that are due. The guards are the child `Guards`.
mod Guards
pub mod RateLimit
pub mod LoopGuard
pub mod Decisions
pub mod Batches
pub mod Blocking
mod Tests
unfoldable pub use Guards.*
use orkiva.Shared.{
  ℕ, suc, ◌+◌, ◌-◌, ◌*◌, ◌^◌, min, max, Bool, true, false, String, Option, none, some, List, [],
  ◌∷◌, ◌++◌, map, filter, length, head?, str_eq, leb, or_else, if◌then◌else◌, not, ◌&&◌, ◌||◌,
}
use Prim.Native.String
use orkiva.Shared.Dict.{Dict, get, set, delete}
use orkiva.Worker.Jobs.{
  TriggerJobStatus, TriggerAttemptResult, delivered, deferred, timeout, failed,
  fallback_resume_succeeded, fallback_resume_failed, fallback_spawned, TriggerJobRecord,
  TriggerExecutionOutcome, TriggerFallbackOutcome, attempt_of_fallback, FallbackResult,
  resume_failed, BlockReason, no_progress_turns, repeated_identical_findings, Transition,
  TriggerQueueStore, Executors, same_job_status,
}

-- What a round has settled on for its job: `finalOutcome`, `nextStatus`, `nextRetryAt`.
pub record Decision : Type 0 where
  pub outcome : TriggerExecutionOutcome
  pub next_status : TriggerJobStatus
  pub next_retry_at : Option ℕ

unfoldable pub should_retry : TriggerJobRecord → TriggerExecutionOutcome → Bool
should_retry job outcome =
    if is_deferred outcome.attempt_result
    then outcome.retryable
    else outcome.retryable && leb (job.attempts + 1) job.max_retries

unfoldable pub first_decision : Settings → TriggerJobRecord → ℕ → TriggerExecutionOutcome → Decision
unfolding should_retry compute_backoff_ms
first_decision config job now outcome =
    let retry = should_retry job outcome in
    let delay =
      if is_deferred outcome.attempt_result
      then or_else outcome.retry_after_ms config.safeguards.defer_recheck_ms
      else compute_backoff_ms config (job.attempts + 1) in
    record {
      outcome = outcome;
      next_status =
          if is_delivered outcome.attempt_result
          then TriggerJobStatus.delivered
          else if retry
          then to_transition_status_for_retry outcome.attempt_result
          else TriggerJobStatus.failed;
      next_retry_at =
          if is_delivered outcome.attempt_result || not retry then none else some (now + delay);
    }

abbrev pub needs_fallback : TriggerJobRecord → TriggerExecutionOutcome → Bool
needs_fallback job outcome =
    not (should_retry job outcome) && not (is_delivered outcome.attempt_result)

abbrev pub fallback_decision : TriggerFallbackOutcome → Decision
fallback_decision fallback = record {
  outcome = record {
    attempt_result = attempt_of_fallback fallback.attempt_result;
    retryable = false;
    retry_after_ms = none;
    error_code = fallback.error_code;
  };
  next_status = fallback.next_status;
  next_retry_at = none;
}

abbrev pub blocked_decision : Decision
blocked_decision = record {
  outcome = record {
    attempt_result = TriggerAttemptResult.failed;
    retryable = false;
    retry_after_ms = none;
    error_code = some "THREAD_AUTO_BLOCKED";
  };
  next_status = TriggerJobStatus.failed;
  next_retry_at = none;
}

abbrev pub transition_of : TriggerJobRecord → ℕ → Decision → Transition
transition_of job now d = record {
  trigger_id = job.trigger_id;
  attempt_no = job.attempts + 1;
  attempt_result = d.outcome.attempt_result;
  error_code = d.outcome.error_code;
  next_status = d.next_status;
  next_retry_at = d.next_retry_at;
  transitioned_at = now;
}

pub record Tally : Type 0 where
  pub delivered : ℕ
  pub retried : ℕ
  pub dead_lettered : ℕ
  pub failed : ℕ
  pub fallback_resumed : ℕ
  pub fallback_spawned : ℕ
  pub auto_blocked : ℕ

abbrev pub empty_tally : Tally
empty_tally = record {
  delivered = 0;
  retried = 0;
  dead_lettered = 0;
  failed = 0;
  fallback_resumed = 0;
  fallback_spawned = 0;
  auto_blocked = 0;
}

-- The counting at the end of a round; `retry` is the round's `shouldRetry`.
unfoldable pub count_round : Bool → Decision → Tally → Tally
count_round retry d t =
    let result = d.outcome.attempt_result in
    if is_progress result
    then record t {
      delivered = t.delivered + 1;
      fallback_resumed =
          if is_resume_succeeded result then t.fallback_resumed + 1 else t.fallback_resumed;
      fallback_spawned = if is_spawned result then t.fallback_spawned + 1 else t.fallback_spawned;
    }
    else if retry && not (is_resume_failed result)
    then record t { retried = t.retried + 1 }
    else record t {
      failed = t.failed + 1;
      dead_lettered =
          if same_job_status d.next_status TriggerJobStatus.failed
          then t.dead_lettered + 1
          else t.dead_lettered;
    }

-- The state that a batch goes through: processor, store, what the executors drive, and counts.
pub record Batch (S W : Type 0) : Type 0 where
  pub processor : Processor
  pub store : S
  pub world : W
  pub tally : Tally

pub record TriggerQueueProcessingResult : Type 0 where
  pub workspace_id : String
  pub processed_at : ℕ
  pub claimed_jobs : ℕ
  pub tally : Tally
  pub dead_letter_job_ids : List String

module _ {S W : Type 0} (queue : TriggerQueueStore S) (executors : Executors W)
    (config : Settings) where
  -- The rate limit, and the attempt where it lets the job pass.
  unfoldable pub attempt :
      TriggerJobRecord → ℕ → Processor → W → TriggerExecutionOutcome × Processor × W
  attempt job now p w =
      let (limited, p') = apply_rate_limit config job now p in
      let tried = executors.execute job (job.attempts + 1) now w in
      elim limited [ some outcome ↦ (outcome, p', w) | none ↦ (tried.0, p', tried.1) ]

  -- The decision, with the fallback run where the job is neither delivered nor retried.
  unfoldable pub decide : TriggerJobRecord → ℕ → TriggerExecutionOutcome → W → Decision × W
  unfolding first_decision
  decide job now outcome w =
      let fallen = executors.fall_back job (job.attempts + 1) outcome now w in
      if needs_fallback job outcome
      then (fallback_decision fallen.0, fallen.1)
      else (first_decision config job now outcome, w)

  -- The loop guard's part: where it trips, the thread is marked and the job fails.
  unfoldable pub enforce :
      TriggerJobRecord → ℕ → Decision → Option BlockReason → S → Decision × Bool × S
  enforce job now d none store = (d, false, store)
  enforce job now d (some reason) store =
      let (blocked, store') = queue.mark_thread_blocked job.thread_id now reason store in
      (blocked_decision, blocked, store')

  -- One round of the loop of `processDueJobs`.
  unfoldable pub process_job : ℕ → TriggerJobRecord → Batch S W → Batch S W
  unfolding attempt decide enforce
  process_job now job b =
      let (outcome, p, w) = attempt job now b.processor b.world in
      let (d, w') = decide job now outcome w in
      let (reason, p') = update_loop_state config job.thread_id d.outcome p in
      let (final, blocked, store) = enforce job now d reason b.store in
      let (_, store') = queue.record_attempt_and_transition (transition_of job now final) store in
      let t = b.tally in
      let t' = record t { auto_blocked = if blocked then t.auto_blocked + 1 else t.auto_blocked } in
      record {
        processor = p';
        store = store';
        world = w';
        tally = count_round (should_retry job outcome) final t';
      }

  unfoldable pub process_jobs : ℕ → List TriggerJobRecord → Batch S W → Batch S W
  process_jobs now [] b = b
  process_jobs now (job ∷ jobs) b = process_jobs now jobs (process_job now job b)

  unfoldable pub process_due_jobs :
      String → ℕ → ℕ → Processor → S → W → TriggerQueueProcessingResult × Batch S W
  unfolding process_jobs process_job
  process_due_jobs workspace_id limit processed_at p s w =
      let (claimed, s') = queue.claim_due_jobs workspace_id limit processed_at s in
      let b =
        process_jobs processed_at claimed
          (record { processor = p; store = s'; world = w; tally = empty_tally }) in
      (
        record {
          workspace_id = workspace_id;
          processed_at = processed_at;
          claimed_jobs = length claimed;
          tally = b.tally;
          dead_letter_job_ids =
              map (λ (job : TriggerJobRecord). job.trigger_id)
                (queue.list_dead_letter_jobs workspace_id 20 b.store);
        },
        b,
      )
