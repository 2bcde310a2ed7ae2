-- ===== src/Worker/Queue/Blocking.antt =====
-- What a round of `processDueJobs` in apps/supervisor-worker/src/trigger-queue.ts does where the
-- loop guard blocks its thread, with the in-memory store.
use orkiva.Shared.{
  ℕ, ◌+◌, Bool, true, false, String, Option, none, some, [], ◌∷◌, ◌++◌, or_else, ◌≡◌, refl, sym,
  subst, if◌then◌else◌, ◌⊎◌, inl, inr, Option-cases, arith,
}
use orkiva.Shared.Dict.{get, set, get-set_self}
use orkiva.Worker.JobStore.{
  JobStore, BlockedThread, Attempt, in_memory_store, mark_thread_blocked,
  record_attempt_and_transition,
}
use orkiva.Worker.JobStore.Transitions.{record_of_triggering}
use orkiva.Worker.Jobs.{
  TriggerJobStatus, TriggerAttemptResult, triggering, TriggerJobRecord, Executors, BlockReason,
  Transition,
}
use orkiva.Worker.Queue.{
  Settings, Processor, Decision, Batch, Tally, count_round, process_job, attempt, decide, enforce,
  update_loop_state, should_retry, transition_of, blocked_decision,
}

-- The job has failed for good, with one more attempt.
abbrev pub failed_job : ℕ → TriggerJobRecord → TriggerJobRecord
failed_job now job = record job {
  attempts = job.attempts + 1;
  status = TriggerJobStatus.failed;
  next_retry_at = none;
  updated_at = now;
}

-- The attempt, as it is noted for a thread that was blocked.
abbrev pub blocked_attempt : ℕ → TriggerJobRecord → Attempt
blocked_attempt now job = record {
  attempt_no = job.attempts + 1;
  attempt_result = TriggerAttemptResult.failed;
  error_code = some "THREAD_AUTO_BLOCKED";
  created_at = now;
}

-- How the counts grow where a thread is blocked, and the attempt was to be retried or not.
abbrev pub IsCountOfBlocked : Bool → Tally → Tally → Type 0
IsCountOfBlocked true t t' =
    (t'.retried ≡ t.retried + 1) × (t'.failed ≡ t.failed) × (t'.dead_lettered ≡ t.dead_lettered)
IsCountOfBlocked false t t' =
    (t'.retried ≡ t.retried) × (t'.failed ≡ t.failed + 1) × (t'.dead_lettered ≡ t.dead_lettered + 1)

-- What a round leaves that blocks the thread of its job.
pub record IsBlocked {W : Type 0} (now : ℕ) (job : TriggerJobRecord) (reason : BlockReason)
    (retry : Bool) (b b' : Batch JobStore W) : Type 0 where
  pub stored : get job.trigger_id b'.store.jobs ≡ some (failed_job now job)
  pub noted :
      get job.trigger_id b'.store.attempts_by_trigger
      ≡ some (
          or_else (get job.trigger_id b.store.attempts_by_trigger) []
          ++ blocked_attempt now job ∷ [])
  pub marked :
      get job.thread_id b'.store.blocked_threads
      ≡ some (record { blocked_at = now; reason = reason })
  pub auto_blocked : b'.tally.auto_blocked ≡ b.tally.auto_blocked + 1
  pub delivered : b'.tally.delivered ≡ b.tally.delivered
  pub counted : IsCountOfBlocked retry b.tally b'.tally

blocked-threads_record :
    (t : Transition) (store : JobStore)
    → (record_attempt_and_transition t store).1.blocked_threads ≡ store.blocked_threads
unfolding record_attempt_and_transition
blocked-threads_record t store = ground arith

-- The first mark of a thread is new, and changes nothing else.
mark_new :
    (thread_id : String) (now : ℕ) (reason : BlockReason) (store : JobStore)
    → get thread_id store.blocked_threads ≡ none
    → mark_thread_blocked thread_id now reason store ≡ (
      true,
      record store {
        blocked_threads =
            set thread_id (record { blocked_at = now; reason = reason }) store.blocked_threads;
      },
    )
unfolding mark_thread_blocked
mark_new thread_id now reason store h = ground arith

count_blocked :
    (retry : Bool) (t : Tally) (k : ℕ)
    → IsCountOfBlocked retry t (count_round retry blocked_decision (record t { auto_blocked = k }))
unfolding count_round
count_blocked true t k = (refl, refl, refl)
count_blocked false t k = (refl, refl, refl)

count_blocked_rest :
    (retry : Bool) (t : Tally)
    → ((count_round retry blocked_decision t).auto_blocked ≡ t.auto_blocked)
      × ((count_round retry blocked_decision t).delivered ≡ t.delivered)
unfolding count_round
count_blocked_rest retry t = ground arith

count-auto_blocked :
    (retry : Bool) (d : Decision) (t : Tally)
    → (count_round retry d t).auto_blocked ≡ t.auto_blocked
unfolding count_round
count-auto_blocked retry d t = ground arith

module _ {W : Type 0} (executors : Executors W) (config : Settings) (now : ℕ)
    (job : TriggerJobRecord) (b : Batch JobStore W) where
  -- The end of a round, once the loop guard has answered.
  abbrev ended : Bool → Decision → Processor → W → Option BlockReason → Batch JobStore W
  ended retry d p w reason =
      let (final, blocked, store) =
        enforce in_memory_store executors config job now d reason b.store in
      let t = b.tally in
      let t' = record t { auto_blocked = if blocked then t.auto_blocked + 1 else t.auto_blocked } in
      record {
        processor = p;
        store = (record_attempt_and_transition (transition_of job now final) store).1;
        world = w;
        tally = count_round retry final t';
      }

  ended_unblocked :
      (retry : Bool) (d : Decision) (p : Processor) (w : W)
      → ((ended retry d p w none).store.blocked_threads ≡ b.store.blocked_threads)
        × ((ended retry d p w none).tally.auto_blocked ≡ b.tally.auto_blocked)
  unfolding enforce
  ended_unblocked retry d p w =
      (blocked-threads_record (transition_of job now d) b.store, count-auto_blocked retry d b.tally)

  ended-IsBlocked :
      (retry : Bool) (d : Decision) (p : Processor) (w : W) (reason : BlockReason)
      → get job.trigger_id b.store.jobs ≡ some job
      → job.status ≡ triggering
      → get job.thread_id b.store.blocked_threads ≡ none
      → IsBlocked now job reason retry b (ended retry d p w (some reason))
  unfolding enforce
  ended-IsBlocked retry d p w reason found status open_thread =
      let t = transition_of job now blocked_decision in
      let mark : BlockedThread = record { blocked_at = now; reason = reason } in
      let marked_store = record b.store {
        blocked_threads = set job.thread_id mark b.store.blocked_threads;
      } in
      let tally' = record b.tally { auto_blocked = b.tally.auto_blocked + 1 } in
      rw
        (
          mark_new job.thread_id now reason b.store open_thread,
          record_of_triggering t marked_store job found status,
        )
        (record {
          stored = get-set_self job.trigger_id (failed_job now job) b.store.jobs;
          noted = get-set_self job.trigger_id _ b.store.attempts_by_trigger;
          marked = get-set_self job.thread_id mark b.store.blocked_threads;
          auto_blocked = (count_blocked_rest retry tally').0;
          delivered = (count_blocked_rest retry tally').1;
          counted = count_blocked retry b.tally (b.tally.auto_blocked + 1);
        })

  -- The round's outcome, and what the loop guard says of it.
  abbrev pub tried_in : Bool × Option BlockReason
  tried_in =
      let (outcome, p, w) = attempt in_memory_store executors config job now b.processor b.world in
      let (d, _) = decide in_memory_store executors config job now outcome w in
      (should_retry job outcome, (update_loop_state config job.thread_id d.outcome p).0)

  -- A round for a job that is stored and being triggered, whose thread is not blocked yet: where
  -- the loop guard has no reason to block, no thread is blocked; where it has one, the thread is
  -- marked with it, the job is stored as failed with one more attempt and no retry, the attempt is
  -- noted as failed with the code of a block, nothing is counted as delivered, and the job is
  -- counted as retried where its attempt was to be retried, and as failed and dead otherwise.
  pub process_job_blocks :
      get job.trigger_id b.store.jobs ≡ some job
      → job.status ≡ triggering
      → get job.thread_id b.store.blocked_threads ≡ none
      → let b' = process_job in_memory_store executors config now job b in
        ((tried_in.1 ≡ none)
          × (b'.store.blocked_threads ≡ b.store.blocked_threads)
          × (b'.tally.auto_blocked ≡ b.tally.auto_blocked))
        ⊎ ((reason : BlockReason) × (tried_in.1 ≡ some reason)
            × IsBlocked now job reason tried_in.0 b b')
  unfolding process_job
  process_job_blocks found status open_thread =
      let (outcome, p, w) = attempt in_memory_store executors config job now b.processor b.world in
      let (d, w') = decide in_memory_store executors config job now outcome w in
      let (guarded, p') = update_loop_state config job.thread_id d.outcome p in
      let retry = should_retry job outcome in
      elim (Option-cases tried_in.1) [
        | inl e ↦
            let (same, none_marked) =
              subst
                (λ o.
                  ((ended retry d p' w' o).store.blocked_threads ≡ b.store.blocked_threads)
                  × ((ended retry d p' w' o).tally.auto_blocked ≡ b.tally.auto_blocked))
                (sym e) (ended_unblocked retry d p' w') in
            inl (e, same, none_marked)
        | inr (reason, e) ↦ inr (
          reason,
          e,
          subst (λ o. IsBlocked now job reason retry b (ended retry d p' w' o)) (sym e)
              (ended-IsBlocked retry d p' w' reason found status open_thread),
        )
      ]
