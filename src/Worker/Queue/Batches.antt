-- ===== src/Worker/Queue/Batches.antt =====
-- A whole batch of the trigger queue: its counts, and what becomes of the jobs that it claimed.
use orkiva.Shared.{
  ℕ, suc, ◌+◌, ◌≤◌, Bool, false, String, Option, none, some, List, [], ◌∷◌, length, ◌≡◌, refl,
  arith, ap, ◌∙◌, All, str_eq, str_eq_iff, All-map_imp,
}
use orkiva.Shared.Dict.{Dict, get, set, get-set_ne, get-set_self}
use orkiva.Shared.Dict.Keyed.{IsApart, HasDistinctIds}
use orkiva.Worker.JobStore.{JobStore, in_memory_store, transitioned, claim_due_jobs}
use orkiva.Worker.JobStore.Claims.{
  IsWellKept, job_id, claim_due_jobs-IsClaimed, claim_due_jobs-HasDistinctIds,
}
use orkiva.Worker.JobStore.Transitions.{record_of_triggering, jobs-mark_thread_blocked}
use orkiva.Worker.Queue.Decisions.{IsSettled, decide-IsSettled}
use orkiva.Worker.Jobs.{
  triggering, TriggerJobRecord, TriggerQueueStore, Executors, BlockReason, TriggerExecutionOutcome,
}
use orkiva.Worker.Queue.{
  Settings, Processor, Batch, transition_of, Tally, empty_tally, Decision, count_round, process_job,
  process_jobs, process_due_jobs, attempt, decide, enforce, update_loop_state,
}

-- After `n` rounds each job is delivered, retried or failed, and the finer counts fit in these.
pub record IsCount (n : ℕ) (t : Tally) : Type 0 where
  pub all : t.delivered + t.retried + t.failed ≡ n
  pub by_fallback : t.fallback_resumed + t.fallback_spawned ≤ t.delivered
  pub dead : t.dead_lettered ≤ t.failed
  pub blocked : t.auto_blocked ≤ n

count_round-IsCount :
    (n : ℕ) (retry : Bool) (d : Decision) (t : Tally) (k : ℕ)
    → IsCount n t
    → k ≤ suc n
    → IsCount (suc n) (count_round retry d (record t { auto_blocked = k }))
unfolding count_round
count_round-IsCount n retry d t k c h = ground arith

module _ {S W : Type 0} (queue : TriggerQueueStore S) (executors : Executors W)
    (config : Settings) where
  process_job-IsCount :
      (n now : ℕ) (job : TriggerJobRecord) (b : Batch S W)
      → IsCount n b.tally
      → IsCount (suc n) (process_job queue executors config now job b).tally
  unfolding process_job
  process_job-IsCount n now job b c = count_round-IsCount n _ _ b.tally _ c (ground arith)

  process_jobs-IsCount :
      (n now : ℕ) (jobs : List TriggerJobRecord) (b : Batch S W)
      → IsCount n b.tally
      → IsCount (n + length jobs) (process_jobs queue executors config now jobs b).tally
  unfolding process_jobs
  process_jobs-IsCount n now [] b c = ground arith
  process_jobs-IsCount n now (job ∷ jobs) b c =
      let k =
        process_jobs-IsCount (suc n) now jobs (process_job queue executors config now job b)
          (process_job-IsCount n now job b c) in
      ground arith

  -- Each claimed job is counted once as delivered, retried or failed; fallbacks are among the delivered, dead letters among the failed, and at most as many threads are blocked as jobs were claimed.
  pub process_due_jobs-IsCount :
      (workspace_id : String) (limit now : ℕ) (p : Processor) (s : S) (w : W)
      → let result = (process_due_jobs queue executors config workspace_id limit now p s w).0 in
        IsCount result.claimed_jobs result.tally
  unfolding process_due_jobs
  process_due_jobs-IsCount workspace_id limit now p s w =
      let (claimed, s') = queue.claim_due_jobs workspace_id limit now s in
      let b : Batch S W = record { processor = p; store = s'; world = w; tally = empty_tally } in
      let k = process_jobs-IsCount 0 now claimed b (omega arith) in omega (arith, k)

-- What becomes of the jobs, with the in-memory store.
module _ {W : Type 0} (executors : Executors W) (config : Settings) where
  -- Each fallback leaves its job neither queued nor triggering.
  abbrev pub FallbacksSettle : Type 0
  FallbacksSettle =
      (job : TriggerJobRecord) (n : ℕ) (o : TriggerExecutionOutcome) (now : ℕ) (w : W)
      → IsSettled (executors.fall_back job n o now w).0.next_status

  -- A job that a batch is about to process.
  abbrev IsHeld : Dict TriggerJobRecord → TriggerJobRecord → Type 0
  IsHeld jobs job = (get job.trigger_id jobs ≡ some job) × (job.status ≡ triggering)

  -- A job after its round: one more attempt, and no longer being triggered.
  abbrev pub IsDone : Dict TriggerJobRecord → TriggerJobRecord → Type 0
  IsDone jobs job =
      (done : TriggerJobRecord) × (get job.trigger_id jobs ≡ some done)
      × (done.attempts ≡ job.attempts + 1)
      × IsSettled done.status

  enforce-keeps :
      (job : TriggerJobRecord) (now : ℕ) (d : Decision) (reason : Option BlockReason)
      (store : JobStore)
      → IsSettled d.next_status
      → let r = enforce in_memory_store executors config job now d reason store in
        IsSettled r.0.next_status × (r.2.jobs ≡ store.jobs)
  unfolding enforce
  enforce-keeps job now d none store h = (h, refl)
  enforce-keeps job now d (some reason) store h =
      ((λ e. cc, λ e. cc), jobs-mark_thread_blocked job.thread_id now reason store)

  process_job-done :
      FallbacksSettle
      → (now : ℕ) (job : TriggerJobRecord) (b : Batch JobStore W) → IsHeld b.store.jobs job
      → (d : Decision) × IsSettled d.next_status
        × ((process_job in_memory_store executors config now job b).store.jobs
            ≡ set job.trigger_id (transitioned (transition_of job now d) job) b.store.jobs)
  unfolding process_job
  process_job-done f now job b (found, status) =
      let (outcome, p, w) = attempt in_memory_store executors config job now b.processor b.world in
      let first = decide in_memory_store executors config job now outcome w in
      let settled = decide-IsSettled in_memory_store executors config f job now outcome w in
      let (reason, p') = update_loop_state config job.thread_id first.0.outcome p in
      let r = enforce in_memory_store executors config job now first.0 reason b.store in
      let (settled', same) = enforce-keeps job now first.0 reason b.store settled in
      (
        r.0,
        settled',
        ap (λ (x : Option TriggerJobRecord × JobStore). x.1.jobs)
              (record_of_triggering (transition_of job now r.0) r.2 job (rw same found) status)
            ∙ ap (set job.trigger_id (transitioned (transition_of job now r.0) job)) same,
      )

  get-process_job_ne :
      FallbacksSettle
      → (now : ℕ) (job : TriggerJobRecord) (b : Batch JobStore W) (k : String)
      → IsHeld b.store.jobs job
      → str_eq job.trigger_id k ≡ false
      → get k (process_job in_memory_store executors config now job b).store.jobs
        ≡ get k b.store.jobs
  get-process_job_ne f now job b k h apart =
      let (d, _, same) = process_job-done f now job b h in
      ap (get k) same
      ∙ get-set_ne job.trigger_id k (transitioned (transition_of job now d) job) b.store.jobs apart

  IsHeld-process_job :
      FallbacksSettle
      → (now : ℕ) (job : TriggerJobRecord) (rest : List TriggerJobRecord) (b : Batch JobStore W)
      → IsHeld b.store.jobs job
      → All (IsApart job_id job) rest
      → All (IsHeld b.store.jobs) rest
      → All (IsHeld (process_job in_memory_store executors config now job b).store.jobs) rest
  IsHeld-process_job f now job [] b h a held = tt
  IsHeld-process_job f now job (next ∷ rest) b h (apart, a) ((found, status), held) = (
    (get-process_job_ne f now job b next.trigger_id h apart ∙ found, status),
    IsHeld-process_job f now job rest b h a held,
  )

  get-process_jobs_ne :
      FallbacksSettle
      → (now : ℕ) (jobs : List TriggerJobRecord) (b : Batch JobStore W) (k : String)
      → HasDistinctIds job_id jobs
      → All (IsHeld b.store.jobs) jobs
      → All (λ j. str_eq k j.trigger_id ≡ false) jobs
      → get k (process_jobs in_memory_store executors config now jobs b).store.jobs
        ≡ get k b.store.jobs
  unfolding process_jobs
  get-process_jobs_ne f now [] b k d held away = refl
  get-process_jobs_ne f now (job ∷ rest) b k (a, d) (h, held) (p, away) =
      let b' = process_job in_memory_store executors config now job b in
      get-process_jobs_ne f now rest b' k d (IsHeld-process_job f now job rest b h a held) away
      ∙ get-process_job_ne f now job b k h
          (ground (arith, str_eq_iff k job.trigger_id, str_eq_iff job.trigger_id k))

  process_jobs-IsDone :
      FallbacksSettle
      → (now : ℕ) (jobs : List TriggerJobRecord) (b : Batch JobStore W) → HasDistinctIds job_id jobs
      → All (IsHeld b.store.jobs) jobs
      → All (IsDone (process_jobs in_memory_store executors config now jobs b).store.jobs) jobs
  unfolding process_jobs
  process_jobs-IsDone f now [] b d held = tt
  process_jobs-IsDone f now (job ∷ rest) b (a, d) (h, held) =
      let b' = process_job in_memory_store executors config now job b in
      let held' = IsHeld-process_job f now job rest b h a held in
      let (final, settled, same) = process_job-done f now job b h in
      let job' = transitioned (transition_of job now final) job in
      (
        (
          job',
          get-process_jobs_ne f now rest b' job.trigger_id d held' a
              ∙ ap (get job.trigger_id) same
              ∙ get-set_self job.trigger_id job' b.store.jobs,
          refl,
          settled,
        ),
        process_jobs-IsDone f now rest b' d held',
      )

  -- With fallbacks that settle their jobs, a batch over a well-kept store settles every job that
  -- it claimed: one more attempt is counted, and none stays queued or in the hands of the worker.
  pub process_due_jobs-IsDone :
      FallbacksSettle
      → (workspace_id : String) (limit now : ℕ) (p : Processor) (s : JobStore) (w : W)
      → IsWellKept s
      → All
          (IsDone
            (process_due_jobs in_memory_store executors config workspace_id limit now p s
              w).1.store.jobs)
          (claim_due_jobs workspace_id limit now s).0
  unfolding process_due_jobs
  process_due_jobs-IsDone f workspace_id limit now p s w k =
      process_jobs-IsDone f now (claim_due_jobs workspace_id limit now s).0 _
        (claim_due_jobs-HasDistinctIds workspace_id limit now s k)
        (All-map_imp (λ j (found, status, _). (found, status)) _
          (claim_due_jobs-IsClaimed workspace_id limit now s k))
