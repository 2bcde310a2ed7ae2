-- ===== src/Worker/Executor/Deferral.antt =====
-- The outcomes of apps/supervisor-worker/src/runtime-trigger-executor.ts, and its quiet window.
use orkiva.Shared.{
  ℕ, ◌+◌, ◌<◌, true, false, String, Option, none, some, not, ◌&&◌, ◌≡◌, refl, ◌⊎◌, arith,
}
use orkiva.Shared.Dict.{Dict, get, set, get-set_self}
use orkiva.Domain.Session.{SessionRecord}
use orkiva.Worker.Jobs.{TriggerJobRecord, TriggerExecutionOutcome, TriggerAttemptResult}
use orkiva.Worker.Executor.{
  TriggerDeliveryRequest, TriggerDeliveryResult, failure, operator_busy, SafeguardConfig, busy_key,
  defer_or_time_out, settle_delivery, request_of, refusal, is_forced, is_quiet, deliver_to, execute,
}

module _ {W : Type 0} (get_runtime : String → String → Option SessionRecord)
    (deliver : TriggerDeliveryRequest → W → TriggerDeliveryResult × W)
    (config : SafeguardConfig) where
  -- What an outcome may say: only a job younger than the limit is deferred, for the recheck time,
  -- and what was delivered or failed is not tried again.
  abbrev pub IsFair : TriggerJobRecord → ℕ → TriggerExecutionOutcome → Type 0
  IsFair job now outcome =
      ((outcome.attempt_result ≡ TriggerAttemptResult.deferred)
        × (now < job.created_at + config.max_defer_ms)
        × (outcome.retryable ≡ true)
        × (outcome.retry_after_ms ≡ some config.recheck_ms))
      ⊎ ((outcome.attempt_result ≡ TriggerAttemptResult.timeout) × (outcome.retry_after_ms ≡ none))
      ⊎ (outcome.retryable ≡ false)
        × ((outcome.attempt_result ≡ TriggerAttemptResult.delivered)
            ⊎ (outcome.attempt_result ≡ TriggerAttemptResult.failed))

  defer_or_time_out-IsFair :
      (job : TriggerJobRecord) (now : ℕ) → IsFair job now (defer_or_time_out config job now)
  defer_or_time_out-IsFair job now = ground arith

  -- Whatever the registry and the adapter answer, the executor's outcome is fair: it defers a job
  -- only while the job is younger than the limit.
  pub execute-IsFair :
      (job : TriggerJobRecord) (now : ℕ) (busy : Dict ℕ) (w : W)
      → IsFair job now (execute get_runtime deliver config job now busy w).0
  unfolding execute
  execute-IsFair job now busy w = ground arith

  execute_on :
      (job : TriggerJobRecord) (r : SessionRecord) (now : ℕ) (busy : Dict ℕ) (w : W)
      → get_runtime job.target_agent_id job.workspace_id ≡ some r
      → refusal job r ≡ none
      → execute get_runtime deliver config job now busy w
        ≡ deliver_to get_runtime deliver config job r now busy w
  unfolding execute
  execute_on job r now busy w found passes = rw (found, execute) (rw passes refl)

  settle_busy :
      (job : TriggerJobRecord) (r : SessionRecord) (now : ℕ) (busy : Dict ℕ)
      (answer : TriggerDeliveryResult)
      → answer ≡ failure operator_busy
      → settle_delivery config job r now busy answer
        ≡ (defer_or_time_out config job now, set (busy_key r) now busy)
  settle_busy job r now busy answer h = rw h refl

  execute_busy :
      (job : TriggerJobRecord) (r : SessionRecord) (now : ℕ) (busy : Dict ℕ) (w : W)
      → get_runtime job.target_agent_id job.workspace_id ≡ some r
      → refusal job r ≡ none
      → (not (is_forced job) && is_quiet config now (get (busy_key r) busy)) ≡ false
      → (deliver (request_of job r) w).0 ≡ failure operator_busy
      → execute get_runtime deliver config job now busy w ≡ (
        defer_or_time_out config job now,
        set (busy_key r) now busy,
        (deliver (request_of job r) w).1,
      )
  execute_busy job r now busy w found passes due answer =
      rw (execute_on job r now busy w found passes, due, settle_busy job r now busy _ answer) refl

  -- A job that is not forced and comes to a runtime within its quiet window is deferred or timed
  -- out, and neither the adapter nor the notes of busy runtimes are touched.
  execute_quiet :
      (job : TriggerJobRecord) (r : SessionRecord) (now : ℕ) (busy : Dict ℕ) (w : W)
      → get_runtime job.target_agent_id job.workspace_id ≡ some r
      → refusal job r ≡ none
      → is_forced job ≡ false
      → is_quiet config now (get (busy_key r) busy) ≡ true
      → execute get_runtime deliver config job now busy w
        ≡ (defer_or_time_out config job now, busy, w)
  execute_quiet job r now busy w found passes plain quiet =
      rw (execute_on job r now busy w found passes, plain, quiet) refl

  -- When the adapter finds a runtime's operator busy, no job that is not forced reaches that runtime
  -- before the quiet window is over: each is deferred or timed out, and the adapter is not called.
  pub execute_leaves_busy_alone :
      (job job' : TriggerJobRecord) (r : SessionRecord) (now now' : ℕ) (busy : Dict ℕ) (w : W)
      → get_runtime job.target_agent_id job.workspace_id ≡ some r
      → refusal job r ≡ none
      → (not (is_forced job) && is_quiet config now (get (busy_key r) busy)) ≡ false
      → (deliver (request_of job r) w).0 ≡ failure operator_busy
      → get_runtime job'.target_agent_id job'.workspace_id ≡ some r
      → refusal job' r ≡ none
      → is_forced job' ≡ false
      → now' < now + config.quiet_window_ms
      → let (_, busy', w') = execute get_runtime deliver config job now busy w in
        execute get_runtime deliver config job' now' busy' w'
        ≡ (defer_or_time_out config job' now', busy', w')
  execute_leaves_busy_alone job job' r now now' busy w found passes due answer found' passes' plain
        soon =
      rw (execute_busy job r now busy w found passes due answer) (
        execute_quiet job' r now' (set (busy_key r) now busy) _ found' passes' plain
          (rw (get-set_self (busy_key r) now busy) (ground arith)))
