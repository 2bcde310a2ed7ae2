-- ===== src/Worker/Queue/Decisions.antt =====
-- What a round of the trigger queue may settle on.
use orkiva.Shared.{ℕ, ◌+◌, ◌≤◌, ◌<◌, min, true, some, ◌≡◌, ◌≢◌, arith}
use native.Mathlib.Nat.{pow-le-pow_right, mul-le-mul_left}
use orkiva.Worker.Jobs.{
  TriggerJobStatus, queued, triggering, TriggerAttemptResult, TriggerJobRecord,
  TriggerExecutionOutcome, TriggerQueueStore, Executors,
}
use orkiva.Worker.Queue.{Settings, compute_backoff_ms, decide}

min_mono : (a b c : ℕ) → a ≤ b → min a c ≤ min b c
min_mono a b c h = omega arith

-- The delay before a retry never falls with the attempts and never passes its ceiling.
pub compute_backoff_bounds :
    (config : Settings) (m n : ℕ)
    → m ≤ n
    → (compute_backoff_ms config m ≤ compute_backoff_ms config n)
      × (compute_backoff_ms config n ≤ config.backoff_max_ms)
unfolding compute_backoff_ms
compute_backoff_bounds config m n h = (
  min_mono _ _ config.backoff_max_ms
      (mul-le-mul_left config.backoff_base_ms (pow-le-pow_right (omega arith) (omega arith))),
  omega arith,
)

-- Neither waiting for its first round nor in the hands of the worker.
abbrev pub IsSettled : TriggerJobStatus → Type 0
IsSettled s = (s ≢ queued) × (s ≢ triggering)

module _ {S W : Type 0} (queue : TriggerQueueStore S) (executors : Executors W)
    (config : Settings) where
  -- If fallbacks settle their jobs, so does every round.
  pub decide-IsSettled :
      ((job : TriggerJobRecord) (n : ℕ) (o : TriggerExecutionOutcome) (now : ℕ) (w : W)
        → IsSettled (executors.fall_back job n o now w).0.next_status)
      → (job : TriggerJobRecord) (now : ℕ) (o : TriggerExecutionOutcome) (w : W)
      → IsSettled (decide queue executors config job now o w).0.next_status
  unfolding decide
  decide-IsSettled h job now o w =
      let k = h job (job.attempts + 1) o now w in (λ e. ground arith, λ e. ground arith)

  -- If the fallback does not ask for a timeout, a round decides on timeout only for a retryable
  -- timeout with attempts left, and sets the retry after the backoff.
  pub decide-timeout :
      (job : TriggerJobRecord) (now : ℕ) (o : TriggerExecutionOutcome) (w : W)
      → ((executors.fall_back job (job.attempts + 1) o now w).0.next_status
          ≢ TriggerJobStatus.timeout)
      → (decide queue executors config job now o w).0.next_status ≡ TriggerJobStatus.timeout
      → (job.attempts < job.max_retries)
        × (o.attempt_result ≡ TriggerAttemptResult.timeout)
        × (o.retryable ≡ true)
        × ((decide queue executors config job now o w).0.next_retry_at
            ≡ some (now + compute_backoff_ms config (job.attempts + 1)))
  unfolding decide
  decide-timeout job now o w h e = ground arith
