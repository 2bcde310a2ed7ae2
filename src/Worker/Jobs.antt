-- ===== src/Worker/Jobs.antt =====
-- apps/supervisor-worker/src/trigger-queue.ts: jobs, outcomes, and what the processor needs of a
-- store. Instants are milliseconds since 1970. The `details` of an outcome, which no code reads
-- back, are left out.
use orkiva.Shared.{ℕ, Bool, true, false, String, Option, List, [], ◌∷◌}

pub data TriggerJobStatus : Type 0 where
  queued triggering deferred delivered timeout failed fallback_resume fallback_spawn :
      TriggerJobStatus

pub data TriggerAttemptResult : Type 0 where
  delivered deferred timeout failed fallback_resume_started fallback_resume_succeeded
        fallback_resume_failed fallback_spawned :
      TriggerAttemptResult

pub record TriggerJobRecord : Type 0 where
  pub trigger_id : String
  pub thread_id : String
  pub workspace_id : String
  pub target_agent_id : String
  pub target_session_id : Option String
  pub reason : String
  pub prompt : String
  pub status : TriggerJobStatus
  pub attempts : ℕ
  pub max_retries : ℕ
  pub next_retry_at : Option ℕ
  pub created_at : ℕ
  pub updated_at : ℕ

abbrev pub same_job_status : TriggerJobStatus → TriggerJobStatus → Bool
same_job_status queued queued = true
same_job_status triggering triggering = true
same_job_status TriggerJobStatus.deferred TriggerJobStatus.deferred = true
same_job_status TriggerJobStatus.delivered TriggerJobStatus.delivered = true
same_job_status TriggerJobStatus.timeout TriggerJobStatus.timeout = true
same_job_status TriggerJobStatus.failed TriggerJobStatus.failed = true
same_job_status fallback_resume fallback_resume = true
same_job_status fallback_spawn fallback_spawn = true
same_job_status _ _ = false

abbrev pub due_trigger_statuses : List TriggerJobStatus
due_trigger_statuses = queued ∷ TriggerJobStatus.timeout ∷ TriggerJobStatus.deferred ∷ []

pub record TriggerExecutionOutcome : Type 0 where
  pub attempt_result : TriggerAttemptResult
  pub retryable : Bool
  pub retry_after_ms : Option ℕ
  pub error_code : Option String

-- The results that a fallback may have.
pub data FallbackResult : Type 0 where
  resume_succeeded resume_failed spawned : FallbackResult

abbrev pub attempt_of_fallback : FallbackResult → TriggerAttemptResult
attempt_of_fallback resume_succeeded = fallback_resume_succeeded
attempt_of_fallback resume_failed = fallback_resume_failed
attempt_of_fallback spawned = fallback_spawned

pub record TriggerFallbackOutcome : Type 0 where
  pub attempt_result : FallbackResult
  pub next_status : TriggerJobStatus
  pub error_code : Option String

-- Why a thread is blocked, of which the source stores the text.
pub data BlockReason : Type 0 where
  no_progress_turns : ℕ → BlockReason
  repeated_identical_findings : ℕ → String → BlockReason

-- The argument of `recordAttemptAndTransition`.
pub record Transition : Type 0 where
  pub trigger_id : String
  pub attempt_no : ℕ
  pub attempt_result : TriggerAttemptResult
  pub error_code : Option String
  pub next_status : TriggerJobStatus
  pub next_retry_at : Option ℕ
  pub transitioned_at : ℕ

-- A store over its state `S`.
pub record TriggerQueueStore (S : Type 0) : Type 0 where
  pub claim_due_jobs : String → ℕ → ℕ → S → List TriggerJobRecord × S
  pub record_attempt_and_transition : Transition → S → Option TriggerJobRecord × S
  pub list_dead_letter_jobs : String → ℕ → S → List TriggerJobRecord
  pub get_job_by_id : String → S → Option TriggerJobRecord
  pub mark_thread_blocked : String → ℕ → BlockReason → S → Bool × S

-- The executors over the state `W` of what they drive: runtimes, panes, processes.
pub record Executors (W : Type 0) : Type 0 where
  pub execute : TriggerJobRecord → ℕ → ℕ → W → TriggerExecutionOutcome × W
  pub fall_back :
      TriggerJobRecord → ℕ → TriggerExecutionOutcome → ℕ → W → TriggerFallbackOutcome × W
