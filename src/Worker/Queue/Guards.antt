-- ===== src/Worker/Queue/Guards.antt =====
-- The guards of `TriggerQueueProcessor` in apps/supervisor-worker/src/trigger-queue.ts: its settings
-- and state, the backoff, the rate limit, and the guard against loops.
use orkiva.Shared.{
  ℕ, ◌+◌, ◌-◌, ◌*◌, ◌^◌, min, max, Bool, true, false, String, Option, none, some, List, [], ◌∷◌,
  ◌++◌, filter, length, head?, str_eq, leb, or_else, if◌then◌else◌, ◌||◌,
}
use Prim.Native.String
use orkiva.Shared.Dict.{Dict, get, set, delete}
use orkiva.Worker.Jobs.{
  TriggerJobStatus, TriggerAttemptResult, fallback_resume_succeeded, fallback_resume_failed,
  fallback_spawned, TriggerJobRecord, TriggerExecutionOutcome, TriggerFallbackOutcome,
  resume_failed, BlockReason, no_progress_turns, repeated_identical_findings,
}

abbrev pub is_delivered : TriggerAttemptResult → Bool
is_delivered TriggerAttemptResult.delivered = true
is_delivered _ = false

abbrev pub is_deferred : TriggerAttemptResult → Bool
is_deferred TriggerAttemptResult.deferred = true
is_deferred _ = false

abbrev pub is_resume_succeeded : TriggerAttemptResult → Bool
is_resume_succeeded fallback_resume_succeeded = true
is_resume_succeeded _ = false

abbrev pub is_resume_failed : TriggerAttemptResult → Bool
is_resume_failed fallback_resume_failed = true
is_resume_failed _ = false

abbrev pub is_spawned : TriggerAttemptResult → Bool
is_spawned fallback_spawned = true
is_spawned _ = false

-- `delivered`, `fallback_resume_succeeded` or `fallback_spawned`.
abbrev pub is_progress : TriggerAttemptResult → Bool
is_progress r = is_delivered r || is_resume_succeeded r || is_spawned r

abbrev pub to_transition_status_for_retry : TriggerAttemptResult → TriggerJobStatus
to_transition_status_for_retry TriggerAttemptResult.deferred = TriggerJobStatus.deferred
to_transition_status_for_retry TriggerAttemptResult.timeout = TriggerJobStatus.timeout
to_transition_status_for_retry _ = TriggerJobStatus.failed

pub record Safeguards : Type 0 where
  pub defer_recheck_ms : ℕ
  pub rate_limit_per_minute : ℕ
  pub loop_max_turns : ℕ
  pub loop_max_repeated_findings : ℕ

-- The constructor's settings.
pub record Settings : Type 0 where
  pub safeguards : Safeguards
  pub backoff_base_ms : ℕ
  pub backoff_max_ms : ℕ

abbrev pub default_safeguards : Safeguards
default_safeguards = record {
  defer_recheck_ms = 5000;
  rate_limit_per_minute = 10;
  loop_max_turns = 20;
  loop_max_repeated_findings = 3;
}

pub record LoopState : Type 0 where
  pub no_progress_turns : ℕ
  pub repeated_error_code : Option String
  pub repeated_finding_cycles : ℕ

pub record Processor : Type 0 where
  pub rate_limit_events : Dict (List ℕ)
  pub thread_loop_state : Dict LoopState

abbrev pub new_processor : Processor
new_processor = record { rate_limit_events = []; thread_loop_state = [] }

-- `NoopTriggerFallbackExecutor.execute`
unfoldable pub noop_fallback : TriggerExecutionOutcome → TriggerFallbackOutcome
noop_fallback initial = record {
  attempt_result = resume_failed;
  next_status = TriggerJobStatus.failed;
  error_code = some (or_else initial.error_code "FALLBACK_NOT_IMPLEMENTED");
}

-- `NotImplementedTriggerJobExecutor.execute`
unfoldable pub not_implemented_outcome : TriggerExecutionOutcome
not_implemented_outcome = record {
  attempt_result = TriggerAttemptResult.timeout;
  retryable = true;
  retry_after_ms = none;
  error_code = some "PENDING_PTY_ADAPTER";
}

unfoldable pub compute_backoff_ms : Settings → ℕ → ℕ
compute_backoff_ms config attempt_no =
    min (config.backoff_base_ms * 2 ^ (attempt_no - 1)) config.backoff_max_ms

abbrev pub rate_limit_key : TriggerJobRecord → String
rate_limit_key job =
    String.◌++◌ job.workspace_id
      (String.◌++◌ ":" (String.◌++◌ job.thread_id (String.◌++◌ ":" job.target_agent_id)))

-- `event >= now - 60_000`, with the subtraction moved to the other side.
abbrev pub is_recent : ℕ → ℕ → Bool
is_recent now event = leb now (event + 60000)

-- `oldest.getTime() + 60_000 - now`, which is not negative for a recent event.
abbrev pub wait_for : Settings → ℕ → Option ℕ → ℕ
wait_for config now none = config.safeguards.defer_recheck_ms
wait_for config now (some oldest) = oldest + 60000 - now

abbrev pub rate_limited : Settings → ℕ → List ℕ → TriggerExecutionOutcome
rate_limited config now recent = record {
  attempt_result = TriggerAttemptResult.deferred;
  retryable = true;
  retry_after_ms =
      some (max (wait_for config now (head? recent)) config.safeguards.defer_recheck_ms);
  error_code = some "TRIGGER_RATE_LIMITED";
}

unfoldable pub apply_rate_limit :
    Settings → TriggerJobRecord → ℕ → Processor → Option TriggerExecutionOutcome × Processor
apply_rate_limit config job now p =
    let key = rate_limit_key job in
    let recent = filter (is_recent now) (or_else (get key p.rate_limit_events) []) in
    if leb config.safeguards.rate_limit_per_minute (length recent)
    then (
      some (rate_limited config now recent),
      record p { rate_limit_events = set key recent p.rate_limit_events },
    )
    else (none, record p { rate_limit_events = set key (recent ++ now ∷ []) p.rate_limit_events })

abbrev pub fresh_loop_state : LoopState
fresh_loop_state = record {
  no_progress_turns = 0;
  repeated_error_code = none;
  repeated_finding_cycles = 0;
}

abbrev pub is_code : Option String → String → Bool
is_code none code = false
is_code (some c) code = str_eq c code

abbrev pub error_code_of : TriggerExecutionOutcome → String
error_code_of outcome = or_else outcome.error_code "UNKNOWN_TRIGGER_ERROR"

abbrev pub next_loop_state : LoopState → String → LoopState
next_loop_state previous code = record {
  no_progress_turns = previous.no_progress_turns + 1;
  repeated_error_code = some code;
  repeated_finding_cycles =
      if is_code previous.repeated_error_code code then previous.repeated_finding_cycles + 1 else 1;
}

-- `shouldAutoBlock` with its `reason`, or `none`.
abbrev pub block_reason : Settings → LoopState → String → Option BlockReason
block_reason config next code =
    if leb config.safeguards.loop_max_turns next.no_progress_turns
    then some (no_progress_turns next.no_progress_turns)
    else if leb config.safeguards.loop_max_repeated_findings next.repeated_finding_cycles
    then some (repeated_identical_findings next.repeated_finding_cycles code)
    else none

unfoldable pub update_loop_state :
    Settings → String → TriggerExecutionOutcome → Processor → Option BlockReason × Processor
update_loop_state config thread_id outcome p =
    let code = error_code_of outcome in
    let previous = or_else (get thread_id p.thread_loop_state) fresh_loop_state in
    let next = next_loop_state previous code in
    if is_progress outcome.attempt_result
    then (none, record p { thread_loop_state = delete thread_id p.thread_loop_state })
    else (
      block_reason config next code,
      record p { thread_loop_state = set thread_id next p.thread_loop_state },
    )
