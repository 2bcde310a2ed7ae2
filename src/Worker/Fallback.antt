-- ===== src/Worker/Fallback.antt =====
-- apps/supervisor-worker/src/runtime-fallback.ts: a failed trigger is resumed or spawned by the
-- command line, with a guard against crash loops. The `details` of outcomes are left out.
pub mod Outcomes
pub mod CrashLoop
mod Tests
use Prim.Native.String
use orkiva.Shared.{
  ℕ, zero, suc, ◌+◌, ◌*◌, Bool, true, false, String, Option, none, some, List, [], ◌∷◌, ◌++◌,
  Result, ok, err, ◌>>=◌, filter, length, str_eq, leb, ◌==◌, or_else, if◌then◌else◌, not,
}
use orkiva.Shared.Dict.{Dict, get, set}
use orkiva.Domain.Errors.{Checked, at, Number}
use orkiva.Domain.Session.{SessionRecord, is_session_stale}
use orkiva.Worker.Jobs.{
  TriggerJobRecord, TriggerJobStatus, fallback_resume, fallback_spawn, FallbackResult,
  resume_succeeded, resume_failed, spawned, TriggerFallbackOutcome,
}

pub record CodexFallbackConfig : Type 0 where
  pub resume_max_attempts : ℕ
  pub stale_after_hours : Number
  pub crash_loop_threshold : ℕ
  pub crash_loop_window_ms : ℕ

pub record CommandExecutionInput : Type 0 where
  pub command : String
  pub args : List String

-- Of a command's result the code reads no more than the exit code, but for `details`.
abbrev pub ExitCode : Type 0
ExitCode = ℕ

pub data ResumeReason : Type 0 where
  allowed no_target_session runtime_not_found runtime_session_mismatch session_stale
        crash_loop_shortcut :
      ResumeReason

-- The state of the executor: when resuming an agent failed.
abbrev pub Failures : Type 0
Failures = Dict (List ℕ)

abbrev pub failure_key : TriggerJobRecord → String
failure_key job = String.◌++◌ job.workspace_id (String.◌++◌ ":" job.target_agent_id)

-- `at >= now - crashLoopWindowMs`, with the subtraction moved to the other side.
abbrev pub is_recent_failure : CodexFallbackConfig → ℕ → ℕ → Bool
is_recent_failure config now failed_at = leb now (failed_at + config.crash_loop_window_ms)

abbrev pub recent_failures : CodexFallbackConfig → TriggerJobRecord → ℕ → Failures → List ℕ
recent_failures config job now failures =
    filter (is_recent_failure config now) (or_else (get (failure_key job) failures) [])

abbrev pub check_crash_loop :
    CodexFallbackConfig → TriggerJobRecord → ℕ → Failures → ResumeReason × Failures
check_crash_loop config job now failures =
    let recent = recent_failures config job now failures in
    (
      (if leb config.crash_loop_threshold (length recent) then crash_loop_shortcut else allowed),
      set (failure_key job) recent failures,
    )

abbrev pub unless_stale : Bool → ResumeReason × Failures → Failures → ResumeReason × Failures
unless_stale stale checked failures = if stale then (session_stale, failures) else checked

unfoldable pub can_attempt_resume :
    CodexFallbackConfig
    → TriggerJobRecord
    → Option SessionRecord
    → ℕ
    → Failures
    → Checked (ResumeReason × Failures)
can_attempt_resume config job runtime now failures = elim job.target_session_id [
  | none ↦ ok (no_target_session, failures)
  | some session_id ↦ elim runtime [
    | none ↦ ok (runtime_not_found, failures)
    | some r ↦
        if not (str_eq r.session_id session_id)
        then ok (runtime_session_mismatch, failures)
        else (is_session_stale r config.stale_after_hours (at now) >>= λ (stale : Bool).
            ok (unless_stale stale (check_crash_loop config job now failures) failures))
  ]
]

unfoldable pub record_resume_failure : TriggerJobRecord → ℕ → Failures → Failures
record_resume_failure job now failures =
    set (failure_key job) (or_else (get (failure_key job) failures) [] ++ now ∷ []) failures

abbrev pub spawn_prompt : TriggerJobRecord → String
spawn_prompt job =
    String.◌++◌ "[THREAD_SUMMARY thread=" (String.◌++◌ job.thread_id (String.◌++◌ "] " job.prompt))

abbrev pub spawn_command : TriggerJobRecord → CommandExecutionInput
spawn_command job = record { command = "codex"; args = "exec" ∷ spawn_prompt job ∷ [] }

abbrev pub resume_command : TriggerJobRecord → String → CommandExecutionInput
resume_command job session_id = record {
  command = "codex";
  args = "exec" ∷ "resume" ∷ session_id ∷ job.prompt ∷ [];
}

abbrev pub spawn_outcome : ExitCode → TriggerFallbackOutcome
spawn_outcome code =
    if code == 0
    then record { attempt_result = spawned; next_status = fallback_spawn; error_code = none }
    else record {
      attempt_result = resume_failed;
      next_status = TriggerJobStatus.failed;
      error_code = some "FALLBACK_SPAWN_FAILED";
    }

abbrev pub resumed_outcome : TriggerFallbackOutcome
resumed_outcome = record {
  attempt_result = resume_succeeded;
  next_status = fallback_resume;
  error_code = none;
}

-- `get_runtime` is the registry's, `run` the command executor's over the processes' state `W`.
module _ {W : Type 0} (run : CommandExecutionInput → W → ExitCode × W) where
  unfoldable pub run_spawn : TriggerJobRecord → W → TriggerFallbackOutcome × W
  run_spawn job w = let (code, w') = run (spawn_command job) w in (spawn_outcome code, w')

  -- The loop over the attempts that are left: whether one succeeded.
  unfoldable pub resume_loop :
      TriggerJobRecord → String → ℕ → ℕ → Failures → W → Bool × Failures × W
  unfolding record_resume_failure
  resume_loop job session_id now zero failures w = (false, failures, w)
  resume_loop job session_id now (suc left) failures w =
      let (code, w') = run (resume_command job session_id) w in
      let rest = resume_loop job session_id now left (record_resume_failure job now failures) w' in
      if code == 0 then (true, failures, w') else rest

  abbrev pub spawn_with : TriggerJobRecord → Failures → W → TriggerFallbackOutcome × Failures × W
  spawn_with job failures w = let (outcome, w') = run_spawn job w in (outcome, failures, w')

  abbrev pub resume_or_spawn :
      CodexFallbackConfig
      → TriggerJobRecord
      → ℕ
      → ResumeReason
      → Failures
      → W
      → TriggerFallbackOutcome × Failures × W
  resume_or_spawn config job now allowed failures w = elim job.target_session_id [
    | none ↦ spawn_with job failures w
    | some session_id ↦
        let (resumed, failures', w') =
          resume_loop job session_id now config.resume_max_attempts failures w in
        let fresh = spawn_with job failures' w' in
        if resumed then (resumed_outcome, failures', w') else fresh
  ]
  resume_or_spawn config job now reason failures w = spawn_with job failures w

  -- `CodexFallbackExecutor.execute`; it throws what the staleness check throws.
  unfoldable pub execute :
      (String → String → Option SessionRecord)
      → CodexFallbackConfig
      → TriggerJobRecord
      → ℕ
      → Failures
      → W
      → Checked (TriggerFallbackOutcome × Failures × W)
  unfolding can_attempt_resume run_spawn resume_loop
  execute get_runtime config job now failures w =
      let runtime = get_runtime job.target_agent_id job.workspace_id in
      can_attempt_resume config job runtime now failures
      >>= λ ((reason, failures') : ResumeReason × Failures).
          ok (resume_or_spawn config job now reason failures' w)
