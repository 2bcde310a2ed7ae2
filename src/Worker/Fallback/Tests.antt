-- ===== src/Worker/Fallback/Tests.antt =====
-- The fallback at work.
use orkiva.Shared.{
  ℕ, ◌+◌, ◌≤◌, Bool, true, false, String, Option, List, [], ◌∷◌, none, some, ok, arith, ◌≡◌, ◌≢◌,
  refl,
}
use orkiva.Domain.Errors.{nat}
use orkiva.Domain.Session.{SessionRecord, managed, idle}
use orkiva.Worker.Jobs.{
  TriggerJobRecord, TriggerJobStatus, triggering, TriggerFallbackOutcome, resume_failed,
  resume_succeeded,
}
use orkiva.Worker.Fallback.{
  CodexFallbackConfig, CommandExecutionInput, ExitCode, allowed, Failures, can_attempt_resume,
  run_spawn, execute,
}
use orkiva.Worker.Fallback.Outcomes.{IsSettled, execute-IsSettled}
use orkiva.Worker.Fallback.CrashLoop.{execute_after_crash}

abbrev runtime : SessionRecord
runtime = record {
  agent_id = "a";
  workspace_id = "w";
  session_id = "s";
  runtime = "tmux:a";
  management_mode = managed;
  resumable = true;
  status = idle;
  last_heartbeat_at = 5;
  updated_at = 5;
}

abbrev job : TriggerJobRecord
job = record {
  trigger_id = "t_1";
  thread_id = "th_1";
  workspace_id = "w";
  target_agent_id = "a";
  target_session_id = some "s";
  reason = "new_message";
  prompt = "look";
  status = triggering;
  attempts = 0;
  max_retries = 2;
  next_retry_at = none;
  created_at = 3;
  updated_at = 3;
}

abbrev registry : String → String → Option SessionRecord
registry agent workspace = some runtime

abbrev config : CodexFallbackConfig
config = record {
  resume_max_attempts = 2;
  stale_after_hours = nat 12;
  crash_loop_threshold = 2;
  crash_loop_window_ms = 900000;
}

-- A machine on which each command fails; the state counts the commands.
abbrev failing : CommandExecutionInput → ℕ → ExitCode × ℕ
failing command runs = (1, runs + 1)

abbrev no_spawn : TriggerFallbackOutcome
no_spawn = record {
  attempt_result = resume_failed;
  next_status = TriggerJobStatus.failed;
  error_code = some "FALLBACK_SPAWN_FAILED";
}

abbrev noted : Failures
noted = ("w:a", 10 ∷ 10 ∷ []) ∷ []

first : execute failing registry config job 10 [] 0 ≡ ok (no_spawn, noted, 3)
unfolding execute orkiva.Domain.Session.is_session_stale orkiva.Shared.Dict.get
    orkiva.Shared.Dict.set
first = refl

second : execute failing registry config job 20 noted 3 ≡ ok (no_spawn, noted, 4)
unfolding execute orkiva.Domain.Session.is_session_stale orkiva.Shared.Dict.get
    orkiva.Shared.Dict.set
second = refl

may : can_attempt_resume config job (registry "a" "w") 10 [] ≡ ok (allowed, ("w:a", []) ∷ [])
unfolding can_attempt_resume orkiva.Domain.Session.is_session_stale orkiva.Shared.Dict.get
    orkiva.Shared.Dict.set
may = refl

not_resumed : no_spawn.attempt_result ≢ resume_succeeded
not_resumed e = cc

execute-IsSettled_example :
    (o : TriggerFallbackOutcome) × (f : Failures) × (w' : ℕ) × (execute failing registry config job
        10 [] 0
      ≡ ok (o, f, w'))
    × IsSettled o
execute-IsSettled_example = execute-IsSettled failing registry config 11 job 10 [] 0 refl

execute_after_crash_example : (no_spawn, 4) ≡ run_spawn failing job 3
execute_after_crash_example =
    execute_after_crash failing registry config job job 10 20 [] 0 {f0 = ("w:a", []) ∷ []}
      {o = no_spawn} {f = noted} {w1 = 3} {o' = no_spawn} {f' = noted} {w2 = 4} may first
      not_resumed (omega arith) refl (omega arith) second
