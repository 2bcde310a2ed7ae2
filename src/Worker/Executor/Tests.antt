-- ===== src/Worker/Executor/Tests.antt =====
-- The executor of triggers at work.
use orkiva.Shared.{
  ℕ, ◌+◌, ◌<◌, Bool, true, false, String, Option, List, [], ◌∷◌, none, some, str_eq, if◌then◌else◌,
  arith, ◌≡◌, refl,
}
use orkiva.Shared.Dict.{get}
use orkiva.Domain.Session.{SessionRecord, managed, idle}
use orkiva.Worker.Jobs.{TriggerJobRecord, triggering}
use orkiva.Worker.Executor.{
  TriggerDeliveryRequest, TriggerDeliveryResult, failure, operator_busy,
  default_runtime_trigger_safeguards, defer_or_time_out, execute,
}
use orkiva.Worker.Executor.Deferral.{IsFair, execute-IsFair, execute_leaves_busy_alone}

abbrev runtime : SessionRecord
runtime = record {
  agent_id = "a";
  workspace_id = "w";
  session_id = "s";
  runtime = "tmux:a";
  management_mode = managed;
  resumable = true;
  status = idle;
  last_heartbeat_at = 5;
  updated_at = 5;
}

abbrev job : String → TriggerJobRecord
job id = record {
  trigger_id = id;
  thread_id = "th_1";
  workspace_id = "w";
  target_agent_id = "a";
  target_session_id = some "s";
  reason = "new_message";
  prompt = "look";
  status = triggering;
  attempts = 0;
  max_retries = 2;
  next_retry_at = none;
  created_at = 3;
  updated_at = 3;
}

abbrev registry : String → String → Option SessionRecord
registry agent workspace = if str_eq agent "a" then some runtime else none

-- A pane at which somebody types; the state counts the calls.
abbrev busy_pane : TriggerDeliveryRequest → ℕ → TriggerDeliveryResult × ℕ
busy_pane request calls = (failure operator_busy, calls + 1)

execute-IsFair_example :
    IsFair registry busy_pane default_runtime_trigger_safeguards
      (job "t_1")
      10
      (execute registry busy_pane default_runtime_trigger_safeguards (job "t_1") 10 [] 0).0
execute-IsFair_example =
    execute-IsFair registry busy_pane default_runtime_trigger_safeguards (job "t_1") 10 [] 0

execute_leaves_busy_alone_example :
    execute registry busy_pane default_runtime_trigger_safeguards
      (job "t_2")
      12
      (execute registry busy_pane default_runtime_trigger_safeguards (job "t_1") 10 [] 0).1
      (execute registry busy_pane default_runtime_trigger_safeguards (job "t_1") 10 [] 0).2
    ≡ (
      defer_or_time_out default_runtime_trigger_safeguards (job "t_2") 12,
      (execute registry busy_pane default_runtime_trigger_safeguards (job "t_1") 10 [] 0).1,
      (execute registry busy_pane default_runtime_trigger_safeguards (job "t_1") 10 [] 0).2,
    )
unfolding orkiva.Shared.starts_with get
execute_leaves_busy_alone_example =
    execute_leaves_busy_alone registry busy_pane default_runtime_trigger_safeguards (job "t_1")
      (job "t_2") runtime 10 12 [] 0 refl refl refl refl refl refl refl (omega arith)
