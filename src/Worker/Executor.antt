-- ===== src/Worker/Executor.antt =====
-- apps/supervisor-worker/src/runtime-trigger-executor.ts: whether a job is delivered to its
-- runtime, with the operator's quiet window. The `details` of outcomes are left out.
pub mod Deferral
mod Tests
use Prim.Native.String
use orkiva.Shared.{
  ℕ, ◌+◌, Bool, true, false, String, Option, none, some, List, [], ◌∷◌, any, str_eq, starts_with,
  ltb, leb, if◌then◌else◌, not, ◌&&◌,
}
use orkiva.Shared.Dict.{Dict, get, set, delete}
use orkiva.Domain.Session.{SessionRecord, managed, same_mode, offline, same_session_status}
use orkiva.Worker.Jobs.{TriggerJobRecord, TriggerExecutionOutcome, TriggerAttemptResult}

pub data TriggerDeliveryFailureCode : Type 0 where
  trigger_payload_empty trigger_payload_too_large unsupported_runtime operator_busy target_not_found
        pane_dead send_keys_error :
      TriggerDeliveryFailureCode

pub record TriggerDeliveryRequest : Type 0 where
  pub runtime : SessionRecord
  pub trigger_id : String
  pub thread_id : String
  pub reason : String
  pub prompt : String
  pub force_override : Bool

pub data TriggerDeliveryResult : Type 0 where
  success : TriggerDeliveryResult
  failure : TriggerDeliveryFailureCode → TriggerDeliveryResult

abbrev pub code_text : TriggerDeliveryFailureCode → String
code_text trigger_payload_empty = "TRIGGER_PAYLOAD_EMPTY"
code_text trigger_payload_too_large = "TRIGGER_PAYLOAD_TOO_LARGE"
code_text unsupported_runtime = "UNSUPPORTED_RUNTIME"
code_text operator_busy = "OPERATOR_BUSY"
code_text target_not_found = "TARGET_NOT_FOUND"
code_text pane_dead = "PANE_DEAD"
code_text send_keys_error = "SEND_KEYS_ERROR"

-- `RETRYABLE_DELIVERY_FAILURE_CODES`
abbrev pub is_retryable_code : TriggerDeliveryFailureCode → Bool
is_retryable_code target_not_found = true
is_retryable_code pane_dead = true
is_retryable_code send_keys_error = true
is_retryable_code operator_busy = true
is_retryable_code _ = false

abbrev pub force_override_reason_prefixes : List String
force_override_reason_prefixes = "human_override:" ∷ "coordinator_override:" ∷ []

pub record SafeguardConfig : Type 0 where
  pub quiet_window_ms : ℕ
  pub recheck_ms : ℕ
  pub max_defer_ms : ℕ

abbrev pub default_runtime_trigger_safeguards : SafeguardConfig
default_runtime_trigger_safeguards = record {
  quiet_window_ms = 20000;
  recheck_ms = 5000;
  max_defer_ms = 60000;
}

abbrev pub busy_key : SessionRecord → String
busy_key r =
    String.◌++◌ r.workspace_id
      (String.◌++◌ ":" (String.◌++◌ r.agent_id (String.◌++◌ ":" r.runtime)))

abbrev pub failed_with : String → TriggerExecutionOutcome
failed_with code = record {
  attempt_result = TriggerAttemptResult.failed;
  retryable = false;
  retry_after_ms = none;
  error_code = some code;
}

abbrev pub timeout_with : Bool → String → TriggerExecutionOutcome
timeout_with retryable code = record {
  attempt_result = TriggerAttemptResult.timeout;
  retryable = retryable;
  retry_after_ms = none;
  error_code = some code;
}

abbrev pub deferred_for : ℕ → TriggerExecutionOutcome
deferred_for ms = record {
  attempt_result = TriggerAttemptResult.deferred;
  retryable = true;
  retry_after_ms = some ms;
  error_code = some "OPERATOR_BUSY";
}

abbrev pub delivered_outcome : TriggerExecutionOutcome
delivered_outcome = record {
  attempt_result = TriggerAttemptResult.delivered;
  retryable = false;
  retry_after_ms = none;
  error_code = none;
}

-- A job is deferred until it is `maxDeferMs` old.
abbrev pub defer_or_time_out : SafeguardConfig → TriggerJobRecord → ℕ → TriggerExecutionOutcome
defer_or_time_out config job now =
    if leb (job.created_at + config.max_defer_ms) now
    then timeout_with false "DEFER_TIMEOUT"
    else deferred_for config.recheck_ms

abbrev pub is_other_session : Option String → SessionRecord → Bool
is_other_session none r = false
is_other_session (some session_id) r = not (str_eq r.session_id session_id)

-- `now - lastBusyAt < quietWindowMs`, with the subtraction moved to the other side.
abbrev pub is_quiet : SafeguardConfig → ℕ → Option ℕ → Bool
is_quiet config now none = false
is_quiet config now (some last_busy_at) = ltb now (last_busy_at + config.quiet_window_ms)

abbrev pub is_forced : TriggerJobRecord → Bool
is_forced job = any (starts_with job.reason) force_override_reason_prefixes

abbrev pub request_of : TriggerJobRecord → SessionRecord → TriggerDeliveryRequest
request_of job r = record {
  runtime = r;
  trigger_id = job.trigger_id;
  thread_id = job.thread_id;
  reason = job.reason;
  prompt = job.prompt;
  force_override = is_forced job;
}

-- What the executor makes of the adapter's answer; `busy` is `lastBusyAtByRuntime`.
abbrev pub settle_delivery :
    SafeguardConfig
    → TriggerJobRecord
    → SessionRecord
    → ℕ
    → Dict ℕ
    → TriggerDeliveryResult
    → TriggerExecutionOutcome × Dict ℕ
settle_delivery config job r now busy success = (delivered_outcome, delete (busy_key r) busy)
settle_delivery config job r now busy (failure operator_busy) =
    (defer_or_time_out config job now, set (busy_key r) now busy)
settle_delivery config job r now busy (failure code) = (
  (if is_retryable_code code
      then timeout_with true (code_text code)
      else failed_with (code_text code)),
  busy,
)

-- The checks of a runtime before anything is sent; `none` lets the job pass.
abbrev pub refusal : TriggerJobRecord → SessionRecord → Option TriggerExecutionOutcome
refusal job r =
    if is_other_session job.target_session_id r
    then some (failed_with "RUNTIME_SESSION_MISMATCH")
    else if not (same_mode r.management_mode managed)
    then some (failed_with "RUNTIME_UNMANAGED")
    else if same_session_status r.status offline
    then some (timeout_with true "RUNTIME_OFFLINE")
    else none

-- `get_runtime` is the registry's, `deliver` the adapter's over its state `W`.
module _ {W : Type 0} (get_runtime : String → String → Option SessionRecord)
    (deliver : TriggerDeliveryRequest → W → TriggerDeliveryResult × W)
    (config : SafeguardConfig) where
  abbrev pub deliver_to :
      TriggerJobRecord → SessionRecord → ℕ → Dict ℕ → W → TriggerExecutionOutcome × Dict ℕ × W
  deliver_to job r now busy w =
      let (answer, w') = deliver (request_of job r) w in
      let (outcome, busy') = settle_delivery config job r now busy answer in
      if not (is_forced job) && is_quiet config now (get (busy_key r) busy)
      then (defer_or_time_out config job now, busy, w)
      else (outcome, busy', w')

  -- `ManagedRuntimeTriggerJobExecutor.execute`
  unfoldable pub execute : TriggerJobRecord → ℕ → Dict ℕ → W → TriggerExecutionOutcome × Dict ℕ × W
  execute job now busy w = elim (get_runtime job.target_agent_id job.workspace_id) [
    | none ↦ (failed_with "RUNTIME_NOT_FOUND", busy, w)
    | some r ↦ elim (refusal job r) [
      | some outcome ↦ (outcome, busy, w)
      | none ↦ deliver_to job r now busy w
    ]
  ]
