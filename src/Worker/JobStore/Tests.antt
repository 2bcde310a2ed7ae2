-- ===== src/Worker/JobStore/Tests.antt =====
-- The queue's store at work.
use orkiva.Shared.{ℕ, String, List, [], ◌∷◌, none, some, All, ◌≡◌, ◌≢◌, refl}
use orkiva.Worker.Jobs.{
  TriggerJobRecord, TriggerJobStatus, TriggerAttemptResult, Transition, queued, triggering,
}
use orkiva.Worker.JobStore.{JobStore, claim_due_jobs, record_attempt_and_transition}
use orkiva.Worker.JobStore.Claims.{IsWellKept, claim_due_jobs_once}
use orkiva.Worker.JobStore.Oldest.{IsClaim, claim_due_jobs-IsClaim}
use orkiva.Worker.JobStore.Transitions.{record_twice}

abbrev job : String → TriggerJobStatus → ℕ → TriggerJobRecord
job id status created = record {
  trigger_id = id;
  thread_id = "th_1";
  workspace_id = "w";
  target_agent_id = "a";
  target_session_id = none;
  reason = "new_message";
  prompt = "look";
  status = status;
  attempts = 0;
  max_retries = 2;
  next_retry_at = none;
  created_at = created;
  updated_at = created;
}

abbrev store : JobStore
store = record {
  jobs = ("t_1", job "t_1" queued 3) ∷ ("t_2", job "t_2" queued 1) ∷ [];
  attempts_by_trigger = [];
  blocked_threads = [];
}

store_IsWellKept : IsWellKept store
unfolding orkiva.Shared.Dict.get
store_IsWellKept = (refl, refl, (refl, refl, tt))

claim_due_jobs-IsClaim_example : IsClaim "w" 1 5 store (claim_due_jobs "w" 1 5 store).0
claim_due_jobs-IsClaim_example = claim_due_jobs-IsClaim "w" 1 5 store store_IsWellKept

claim_due_jobs_once_example :
    All
      (λ a.
        All
          (λ b. a.trigger_id ≢ b.trigger_id)
          (claim_due_jobs "w" 2 6 (claim_due_jobs "w" 1 5 store).1).0)
      (claim_due_jobs "w" 1 5 store).0
claim_due_jobs_once_example = claim_due_jobs_once "w" "w" 1 2 5 6 store store_IsWellKept

abbrev transition : Transition
transition = record {
  trigger_id = "t_2";
  attempt_no = 1;
  attempt_result = TriggerAttemptResult.delivered;
  error_code = none;
  next_status = TriggerJobStatus.delivered;
  next_retry_at = none;
  transitioned_at = 6;
}

delivered≢triggering : TriggerJobStatus.delivered ≢ triggering
delivered≢triggering e = cc

record_twice_example :
    record_attempt_and_transition transition
      (record_attempt_and_transition transition (claim_due_jobs "w" 1 5 store).1).1
    ≡ (none, (record_attempt_and_transition transition (claim_due_jobs "w" 1 5 store).1).1)
record_twice_example =
    record_twice transition transition (claim_due_jobs "w" 1 5 store).1 refl delivered≢triggering
