-- ===== src/Bridge/Invariants/Jobs.antt =====
-- The trigger jobs of the bridge of apps/bridge-api/src under every request.
use orkiva.Shared.{ℕ, Bool, String, Option, some, ◌≡◌, inl, inr, Option-cases, arith, str_eq_iff}
use orkiva.Shared.Dict.{get, get-set}
use orkiva.Domain.Message.{Json}
use orkiva.Worker.Jobs.{TriggerJobRecord}
use orkiva.Bridge.Requests.{Request}
use orkiva.Bridge.TriggerStore.{TriggerStore, create_or_reuse_trigger_job}
use orkiva.Bridge.Dependencies.{Settings}
use orkiva.Bridge.Memory.{BridgeState, memory}
use orkiva.Bridge.Handlers.{McpCall, handle}
use orkiva.Bridge.Invariants.{
  Write, tick, next_id, created, updated, appended, acknowledged, beaten, queued, audited,
  handle-respects,
}

abbrev pub KeepsJobs : TriggerStore → TriggerStore → Type 0
KeepsJobs before after =
    (trigger_id : String) (job : TriggerJobRecord)
    → get trigger_id before ≡ some job
    → get trigger_id after ≡ some job

create_or_reuse_trigger_job-KeepsJobs :
    (job : TriggerJobRecord) (jobs : TriggerStore)
    → KeepsJobs jobs (create_or_reuse_trigger_job job jobs).1
unfolding create_or_reuse_trigger_job
create_or_reuse_trigger_job-KeepsJobs job jobs trigger_id old h =
    elim (Option-cases (get job.trigger_id jobs)) [
      | inl absent ↦
          rw (create_or_reuse_trigger_job, absent)
            (ground (
              arith,
              get-set job.trigger_id trigger_id job jobs,
              str_eq_iff job.trigger_id trigger_id,
            ))
      | inr (existing, here) ↦ rw (create_or_reuse_trigger_job, here) h
    ]

Write-KeepsJobs : (s t : BridgeState) → Write s t → KeepsJobs s.triggers t.triggers
Write-KeepsJobs s _ (tick _) k j h = h
Write-KeepsJobs s _ (next_id _) k j h = h
Write-KeepsJobs s _ (created _ _ _ _ _ _) k j h = h
Write-KeepsJobs s _ (updated _ _ _ _ _ _ _ _) k j h = h
Write-KeepsJobs s _ (appended _ _ _ _ _ _) k j h = h
Write-KeepsJobs s _ (acknowledged _ _) k j h = h
Write-KeepsJobs s _ (beaten _ _ _ _ _ _) k j h = h
Write-KeepsJobs s _ (queued _ job) k j h =
    create_or_reuse_trigger_job-KeepsJobs job s.triggers k j h
Write-KeepsJobs s _ (audited _ _) k j h = h

-- No request changes or removes a trigger job that is stored, whatever its method and payload.
pub handle-KeepsJobs :
    (time : ℕ → ℕ) (id : ℕ → String) (deep_equal : Option Json → Option Json → Bool)
    (settings : Settings) (call : McpCall) (request : Request) (s : BridgeState)
    → KeepsJobs s.triggers (handle deep_equal (memory time id) settings call request s).1.triggers
handle-KeepsJobs time id deep_equal settings call request s =
    handle-respects {R = λ s t. KeepsJobs s.triggers t.triggers}
      (record { still = λ s k j h. h; chain = λ s t u a b k j h. b k j (a k j h) }) Write-KeepsJobs
      time id deep_equal settings call request s
