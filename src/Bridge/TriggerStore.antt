-- ===== src/Bridge/TriggerStore.antt =====
-- `InMemoryTriggerStore` of apps/bridge-api/src/trigger-store.ts. Its job record has the fields of
-- the worker's.
use orkiva.Shared.{Bool, true, false, none, some}
use orkiva.Shared.Dict.{Dict, get, set}
use orkiva.Worker.Jobs.{TriggerJobRecord}

abbrev pub TriggerStore : Type 0
TriggerStore = Dict TriggerJobRecord

pub record CreateOrReuseTriggerJobResult : Type 0 where
  pub job : TriggerJobRecord
  pub created : Bool

unfoldable pub create_or_reuse_trigger_job :
    TriggerJobRecord → TriggerStore → CreateOrReuseTriggerJobResult × TriggerStore
create_or_reuse_trigger_job input jobs = elim (get input.trigger_id jobs) [
  | some existing ↦ (record { job = existing; created = false }, jobs)
  | none ↦ (record { job = input; created = true }, set input.trigger_id input jobs)
]
