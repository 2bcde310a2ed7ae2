-- ===== src/Worker/Registry.antt =====
-- apps/supervisor-worker/src/runtime-registry.ts: the runtimes of agents, kept by heartbeats.
-- `RegisterRuntimeInput` and `HeartbeatRuntimeInput` have the fields of the domain's heartbeat.
-- A call that throws leaves the store as it was.
pub mod Reconciliation
pub mod Upserts
mod Tests
use Prim.Native.String
use orkiva.Shared.{
  ℕ, suc, ◌+◌, Bool, true, false, String, Option, none, some, List, [], ◌∷◌, Result, ok, err, ◌>>=◌,
  filter, length, str_eq, or_else, if◌then◌else◌,
}
use orkiva.Shared.Dict.{Dict, get, set, values}
use orkiva.Domain.Errors.{Checked, Date, at, Number}
use orkiva.Domain.Session.{
  SessionRecord, SessionStatus, ManagementMode, SessionHeartbeatInput, idle, offline,
  same_session_status, apply_session_heartbeat, is_session_stale,
}

-- The argument of `markRuntimeStatus`.
pub record StatusChange : Type 0 where
  pub agent_id : String
  pub workspace_id : String
  pub status : SessionStatus
  pub resumable : Option Bool
  pub updated_at : ℕ

pub record RegisterRuntimeInput : Type 0 where
  pub agent_id : String
  pub workspace_id : String
  pub session_id : String
  pub runtime : String
  pub management_mode : ManagementMode
  pub resumable : Bool
  pub status : Option SessionStatus
  pub registered_at : Option Date

-- A store over its state `S`; `now` is the clock of a call that makes a date itself.
pub record RuntimeRegistryStore (S : Type 0) : Type 0 where
  pub upsert_from_heartbeat : ℕ → SessionHeartbeatInput → S → Checked (SessionRecord × S)
  pub get_runtime : String → String → S → Option SessionRecord
  pub list_workspace_runtimes : String → S → List SessionRecord
  pub mark_runtime_status : StatusChange → S → Option SessionRecord × S

abbrev pub runtime_key : String → String → String
runtime_key agent_id workspace_id = String.◌++◌ agent_id (String.◌++◌ "::" workspace_id)

-- The state of `InMemoryRuntimeRegistryStore`.
abbrev pub Runtimes : Type 0
Runtimes = Dict SessionRecord

unfoldable pub upsert_from_heartbeat :
    ℕ → SessionHeartbeatInput → Runtimes → Checked (SessionRecord × Runtimes)
upsert_from_heartbeat now input runtimes = do
  let key = runtime_key input.agent_id input.workspace_id
  next ← apply_session_heartbeat now (get key runtimes) input
  ok (next, set key next runtimes)

unfoldable pub get_runtime : String → String → Runtimes → Option SessionRecord
get_runtime agent_id workspace_id runtimes = get (runtime_key agent_id workspace_id) runtimes

unfoldable pub list_workspace_runtimes : String → Runtimes → List SessionRecord
list_workspace_runtimes workspace_id runtimes =
    filter (λ (r : SessionRecord). str_eq r.workspace_id workspace_id) (values runtimes)

abbrev pub marked : StatusChange → SessionRecord → SessionRecord
marked change existing = record existing {
  status = change.status;
  resumable = or_else change.resumable existing.resumable;
  updated_at = change.updated_at;
}

unfoldable pub mark_runtime_status : StatusChange → Runtimes → Option SessionRecord × Runtimes
mark_runtime_status change runtimes =
    let key = runtime_key change.agent_id change.workspace_id in
    elim (get key runtimes) [
      | none ↦ (none, runtimes)
      | some existing ↦ (some (marked change existing), set key (marked change existing) runtimes)
    ]

abbrev pub in_memory_registry : RuntimeRegistryStore Runtimes
in_memory_registry = record {
  upsert_from_heartbeat = upsert_from_heartbeat;
  get_runtime = get_runtime;
  list_workspace_runtimes = list_workspace_runtimes;
  mark_runtime_status = mark_runtime_status;
}

pub record ReconcileRuntimeResult : Type 0 where
  pub workspace_id : String
  pub reconciled_at : ℕ
  pub checked_runtimes : ℕ
  pub transitioned_offline : ℕ

abbrev pub went_offline : SessionRecord → ℕ → StatusChange
went_offline runtime now = record {
  agent_id = runtime.agent_id;
  workspace_id = runtime.workspace_id;
  status = offline;
  resumable = none;
  updated_at = now;
}

abbrev pub count_some {ℓ} : {A : Type ℓ} → Option A → ℕ → ℕ
count_some none n = n
count_some (some a) n = n + 1

module _ {S : Type 0} (store : RuntimeRegistryStore S) where
  unfoldable pub register_runtime : ℕ → RegisterRuntimeInput → S → Checked (SessionRecord × S)
  register_runtime now input = store.upsert_from_heartbeat now (record {
    agent_id = input.agent_id;
    workspace_id = input.workspace_id;
    session_id = input.session_id;
    runtime = input.runtime;
    management_mode = input.management_mode;
    resumable = input.resumable;
    status = or_else input.status idle;
    heartbeat_at = some (or_else input.registered_at (at now));
  })

  unfoldable pub heartbeat_runtime : ℕ → SessionHeartbeatInput → S → Checked (SessionRecord × S)
  heartbeat_runtime now input =
      store.upsert_from_heartbeat now
        (record input { heartbeat_at = some (or_else input.heartbeat_at (at now)) })

  -- The loop of `reconcileWorkspaceRuntimes`. If one staleness check throws, the first one does,
  -- before anything is marked.
  unfoldable pub reconcile_each : Number → ℕ → List SessionRecord → ℕ → S → Checked (ℕ × S)
  reconcile_each hours now [] count s = ok (count, s)
  reconcile_each hours now (runtime ∷ rest) count s =
      let skipped = reconcile_each hours now rest count s in
      let (updated, s') = store.mark_runtime_status (went_offline runtime now) s in
      let taken = reconcile_each hours now rest (count_some updated count) s' in
      let checked = is_session_stale runtime hours (at now) >>= λ (stale : Bool).
      if stale then taken else skipped in
      if same_session_status runtime.status offline then skipped else checked

  unfoldable pub reconcile_workspace_runtimes :
      String → Number → ℕ → S → Checked (ReconcileRuntimeResult × S)
  unfolding reconcile_each
  reconcile_workspace_runtimes workspace_id hours now s = do
    let runtimes = store.list_workspace_runtimes workspace_id s
    (count, s') ← reconcile_each hours now runtimes 0 s
    ok (
      record {
        workspace_id = workspace_id;
        reconciled_at = now;
        checked_runtimes = length runtimes;
        transitioned_offline = count;
      },
      s',
    )

  unfoldable pub deregister_runtime : ℕ → String → String → Option ℕ → S → Option SessionRecord × S
  deregister_runtime now agent_id workspace_id deregistered_at = store.mark_runtime_status (record {
    agent_id = agent_id;
    workspace_id = workspace_id;
    status = offline;
    resumable = some false;
    updated_at = or_else deregistered_at now;
  })
