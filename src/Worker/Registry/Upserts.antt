-- ===== src/Worker/Registry/Upserts.antt =====
-- apps/supervisor-worker/src/runtime-registry.ts: what registering and deregistering a runtime
-- leave in the in-memory store.
use orkiva.Shared.{
  ℕ, false, String, Option, none, some, ok, >>=-eq-ok, str_eq, or_else, ◌≡◌, refl, ◌⊎◌, inl, inr,
  Option-cases,
}
use orkiva.Shared.Dict.{get, set, get-set_ne, get-set_self}
use orkiva.Domain.Session.{SessionRecord, offline, apply_session_heartbeat}
use orkiva.Worker.Registry.{
  Runtimes, RegisterRuntimeInput, runtime_key, upsert_from_heartbeat, get_runtime, marked,
  mark_runtime_status, in_memory_registry, register_runtime, deregister_runtime,
}

-- A runtime that is registered is found under its agent and workspace, as the record returned,
-- and no other key changes.
pub register_runtime_found :
    (now : ℕ) (input : RegisterRuntimeInput) (m : Runtimes) {r : SessionRecord} {m' : Runtimes}
    → register_runtime in_memory_registry now input m ≡ ok (r, m')
    → (get_runtime input.agent_id input.workspace_id m' ≡ some r)
      × ((agent workspace : String)
          → str_eq (runtime_key input.agent_id input.workspace_id) (runtime_key agent workspace)
            ≡ false
          → get_runtime agent workspace m' ≡ get_runtime agent workspace m)
unfolding register_runtime upsert_from_heartbeat get_runtime
register_runtime_found now input m {r} {m'} e =
    let k = runtime_key input.agent_id input.workspace_id in
    let (next, _, e') = >>=-eq-ok (apply_session_heartbeat now (get k m) _) _ e in
    let set_r : m' ≡ set k r m = cc in
    (
      rw set_r (get-set_self k r m),
      λ agent workspace other. rw set_r (get-set_ne k (runtime_key agent workspace) r m other),
    )

-- A runtime that is deregistered is offline and not resumable; an unknown one changes nothing.
pub deregister_runtime_found :
    (now : ℕ) (agent_id workspace_id : String) (deregistered_at : Option ℕ) (m : Runtimes)
    → ((get_runtime agent_id workspace_id m ≡ none)
        × (deregister_runtime in_memory_registry now agent_id workspace_id deregistered_at m
            ≡ (none, m)))
      ⊎ ((r : SessionRecord) × (r.status ≡ offline)
          × (r.resumable ≡ false)
          × ((deregister_runtime in_memory_registry now agent_id workspace_id deregistered_at m).0
              ≡ some r)
          × (get_runtime agent_id workspace_id
                (deregister_runtime in_memory_registry now agent_id workspace_id deregistered_at
                  m).1
              ≡ some r))
unfolding deregister_runtime mark_runtime_status get_runtime
deregister_runtime_found now agent_id workspace_id deregistered_at m =
    let k = runtime_key agent_id workspace_id in
    elim (Option-cases (get k m)) [
      | inl absent ↦ inl (absent, rw (absent, deregister_runtime, mark_runtime_status) refl)
      | inr (old, here) ↦
          let r =
            marked
              (record {
                agent_id = agent_id;
                workspace_id = workspace_id;
                status = offline;
                resumable = some false;
                updated_at = or_else deregistered_at now;
              })
              old in
          inr (
            r,
            refl,
            refl,
            rw (here, deregister_runtime, mark_runtime_status) refl,
            rw (here, deregister_runtime, mark_runtime_status) (get-set_self k r m),
          )
    ]
