-- ===== src/Worker/Registry/Tests.antt =====
-- The runtime registry at work.
use orkiva.Shared.{
  ℕ, Bool, true, false, String, List, [], ◌∷◌, none, some, Result, ok, err, length, str_eq, ◌≡◌,
  refl, ◌⊎◌,
}
use orkiva.Shared.Dict.{get}
use orkiva.Shared.Dict.Keyed.{IsKeyed}
use orkiva.Domain.Errors.{Checked, Number, nat}
use orkiva.Domain.Session.{SessionRecord, managed, idle, offline}
use orkiva.Worker.Registry.{
  Runtimes, RegisterRuntimeInput, ReconcileRuntimeResult, runtime_key, get_runtime,
  list_workspace_runtimes, in_memory_registry, register_runtime, deregister_runtime,
  reconcile_workspace_runtimes,
}
use orkiva.Worker.Registry.Reconciliation.{
  key_of, runtimes_of, IsSweep, reconcile_workspace_runtimes-IsSweep,
}

abbrev runtime : String → ℕ → SessionRecord
runtime agent t = record {
  agent_id = agent;
  workspace_id = "w";
  session_id = "s";
  runtime = "tmux:a";
  management_mode = managed;
  resumable = true;
  status = idle;
  last_heartbeat_at = t;
  updated_at = t;
}

abbrev runtimes : Runtimes
runtimes = ("a::w", runtime "a" 5) ∷ ("b::w", runtime "b" 4000000) ∷ []

runtimes-IsKeyed : IsKeyed key_of runtimes
unfolding get
runtimes-IsKeyed = (refl, refl, (refl, refl, tt))

reconcile_workspace_runtimes-IsSweep_example :
    (res : ReconcileRuntimeResult) × (m' : Runtimes) × (reconcile_workspace_runtimes
        in_memory_registry "w"
        (nat 1)
        5000000
        runtimes
      ≡ ok (res, m'))
    × IsSweep 1 5000000 (runtimes_of "w" runtimes) 0 runtimes res.transitioned_offline m'
    × (res.checked_runtimes ≡ length (runtimes_of "w" runtimes))
reconcile_workspace_runtimes-IsSweep_example =
    reconcile_workspace_runtimes-IsSweep "w" 0 5000000 runtimes runtimes-IsKeyed

abbrev registration : RegisterRuntimeInput
registration = record {
  agent_id = "c";
  workspace_id = "w";
  session_id = "s";
  runtime = "tmux:a";
  management_mode = managed;
  resumable = true;
  status = none;
  registered_at = none;
}

abbrev registered : Runtimes
registered = ("a::w", runtime "a" 5) ∷ ("b::w", runtime "b" 4000000) ∷ ("c::w", runtime "c" 9) ∷ []

registered_ok :
    register_runtime in_memory_registry 9 registration runtimes ≡ ok (runtime "c" 9, registered)
unfolding register_runtime orkiva.Worker.Registry.upsert_from_heartbeat
    orkiva.Domain.Session.apply_session_heartbeat get orkiva.Domain.Errors.require_date
    orkiva.Domain.Errors.require_non_empty_string orkiva.Shared.trim orkiva.Shared.Dict.set
registered_ok = refl
