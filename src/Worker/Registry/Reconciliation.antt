-- ===== src/Worker/Registry/Reconciliation.antt =====
-- apps/supervisor-worker/src/runtime-registry.ts, `reconcileWorkspaceRuntimes` over the in-memory
-- store.
use orkiva.Shared.{
  suc, Bool-cases, ℕ, ◌+◌, ◌*◌, ltb, Bool, true, false, String, some, List, [], ◌∷◌, ok, filter,
  length, str_eq, str_eq_iff, if◌then◌else◌, not, ◌&&◌, All, All-of_mems, All-filter, ◌≡◌, refl,
  ◌⊎◌, arith, inl, inr, ◌∙◌,
}
use orkiva.Shared.Dict.{get, set, values, get-set_ne, get-set_self}
use orkiva.Shared.Dict.Keyed.{
  IsKeyed, IsApart, HasDistinctIds, get_of_mem-values, values-HasDistinctIds, filter-HasDistinctIds,
}
use orkiva.Domain.Errors.{at, nat}
use orkiva.Domain.Session.{SessionRecord, offline, same_session_status, is_session_stale}
use orkiva.Domain.Session.Lookup.{is_session_stale_iff, is_session_stale_returns}
use orkiva.Worker.Registry.{
  count_some, Runtimes, runtime_key, list_workspace_runtimes, mark_runtime_status,
  in_memory_registry, ReconcileRuntimeResult, went_offline, reconcile_each,
  reconcile_workspace_runtimes,
}

abbrev pub key_of : SessionRecord → String
key_of r = runtime_key r.agent_id r.workspace_id

-- A runtime is swept when it is not offline and its last heartbeat is more than so many hours ago.
abbrev pub is_swept : ℕ → ℕ → SessionRecord → Bool
is_swept hours now r =
    not (same_session_status r.status offline) && ltb (r.last_heartbeat_at + hours * 3600000) now

-- A runtime after the sweep: offline since now, and otherwise as it was.
abbrev pub after : ℕ → ℕ → SessionRecord → SessionRecord
after hours now r =
    if is_swept hours now r then record r { status = offline; updated_at = now } else r

-- The check of the code has the answer of the test.
is_session_stale-eq_ltb :
    (r : SessionRecord) (k now : ℕ)
    → is_session_stale r (nat (suc k)) (at now)
      ≡ ok (ltb (r.last_heartbeat_at + suc k * 3600000) now)
is_session_stale-eq_ltb r k now =
    let (b, answer) = is_session_stale_returns r k now in
    elim (Bool-cases b) [
      | inl e ↦ ground (arith, is_session_stale_iff r k now)
      | inr e ↦ ground (arith, is_session_stale_iff r k now)
    ]

abbrev pub IsStored : Runtimes → SessionRecord → Type 0
IsStored m r = get (key_of r) m ≡ some r

abbrev pub IsAfter : ℕ → ℕ → Runtimes → SessionRecord → Type 0
IsAfter hours now m r = get (key_of r) m ≡ some (after hours now r)

-- A key that no runtime of the list has.
abbrev pub IsOther : String → SessionRecord → Type 0
IsOther k r = str_eq (key_of r) k ≡ false

mark_stored :
    (now : ℕ) (r : SessionRecord) (m : Runtimes)
    → IsStored m r
    → mark_runtime_status (went_offline r now) m ≡ (
      some (record r { status = offline; updated_at = now }),
      set (key_of r) (record r { status = offline; updated_at = now }) m,
    )
unfolding mark_runtime_status
mark_stored now r m h = rw (h, mark_runtime_status) refl

reconcile_each-cons :
    (k now : ℕ) (r : SessionRecord) (rs : List SessionRecord) (n : ℕ) (m : Runtimes)
    {res : ℕ × Runtimes}
    → IsStored m r
    → reconcile_each in_memory_registry (nat (suc k)) now (r ∷ rs) n m ≡ ok res
    → ((is_swept (suc k) now r ≡ false)
        × (reconcile_each in_memory_registry (nat (suc k)) now rs n m ≡ ok res))
      ⊎ ((is_swept (suc k) now r ≡ true)
          × (reconcile_each in_memory_registry
                (nat (suc k))
                now
                rs
                (n + 1)
                (set (key_of r) (record r { status = offline; updated_at = now }) m)
              ≡ ok res))
unfolding reconcile_each
reconcile_each-cons k now r rs n m h e =
    let e' = rw (mark_stored now r m h) at e in ground (arith, e', is_session_stale-eq_ltb r k now)

-- What a sweep leaves: each runtime of the list is as it should be, every other key is untouched,
-- and the count is of those swept.
pub record IsSweep (hours now : ℕ) (rs : List SessionRecord) (n : ℕ) (m : Runtimes) (n' : ℕ)
    (m' : Runtimes) : Type 0 where
  pub each : All (IsAfter hours now m') rs
  pub others : (k : String) → All (IsOther k) rs → get k m' ≡ get k m
  pub counted : n' ≡ n + length (filter (is_swept hours now) rs)

IsStored-set :
    (r : SessionRecord) (v : SessionRecord) (m : Runtimes) (rs : List SessionRecord)
    → All (IsApart key_of r) rs
    → All (IsStored m) rs
    → All (IsStored (set (key_of r) v m)) rs
IsStored-set r v m [] a h = tt
IsStored-set r v m (x ∷ rs) (p, a) (e, h) =
    (get-set_ne (key_of r) (key_of x) v m p ∙ e, IsStored-set r v m rs a h)

apart_IsOther :
    (r : SessionRecord) (rs : List SessionRecord)
    → All (IsApart key_of r) rs
    → All (IsOther (key_of r)) rs
apart_IsOther r [] a = tt
apart_IsOther r (x ∷ rs) (p, a) = (
  ground (arith, str_eq_iff (key_of r) (key_of x), str_eq_iff (key_of x) (key_of r)),
  apart_IsOther r rs a,
)

reconcile_each-IsSweep :
    (k now : ℕ) (rs : List SessionRecord) (n : ℕ) (m : Runtimes) {n' : ℕ} {m' : Runtimes}
    → HasDistinctIds key_of rs
    → All (IsStored m) rs
    → reconcile_each in_memory_registry (nat (suc k)) now rs n m ≡ ok (n', m')
    → IsSweep (suc k) now rs n m n' m'
unfolding reconcile_each
reconcile_each-IsSweep k now [] n m {n'} {m'} d h e = record {
  each = tt;
  others = λ key _. ground arith;
  counted = ground arith;
}
reconcile_each-IsSweep k now (r ∷ rs) n m {n'} {m'} (a, d) (here, h) e =
    elim (reconcile_each-cons k now r rs n m here e) [
      | inl (kept, e') ↦
          let s = reconcile_each-IsSweep k now rs n m {n' = n'} {m' = m'} d h e' in
          record {
            each = (rw kept (s.others (key_of r) (apart_IsOther r rs a) ∙ here), s.each);
            others = λ key (_, o). s.others key o;
            counted = rw kept s.counted;
          }
      | inr (swept, e') ↦
          let v = record r { status = offline; updated_at = now } in
          let s =
            reconcile_each-IsSweep k now rs (n + 1) (set (key_of r) v m) {n' = n'} {m' = m'} d
              (IsStored-set r v m rs a h) e' in
          record {
            each = (
              rw swept (s.others (key_of r) (apart_IsOther r rs a) ∙ get-set_self (key_of r) v m),
              s.each,
            );
            others = λ key (p, o). s.others key o ∙ get-set_ne (key_of r) key v m p;
            counted = rw swept (let c = s.counted in omega (arith, c));
          }
    ]

listed_IsStored :
    (workspace_id : String) (m : Runtimes)
    → IsKeyed key_of m
    → All (IsStored m) (list_workspace_runtimes workspace_id m)
unfolding list_workspace_runtimes
listed_IsStored workspace_id m h =
    All-filter (IsStored m) _ (values m)
      (All-of_mems (IsStored m) (values m) (λ r i. get_of_mem-values key_of m {v = r} h i))

listed-HasDistinctIds :
    (workspace_id : String) (m : Runtimes)
    → IsKeyed key_of m
    → HasDistinctIds key_of (list_workspace_runtimes workspace_id m)
unfolding list_workspace_runtimes
listed-HasDistinctIds workspace_id m h =
    filter-HasDistinctIds key_of _ (values m) (values-HasDistinctIds key_of m h)

-- With a whole positive number of hours the loop comes to its end.
reconcile_each_returns :
    (k now : ℕ) (rs : List SessionRecord) (n : ℕ) (m : Runtimes)
    → (r : ℕ × Runtimes) × (reconcile_each in_memory_registry (nat (suc k)) now rs n m ≡ ok r)
unfolding reconcile_each
reconcile_each_returns k now [] n m = (_, refl)
reconcile_each_returns k now (r ∷ rs) n m =
    let (updated, m') = mark_runtime_status (went_offline r now) m in
    let (b, answer) = is_session_stale_returns r k now in
    elim (Bool-cases (same_session_status r.status offline)) [
      | inl off ↦ rw off (reconcile_each_returns k now rs n m)
      | inr on ↦ elim (Bool-cases b) [
        | inl stale ↦
            rw (on, answer, stale) (reconcile_each_returns k now rs (count_some updated n) m')
        | inr fresh ↦ rw (on, answer, fresh) (reconcile_each_returns k now rs n m)
      ]
    ]

-- The runtimes of a workspace, as they stand in the store.
abbrev pub runtimes_of : String → Runtimes → List SessionRecord
runtimes_of workspace_id m = filter (λ r. str_eq r.workspace_id workspace_id) (values m)

-- With a whole positive number of hours, reconciling a workspace over a keyed store returns. Every
-- runtime of the workspace is then stored as it was, but offline since now where it was not offline
-- and its last heartbeat lies more than those hours back; every key that none of them has is as it
-- was; and the result counts those that were put offline, and those of the workspace.
pub reconcile_workspace_runtimes-IsSweep :
    (workspace_id : String) (k now : ℕ) (m : Runtimes)
    → IsKeyed key_of m
    → (res : ReconcileRuntimeResult) × (m' : Runtimes) × (reconcile_workspace_runtimes
          in_memory_registry workspace_id
          (nat (suc k))
          now
          m
        ≡ ok (res, m'))
      × IsSweep (suc k) now (runtimes_of workspace_id m) 0 m res.transitioned_offline m'
      × (res.checked_runtimes ≡ length (runtimes_of workspace_id m))
unfolding reconcile_workspace_runtimes list_workspace_runtimes
reconcile_workspace_runtimes-IsSweep workspace_id k now m h =
    let rs = runtimes_of workspace_id m in
    let ((n, m'), here) = reconcile_each_returns k now rs 0 m in
    (
      record {
        workspace_id = workspace_id;
        reconciled_at = now;
        checked_runtimes = length rs;
        transitioned_offline = n;
      },
      m',
      rw here refl,
      reconcile_each-IsSweep k now rs 0 m {n' = n} {m' = m'}
          (listed-HasDistinctIds workspace_id m h) (listed_IsStored workspace_id m h) here,
      refl,
    )
