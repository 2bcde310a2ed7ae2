-- ===== src/Worker/JobStore/Oldest.antt =====
-- Which jobs `claimDueJobs` of apps/supervisor-worker/src/trigger-queue.ts takes from the in-memory
-- store.
use mathlib.Core.List.{Memᴰ}
use orkiva.Shared.{
  ℕ, ◌≤◌, true, false, String, Option, none, some, List, [], ◌∷◌, map, length, filter, str_eq,
  str_eq_iff, Bool-cases, ◌≡◌, refl, ◌∙◌, ◌⊎◌, inl, inr, arith, All, All-map_imp, All-map,
  length-take-le, mem-filter, mem_map,
}
use orkiva.Shared.Dict.{Dict, get, values}
use orkiva.Shared.Sorting.{sort, IsSorted, sort-IsSorted, take-IsSorted, mem-sort, mem-take}
use orkiva.Worker.Jobs.{TriggerJobRecord, TriggerJobStatus, queued, triggering}
use orkiva.Worker.JobStore.{
  JobStore, is_ripe, is_due, created_before, due_jobs, claimed_as, claim_due_jobs,
}
use orkiva.Worker.JobStore.Claims.{IsWellKept, All-due_jobs, claim_due_jobs-eq_due}

-- A job of the workspace that waits to be tried, first or again, and is not held back beyond `now`.
pub record IsDue (workspace_id : String) (now : ℕ) (job : TriggerJobRecord) : Type 0 where
  pub workspace : job.workspace_id ≡ workspace_id
  pub waits :
      (job.status ≡ queued)
      ⊎ ((job.status ≡ TriggerJobStatus.timeout) ⊎ (job.status ≡ TriggerJobStatus.deferred))
  pub ripe : (moment : ℕ) → job.next_retry_at ≡ some moment → moment ≤ now

IsDue-of_is_due :
    (workspace_id : String) (now : ℕ) (job : TriggerJobRecord)
    → is_due workspace_id now job ≡ true
    → IsDue workspace_id now job
IsDue-of_is_due workspace_id now job h = record {
  workspace = ground (arith, str_eq_iff job.workspace_id workspace_id);
  waits = ground arith;
  ripe = λ moment e. ground arith;
}

is_ripe_lem :
    (o : Option ℕ) (now : ℕ)
    → ((moment : ℕ) → o ≡ some moment → moment ≤ now)
    → is_ripe o now ≡ true
is_ripe_lem none now h = refl
is_ripe_lem (some moment) now h = let k = h moment refl in ground arith

is_due-of_IsDue :
    (workspace_id : String) (now : ℕ) (job : TriggerJobRecord)
    → IsDue workspace_id now job
    → is_due workspace_id now job ≡ true
is_due-of_IsDue workspace_id now job d =
    let w = d.workspace in
    let s = d.waits in
    let r = is_ripe_lem job.next_retry_at now d.ripe in
    ground (arith, str_eq_iff job.workspace_id workspace_id)

-- A claimed job is a due one that was stored, `triggering` since now and otherwise as it was.
abbrev pub IsTaken : String → ℕ → JobStore → TriggerJobRecord → Type 0
IsTaken workspace_id now store claimed =
    (job : TriggerJobRecord) × (get claimed.trigger_id store.jobs ≡ some job)
    × IsDue workspace_id now job
    × (claimed ≡ record job { status = triggering; updated_at = now })

-- None was created before one that stands earlier in the list.
abbrev pub IsOldestFirst : List TriggerJobRecord → Type 0
IsOldestFirst [] = Unit
IsOldestFirst (job ∷ jobs) =
    All (λ later. job.created_at ≤ later.created_at) jobs × IsOldestFirst jobs

pub record IsClaim (workspace_id : String) (limit now : ℕ) (store : JobStore)
    (claimed : List TriggerJobRecord) : Type 0 where
  pub taken : All (IsTaken workspace_id now store) claimed
  pub ordered : IsOldestFirst claimed
  pub bounded : length claimed ≤ limit
  pub complete :
      (job : TriggerJobRecord)
      → get job.trigger_id store.jobs ≡ some job
      → IsDue workspace_id now job
      → Memᴰ (record job { status = triggering; updated_at = now }) claimed
        ⊎ ((length claimed ≡ limit) × All (λ c. c.created_at ≤ job.created_at) claimed)

created_before_asym :
    (a b : TriggerJobRecord) → created_before a b ≡ true → created_before b a ≡ false
created_before_asym a b h = ground arith

created_before_trans :
    (a b c : TriggerJobRecord)
    → created_before b a ≡ false
    → created_before c b ≡ false
    → created_before c a ≡ false
created_before_trans a b c h k = ground arith

IsOldestFirst-map :
    (now : ℕ) (due : List TriggerJobRecord)
    → IsSorted created_before due
    → IsOldestFirst (map (claimed_as now) due)
IsOldestFirst-map now [] h = tt
IsOldestFirst-map now (job ∷ due) (first, h) = (
  All-map _ (claimed_as now) due (All-map_imp (λ later k. ground arith) due first),
  IsOldestFirst-map now due h,
)

length-map :
    (now : ℕ) (due : List TriggerJobRecord) → length (map (claimed_as now) due) ≡ length due
length-map now [] = refl
length-map now (job ∷ due) = omega (arith, length-map now due)

mem_of_get :
    (key : String) (jobs : Dict TriggerJobRecord) {job : TriggerJobRecord}
    → get key jobs ≡ some job
    → Memᴰ job (values jobs)
unfolding get
mem_of_get key [] h = cc
mem_of_get key ((k, v) ∷ jobs) {job} h = elim (Bool-cases (str_eq k key)) [
  | inl e ↦ let h' = rw e at h in let same : job ≡ v = cc h' in Memᴰ.head same
  | inr e ↦ Memᴰ.tail (mem_of_get key jobs (rw (e, get) at h))
]

-- From a well-kept store a claim takes due jobs, each returned as it was stored but `triggering`
-- since now, oldest first and no more than were asked for; a due job that it leaves is not older
-- than any that it takes, and then it takes as many as were asked for.
pub claim_due_jobs-IsClaim :
    (workspace_id : String) (limit now : ℕ) (store : JobStore)
    → IsWellKept store
    → IsClaim workspace_id limit now store (claim_due_jobs workspace_id limit now store).0
unfolding due_jobs
claim_due_jobs-IsClaim workspace_id limit now store k =
    let due = filter (is_due workspace_id now) (values store.jobs) in
    let sorted = sort-IsSorted created_before created_before_asym created_before_trans due in
    let first = due_jobs workspace_id limit now store.jobs in
    rw (claim_due_jobs-eq_due workspace_id limit now store k) (record {
      taken = All-map _ (claimed_as now) first (
          All-map_imp (λ job (here, d). (job, here, IsDue-of_is_due workspace_id now job d, refl))
            first (All-due_jobs workspace_id limit now store.jobs k));
      ordered = IsOldestFirst-map now first (take-IsSorted created_before limit _ sorted);
      bounded = rw (length-map now first) (length-take-le limit (sort created_before due));
      complete = λ job here d.
          let m =
            mem-filter (is_due workspace_id now) (values store.jobs)
              (mem_of_get job.trigger_id store.jobs here)
              (is_due-of_IsDue workspace_id now job d) in
          elim (mem-take created_before limit _ sorted (mem-sort created_before due m)) [
            | inl i ↦ inl (mem_map (claimed_as now) first i)
            | inr (full, all) ↦ inr (
              length-map now first ∙ full,
              All-map _ (claimed_as now) first (All-map_imp (λ c e. ground arith) first all),
            )
          ];
    })
