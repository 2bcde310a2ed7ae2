-- ===== src/Worker/JobStore/Claims.antt =====
-- Claiming due jobs from the in-memory store.
use mathlib.Core.List.{Memᴰ}
use orkiva.Shared.{
  ℕ, true, false, String, some, List, [], ◌∷◌, map, str_eq, str_eq_iff, ◌≡◌, refl, ap, ◌∙◌, ◌≢◌,
  arith, All, All-take, All-map_imp, All-map, All-filter_imp,
}
use orkiva.Shared.Dict.{Dict, get, set, values, get-set_ne, get-set_self}
use orkiva.Shared.Dict.Keyed.{
  IsKeyed, set-IsKeyed, get_of_mem-values, IsApart, HasDistinctIds, values-HasDistinctIds,
  filter-HasDistinctIds, take-HasDistinctIds, sort-HasDistinctIds,
}
use orkiva.Shared.Sorting.{All-sort}
use orkiva.Worker.Jobs.{TriggerJobRecord, triggering}
use orkiva.Worker.JobStore.{
  JobStore, is_due, created_before, due_jobs, claimed_as, is_unchanged, claim_from, claim_due_jobs,
}

abbrev pub job_id : TriggerJobRecord → String
job_id job = job.trigger_id

-- Every job stands under its id, once.
abbrev pub IsWellKept : JobStore → Type 0
IsWellKept store = IsKeyed job_id store.jobs

-- The dictionary with the jobs of a list claimed.
abbrev claim_all : ℕ → List TriggerJobRecord → Dict TriggerJobRecord → Dict TriggerJobRecord
claim_all now [] jobs = jobs
claim_all now (job ∷ rest) jobs = claim_all now rest (set job.trigger_id (claimed_as now job) jobs)

abbrev pub Holds : Dict TriggerJobRecord → TriggerJobRecord → Type 0
Holds jobs job = get job.trigger_id jobs ≡ some job

is_unchanged_refl : (job : TriggerJobRecord) → is_unchanged job job ≡ true
is_unchanged_refl job = ground arith

Holds-set :
    (now : ℕ) (job : TriggerJobRecord) (rest : List TriggerJobRecord) (jobs : Dict TriggerJobRecord)
    → All (IsApart job_id job) rest
    → All (Holds jobs) rest
    → All (Holds (set job.trigger_id (claimed_as now job) jobs)) rest
Holds-set now job [] jobs a h = tt
Holds-set now job (next ∷ rest) jobs (apart, a) (here, h) = (
  get-set_ne job.trigger_id next.trigger_id (claimed_as now job) jobs apart ∙ here,
  Holds-set now job rest jobs a h,
)

-- Where every candidate is still stored as it was read, none is passed over.
claim_from_lem :
    (now : ℕ) (due : List TriggerJobRecord) (jobs : Dict TriggerJobRecord)
    → HasDistinctIds job_id due
    → All (Holds jobs) due
    → claim_from now due jobs ≡ (map (claimed_as now) due, claim_all now due jobs)
unfolding claim_from
claim_from_lem now [] jobs d h = refl
claim_from_lem now (job ∷ rest) jobs (apart, d) (here, h) =
    let next = set job.trigger_id (claimed_as now job) jobs in
    ground (
      arith,
      is_unchanged_refl job,
      claim_from_lem now rest next d (Holds-set now job rest jobs apart h),
    )

due_jobs-HasDistinctIds :
    (workspace_id : String) (limit now : ℕ) (jobs : Dict TriggerJobRecord)
    → IsKeyed job_id jobs
    → HasDistinctIds job_id (due_jobs workspace_id limit now jobs)
unfolding due_jobs
due_jobs-HasDistinctIds workspace_id limit now jobs k = take-HasDistinctIds job_id limit _ (
    sort-HasDistinctIds job_id created_before _ (
      filter-HasDistinctIds job_id (is_due workspace_id now) (values jobs)
        (values-HasDistinctIds job_id jobs k)))

values-Holds : (jobs : Dict TriggerJobRecord) → IsKeyed job_id jobs → All (Holds jobs) (values jobs)
values-Holds jobs k = each (values jobs) (λ v m. get_of_mem-values job_id jobs k m)
  where
    each :
        (vs : List TriggerJobRecord)
        → ((v : TriggerJobRecord) → Memᴰ v vs → Holds jobs v)
        → All (Holds jobs) vs
    each [] f = tt
    each (v ∷ vs) f = (f v (Memᴰ.head refl), each vs (λ w m. f w (Memᴰ.tail m)))

-- A due job is stored as it is listed, and passes the test.
abbrev pub IsDueIn : String → ℕ → Dict TriggerJobRecord → TriggerJobRecord → Type 0
IsDueIn workspace_id now jobs job = Holds jobs job × (is_due workspace_id now job ≡ true)

pub All-due_jobs :
    (workspace_id : String) (limit now : ℕ) (jobs : Dict TriggerJobRecord)
    → IsKeyed job_id jobs
    → All (IsDueIn workspace_id now jobs) (due_jobs workspace_id limit now jobs)
unfolding due_jobs
All-due_jobs workspace_id limit now jobs k = All-take (IsDueIn workspace_id now jobs) limit _ (
    All-sort created_before (IsDueIn workspace_id now jobs) _ (
      All-filter_imp (Holds jobs) (IsDueIn workspace_id now jobs) (is_due workspace_id now)
        (λ x here e. (here, e)) (values jobs) (values-Holds jobs k)))

claim_all-IsKeyed :
    (now : ℕ) (due : List TriggerJobRecord) (jobs : Dict TriggerJobRecord)
    → IsKeyed job_id jobs
    → IsKeyed job_id (claim_all now due jobs)
claim_all-IsKeyed now [] jobs k = k
claim_all-IsKeyed now (job ∷ rest) jobs k =
    claim_all-IsKeyed now rest (set job.trigger_id (claimed_as now job) jobs)
      (set-IsKeyed job_id (claimed_as now job) jobs k)

get-claim_all_ne :
    (now : ℕ) (due : List TriggerJobRecord) (jobs : Dict TriggerJobRecord) (k : String)
    → All (λ d. str_eq d.trigger_id k ≡ false) due
    → get k (claim_all now due jobs) ≡ get k jobs
get-claim_all_ne now [] jobs k h = refl
get-claim_all_ne now (job ∷ rest) jobs k (apart, h) =
    get-claim_all_ne now rest (set job.trigger_id (claimed_as now job) jobs) k h
    ∙ get-set_ne job.trigger_id k (claimed_as now job) jobs apart

apart_flip :
    (job : TriggerJobRecord) (rest : List TriggerJobRecord)
    → All (IsApart job_id job) rest
    → All (λ d. str_eq d.trigger_id job.trigger_id ≡ false) rest
apart_flip job rest a =
    All-map_imp
      (λ d h.
        ground
          (arith, str_eq_iff d.trigger_id job.trigger_id, str_eq_iff job.trigger_id d.trigger_id))
      rest a

claim_all-Holds :
    (now : ℕ) (due : List TriggerJobRecord) (jobs : Dict TriggerJobRecord)
    → HasDistinctIds job_id due
    → All (λ d. get d.trigger_id (claim_all now due jobs) ≡ some (claimed_as now d)) due
claim_all-Holds now [] jobs d = tt
claim_all-Holds now (job ∷ rest) jobs (apart, d) =
    let jobs' = set job.trigger_id (claimed_as now job) jobs in
    (
      get-claim_all_ne now rest jobs' job.trigger_id (apart_flip job rest apart)
          ∙ get-set_self job.trigger_id (claimed_as now job) jobs,
      claim_all-Holds now rest jobs' d,
    )

-- From a well-kept store all of `due_jobs` are claimed: none is lost to the check that guards each
-- claim.
pub claim_due_jobs-eq_due :
    (workspace_id : String) (limit now : ℕ) (store : JobStore)
    → IsWellKept store
    → (claim_due_jobs workspace_id limit now store).0
      ≡ map (claimed_as now) (due_jobs workspace_id limit now store.jobs)
unfolding claim_due_jobs
claim_due_jobs-eq_due workspace_id limit now store k =
    ap (λ (r : List TriggerJobRecord × Dict TriggerJobRecord). r.0)
      (claim_from_lem now (due_jobs workspace_id limit now store.jobs) store.jobs
        (due_jobs-HasDistinctIds workspace_id limit now store.jobs k)
        (All-map_imp (λ j h. h.0) _ (All-due_jobs workspace_id limit now store.jobs k)))

claim_due_jobs-jobs :
    (workspace_id : String) (limit now : ℕ) (store : JobStore)
    → IsWellKept store
    → (claim_due_jobs workspace_id limit now store).1.jobs
      ≡ claim_all now (due_jobs workspace_id limit now store.jobs) store.jobs
unfolding claim_due_jobs
claim_due_jobs-jobs workspace_id limit now store k =
    ap (λ (r : List TriggerJobRecord × Dict TriggerJobRecord). r.1)
      (claim_from_lem now (due_jobs workspace_id limit now store.jobs) store.jobs
        (due_jobs-HasDistinctIds workspace_id limit now store.jobs k)
        (All-map_imp (λ j h. h.0) _ (All-due_jobs workspace_id limit now store.jobs k)))

pub claim_due_jobs-IsWellKept :
    (workspace_id : String) (limit now : ℕ) (store : JobStore)
    → IsWellKept store
    → IsWellKept (claim_due_jobs workspace_id limit now store).1
claim_due_jobs-IsWellKept workspace_id limit now store k =
    rw (claim_due_jobs-jobs workspace_id limit now store k)
      (claim_all-IsKeyed now (due_jobs workspace_id limit now store.jobs) store.jobs k)

-- A claimed job is stored as it was returned, `triggering` since the time of the claim.
abbrev pub IsClaimed : ℕ → Dict TriggerJobRecord → TriggerJobRecord → Type 0
IsClaimed now jobs job =
    (get job.trigger_id jobs ≡ some job) × (job.status ≡ triggering) × (job.updated_at ≡ now)

-- From a well-kept store every claimed job is stored as it was returned, `triggering` since the
-- time of the claim.
pub claim_due_jobs-IsClaimed :
    (workspace_id : String) (limit now : ℕ) (store : JobStore)
    → IsWellKept store
    → All
        (IsClaimed now (claim_due_jobs workspace_id limit now store).1.jobs)
        (claim_due_jobs workspace_id limit now store).0
claim_due_jobs-IsClaimed workspace_id limit now store k =
    let due = due_jobs workspace_id limit now store.jobs in
    let d = due_jobs-HasDistinctIds workspace_id limit now store.jobs k in
    rw
      (
        claim_due_jobs-eq_due workspace_id limit now store k,
        claim_due_jobs-jobs workspace_id limit now store k,
      )
      (All-map _ (claimed_as now) due
        (All-map_imp (λ j h. (h, refl, refl)) due (claim_all-Holds now due store.jobs d)))

not_due_again :
    (a b : TriggerJobRecord) (workspace_id : String) (now : ℕ) (jobs : Dict TriggerJobRecord)
    → get a.trigger_id jobs ≡ some a
    → a.status ≡ triggering
    → IsDueIn workspace_id now jobs b
    → a.trigger_id ≢ b.trigger_id
not_due_again a b workspace_id now jobs found t (here, due) e =
    let same : a ≡ b = cc in let t' : b.status ≡ triggering = rw (← same) t in ground arith

-- From a well-kept store, a job that was claimed is not claimed again by the next claim, of
-- whatever workspace, limit and time.
pub claim_due_jobs_once :
    (workspace_id workspace_id' : String) (limit limit' now now' : ℕ) (store : JobStore)
    → IsWellKept store
    → let (claimed, store') = claim_due_jobs workspace_id limit now store in
      All
        (λ a.
          All
            (λ b. a.trigger_id ≢ b.trigger_id)
            (claim_due_jobs workspace_id' limit' now' store').0)
        claimed
claim_due_jobs_once workspace_id workspace_id' limit limit' now now' store k =
    let store' = (claim_due_jobs workspace_id limit now store).1 in
    let k' = claim_due_jobs-IsWellKept workspace_id limit now store k in
    let due' = due_jobs workspace_id' limit' now' store'.jobs in
    All-map_imp
      (λ a (found, t, _). rw (claim_due_jobs-eq_due workspace_id' limit' now' store' k') (
        All-map _ (claimed_as now') due' (
          All-map_imp (λ b d. not_due_again a b workspace_id' now' store'.jobs found t d) due'
            (All-due_jobs workspace_id' limit' now' store'.jobs k'))))
      _ (claim_due_jobs-IsClaimed workspace_id limit now store k)

claimed-HasDistinctIds :
    (now : ℕ) (due : List TriggerJobRecord)
    → HasDistinctIds job_id due
    → HasDistinctIds job_id (map (claimed_as now) due)
claimed-HasDistinctIds now [] h = tt
claimed-HasDistinctIds now (job ∷ rest) (a, h) =
    (All-map _ (claimed_as now) rest a, claimed-HasDistinctIds now rest h)

pub claim_due_jobs-HasDistinctIds :
    (workspace_id : String) (limit now : ℕ) (store : JobStore)
    → IsWellKept store
    → HasDistinctIds job_id (claim_due_jobs workspace_id limit now store).0
claim_due_jobs-HasDistinctIds workspace_id limit now store k =
    rw (claim_due_jobs-eq_due workspace_id limit now store k) (
      claimed-HasDistinctIds now (due_jobs workspace_id limit now store.jobs)
        (due_jobs-HasDistinctIds workspace_id limit now store.jobs k))
