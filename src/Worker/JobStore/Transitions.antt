-- ===== src/Worker/JobStore/Transitions.antt =====
-- Recording an attempt in the in-memory store.
use orkiva.Shared.{
  ℕ, String, Option, none, some, [], ◌∷◌, ◌++◌, or_else, ◌≡◌, sym, subst, ◌≢◌, ◌⊎◌, arith,
  Bool-cases, Option-cases, inl, inr,
}
use orkiva.Shared.Dict.{get, set, get-set_self}
use orkiva.Shared.Dict.Keyed.{IsKeyed, set-IsKeyed, id_of_get}
use orkiva.Worker.Jobs.{
  TriggerJobRecord, TriggerJobStatus, triggering, same_job_status, Transition, BlockReason,
}
use orkiva.Worker.JobStore.{
  JobStore, attempt_of, transitioned, record_attempt_and_transition, mark_thread_blocked,
}
use orkiva.Worker.JobStore.Claims.{IsWellKept, job_id}

-- A job that is being triggered takes the transition, and the attempt is added to its history.
pub record_of_triggering :
    (t : Transition) (store : JobStore) (job : TriggerJobRecord)
    → get t.trigger_id store.jobs ≡ some job
    → job.status ≡ triggering
    → record_attempt_and_transition t store ≡ (
      some (transitioned t job),
      record store {
        jobs = set t.trigger_id (transitioned t job) store.jobs;
        attempts_by_trigger =
            set t.trigger_id
              (or_else (get t.trigger_id store.attempts_by_trigger) [] ++ attempt_of t ∷ [])
              store.attempts_by_trigger;
      },
    )
unfolding record_attempt_and_transition
record_of_triggering t store job found status = ground arith

-- A job that is not being triggered, or is not there, changes nothing; so a second record of one
-- attempt is without effect.
pub record_refused :
    (t : Transition) (store : JobStore)
    → ((job : TriggerJobRecord) → get t.trigger_id store.jobs ≡ some job → job.status ≢ triggering)
    → record_attempt_and_transition t store ≡ (none, store)
unfolding record_attempt_and_transition
record_refused t store h = elim (Option-cases (get t.trigger_id store.jobs)) [
  | inl e ↦ ground arith
  | inr (job, e) ↦ let k = h job e in ground arith
]

-- After a transition to a status other than `triggering`, a second record for the same job changes
-- nothing.
pub record_twice :
    (t t' : Transition) (store : JobStore)
    → t'.trigger_id ≡ t.trigger_id
    → t.next_status ≢ triggering
    → let (_, store') = record_attempt_and_transition t store in
      record_attempt_and_transition t' store' ≡ (none, store')
unfolding record_attempt_and_transition
record_twice t t' store same settled = elim (Option-cases (get t.trigger_id store.jobs)) [
  | inl e ↦ ground arith
  | inr (job, e) ↦ ground (arith, get-set_self t.trigger_id (transitioned t job) store.jobs)
]

is_triggering : (s : TriggerJobStatus) → (s ≡ triggering) ⊎ (s ≢ triggering)
is_triggering s = elim (Bool-cases (same_job_status s triggering)) [
  | inl e ↦ inl (ground arith)
  | inr e ↦ inr (λ k. ground arith)
]

pub record-IsWellKept :
    (t : Transition) (store : JobStore)
    → IsWellKept store
    → IsWellKept (record_attempt_and_transition t store).1
record-IsWellKept t store k = elim (Option-cases (get t.trigger_id store.jobs)) [
  | inl e ↦ rw (record_refused t store (λ job f. cc)) k
  | inr (job, e) ↦ elim (is_triggering job.status) [
    | inl s ↦ rw (record_of_triggering t store job e s) (
        subst (λ key. IsKeyed job_id (set key (transitioned t job) store.jobs))
          (sym (id_of_get job_id t.trigger_id store.jobs k e))
          (set-IsKeyed job_id (transitioned t job) store.jobs k))
    | inr s ↦ rw (record_refused t store (λ other f. rw (some_eq e f) s)) k
  ]
]
  where
    some_eq :
        {o : Option TriggerJobRecord} {a b : TriggerJobRecord} → o ≡ some a → o ≡ some b → b ≡ a
    some_eq p q = cc

pub jobs-mark_thread_blocked :
    (thread_id : String) (now : ℕ) (reason : BlockReason) (store : JobStore)
    → (mark_thread_blocked thread_id now reason store).1.jobs ≡ store.jobs
unfolding mark_thread_blocked
jobs-mark_thread_blocked thread_id now reason store = ground arith
