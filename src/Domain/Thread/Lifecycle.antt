-- ===== src/Domain/Thread/Lifecycle.antt =====
-- Where the status machine of thread.ts can go.
use orkiva.Shared.{
  ℕ, true, any, Bool-cases, List, [], ◌∷◌, ok, err, ◌≡◌, refl, ◌≢◌, ◌↔◌, ◌⊎◌, inl, inr, arith,
}
use orkiva.Domain.Errors.{
  Date, DomainErrorCode, Checked, at, invalid, invalid_argument, invalid_thread_transition,
}
use orkiva.Domain.Thread.{
  Thread, ThreadStatus, active, blocked, resolved, closed, same_status, transition_map,
  transition_thread_status,
}
use orkiva.Domain.Thread.Creation.{IsWellFormed}

-- The lifecycle of docs/proposal/05-security/security_and_governance.md, 6.2: active, resolved,
-- closed in a row, or active, blocked, and then active or closed.
pub data Policy : ThreadStatus → ThreadStatus → Type 0 where
  block : Policy active blocked
  resolve : Policy active resolved
  unblock : Policy blocked active
  close_blocked : Policy blocked closed
  close_resolved : Policy resolved closed

-- A change of the policy, or the closing of an active thread, which the policy does not list.
abbrev pub Change : ThreadStatus → ThreadStatus → Type 0
Change s next = Policy s next ⊎ ((s ≡ active) × (next ≡ closed))

ruleset changes = (block, resolve, unblock, close_blocked, close_resolved)

Change-of_allowed :
    (s next : ThreadStatus) → any (same_status next) (transition_map s) ≡ true → Change s next
Change-of_allowed s next h = grind (arith, changes)

allowed_of_Policy :
    {s next : ThreadStatus} → Policy s next → any (same_status next) (transition_map s) ≡ true
allowed_of_Policy block = refl
allowed_of_Policy resolve = refl
allowed_of_Policy unblock = refl
allowed_of_Policy close_blocked = refl
allowed_of_Policy close_resolved = refl

allowed_of_Change :
    {s next : ThreadStatus} → Change s next → any (same_status next) (transition_map s) ≡ true
allowed_of_Change (inl c) = allowed_of_Policy c
allowed_of_Change (inr (e, e')) = rw (e, e') refl

-- A transition to another status at a valid time succeeds exactly along a change of the documented
-- lifecycle, or from active to closed, which that does not list; and then only the status and the
-- update time differ.
pub transition_thread_status_iff :
    (t u : Thread) (next : ThreadStatus) (time : ℕ)
    → t.status ≢ next
    → (transition_thread_status t next (at time) ≡ ok u) ↔ (
        (Policy t.status next ⊎ ((t.status ≡ active) × (next ≡ closed)))
        × (u ≡ record t { status = next; updated_at = time }))
unfolding transition_thread_status
transition_thread_status_iff t u next time h = (
  λ e. (Change-of_allowed t.status next (ground arith), ground arith),
  λ (c, e). ground (arith, allowed_of_Change c),
)

-- A refused transition: no change is listed, or the time is invalid; the codes tell which.
pub transition_thread_status_refuses :
    (t : Thread) (next : ThreadStatus) (time : Date) {e : DomainErrorCode}
    → transition_thread_status t next time ≡ err e
    → ((e ≡ invalid_thread_transition) × (Change t.status next → ⊥))
      ⊎ ((e ≡ invalid_argument) × Change t.status next × (time ≡ invalid))
unfolding transition_thread_status
transition_thread_status_refuses t next time h =
    elim (Bool-cases (any (same_status next) (transition_map t.status))) [
      | inl e ↦ inr (ground arith, Change-of_allowed t.status next e, ground arith)
      | inr e ↦ inl (ground arith, λ c. cc (allowed_of_Change c, e))
    ]

-- Later requests, in order; a refused one leaves the thread as it was.
abbrev settle : Thread → Checked Thread → Thread
settle t (ok u) = u
settle t (err e) = t

unfoldable pub serve : Thread → List (ThreadStatus × Date) → Thread
serve t [] = t
serve t ((next, time) ∷ requests) = serve (settle t (transition_thread_status t next time)) requests

step_closed :
    (t : Thread) (next : ThreadStatus) (time : Date)
    → t.status ≡ closed
    → settle t (transition_thread_status t next time) ≡ t
unfolding transition_thread_status
step_closed t next time h = ground arith

-- Over any series of requests a closed thread stays as it is.
pub serve_closed :
    (t : Thread) (requests : List (ThreadStatus × Date)) → t.status ≡ closed → serve t requests ≡ t
unfolding serve
serve_closed t [] h = refl
serve_closed t ((next, time) ∷ requests) h =
    rw (step_closed t next time h) (serve_closed t requests h)

abbrev pub IsFinished : ThreadStatus → Type 0
IsFinished s = (s ≡ resolved) ⊎ (s ≡ closed)

step-IsFinished :
    (t : Thread) (next : ThreadStatus) (time : Date)
    → IsFinished t.status
    → IsFinished (settle t (transition_thread_status t next time)).status
unfolding transition_thread_status
step-IsFinished t next time h = ground arith

-- Over any series of requests a resolved or closed thread stays resolved or closed.
pub serve-IsFinished :
    (t : Thread) (requests : List (ThreadStatus × Date))
    → IsFinished t.status
    → IsFinished (serve t requests).status
unfolding serve
serve-IsFinished t [] h = h
serve-IsFinished t ((next, time) ∷ requests) h =
    serve-IsFinished (settle t (transition_thread_status t next time)) requests
      (step-IsFinished t next time h)

abbrev SameThread : Thread → Thread → Type 0
SameThread t u =
    (t.thread_id ≡ u.thread_id)
    × (t.workspace_id ≡ u.workspace_id)
    × (t.title ≡ u.title)
    × (t.type ≡ u.type)
    × (t.participants ≡ u.participants)
    × (t.created_at ≡ u.created_at)

step_same :
    (t : Thread) (next : ThreadStatus) (time : Date)
    → SameThread t (settle t (transition_thread_status t next time))
unfolding transition_thread_status
step_same t next time = ground arith

serve_same : (t : Thread) (requests : List (ThreadStatus × Date)) → SameThread t (serve t requests)
unfolding serve
serve_same t [] = (refl, refl, refl, refl, refl, refl)
serve_same t ((next, time) ∷ requests) =
    let u = settle t (transition_thread_status t next time) in
    let a = step_same t next time in let b = serve_same u requests in ground arith

-- Only status and update time are ever changed: a well-formed thread stays well formed.
pub serve-IsWellFormed :
    (t : Thread) (requests : List (ThreadStatus × Date))
    → IsWellFormed t
    → IsWellFormed (serve t requests)
serve-IsWellFormed t requests w =
    let (a, b, c, d, e, f) = serve_same t requests in
    record {
      thread_id = rw (← a) w.thread_id;
      workspace_id = rw (← b) w.workspace_id;
      title = rw (← c) w.title;
      some_listed = rw (← e) w.some_listed;
      participants = rw (← e) w.participants;
      distinct = rw (← e) w.distinct;
    }
