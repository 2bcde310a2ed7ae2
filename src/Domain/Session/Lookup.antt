-- ===== src/Domain/Session/Lookup.antt =====
-- Staleness, and the choice of the latest session that can be resumed.
use mathlib.Core.List.{Memᴰ}
use orkiva.Shared.{
  refl, ℕ, suc, ◌+◌, ◌*◌, ◌≤◌, ◌<◌, Bool, true, false, Option, none, some, List, [], ◌∷◌, ok, ◌≡◌,
  sym, ap, ◌↔◌, ◌&&◌, arith, trim, or_else, >>=-eq-ok, All, All-mem, All-map_imp, All-of_All-filter,
  mem_of_mem-filter, filter, ltb, str_eq, Bool-cases, inl, inr,
}
use orkiva.Shared.Sorting.{sort, IsSorted, sort-IsSorted, mem_of_mem-sort, All-of_All-sort}
use orkiva.Domain.Errors.{at, Number, nat, require_date, require_non_empty_string}
use orkiva.Domain.Thread.Creation.{IsPresent_of_require_non_empty_string, at_of_require_date}
use orkiva.Domain.Session.{
  SessionRecord, SessionLookupInput, is_session_stale, first_fresh, beats_later,
  find_latest_resumable_session,
}

-- With a whole positive number of hours a session is stale exactly when its last heartbeat is more than that many hours before the given time.
pub is_session_stale_iff :
    (s : SessionRecord) (k now : ℕ)
    → (is_session_stale s (nat (suc k)) (at now) ≡ ok true)
      ↔ (s.last_heartbeat_at + suc k * 3600000 < now)
unfolding is_session_stale
is_session_stale_iff s k now = (λ h. ground arith, λ h. ground arith)

-- With a whole positive number of hours and a valid time, the question has an answer.
pub is_session_stale_returns :
    (s : SessionRecord) (k now : ℕ)
    → (b : Bool) × (is_session_stale s (nat (suc k)) (at now) ≡ ok b)
unfolding is_session_stale
is_session_stale_returns s k now = (_, refl)

stale_later :
    (s c : SessionRecord) (hours : Number) (now : ℕ)
    → is_session_stale c hours (at now) ≡ ok true
    → is_session_stale s hours (at now) ≡ ok false
    → c.last_heartbeat_at < s.last_heartbeat_at
unfolding is_session_stale
stale_later s c hours now h k = ground arith

-- The loop's answer on candidates in order: a fresh one that beats no earlier than the others.
first_fresh_sound :
    (hours : Number) (now : ℕ) (cs : List SessionRecord) {s : SessionRecord}
    → IsSorted beats_later cs
    → first_fresh hours (at now) cs ≡ ok (some s)
    → Memᴰ s cs
      × (is_session_stale s hours (at now) ≡ ok false)
      × All (λ c. c.last_heartbeat_at ≤ s.last_heartbeat_at) cs
unfolding first_fresh
first_fresh_sound hours now [] o h = cc
first_fresh_sound hours now (c ∷ cs) {s} (top, o) h =
    let (stale, e, h') = >>=-eq-ok (is_session_stale c hours (at now)) _ h in
    elim (Bool-cases stale) [
      | inl old ↦
          let (m, fresh, all) = first_fresh_sound hours now cs o (rw old at h') in
          let late = stale_later s c hours now (rw (← old) e) fresh in
          let below : ltb c.last_heartbeat_at s.last_heartbeat_at ≡ false =
            All-mem (λ y. beats_later y c ≡ false) cs top m in
          absurd (ground arith)
      | inr new ↦
          let same : c ≡ s = ground arith in
          (
            Memᴰ.head (sym same),
            rw (← same) (rw (← new) e),
            (
              omega (arith, ap (λ (r : SessionRecord). r.last_heartbeat_at) same),
              All-map_imp
                  (λ y k. ground (arith, ap (λ (r : SessionRecord). r.last_heartbeat_at) same)) cs
                  top,
            ),
          )
    ]

first_fresh-none :
    (hours : Number) (now : ℕ) (cs : List SessionRecord)
    → first_fresh hours (at now) cs ≡ ok none
    → All (λ c. is_session_stale c hours (at now) ≡ ok true) cs
unfolding first_fresh
first_fresh-none hours now [] h = tt
first_fresh-none hours now (c ∷ cs) h =
    let (stale, e, h') = >>=-eq-ok (is_session_stale c hours (at now)) _ h in
    elim (Bool-cases stale) [
      | inl old ↦ (rw (← old) e, first_fresh-none hours now cs (rw old at h'))
      | inr new ↦ absurd (ground arith)
    ]

-- Who a lookup is about: the trimmed names, and resumable.
abbrev pub is_candidate : SessionLookupInput → SessionRecord → Bool
is_candidate lookup s =
    str_eq s.agent_id (trim lookup.agent_id)
    && str_eq s.workspace_id (trim lookup.workspace_id)
    && s.resumable

find_unfold :
    (now : ℕ) (sessions : List SessionRecord) (lookup : SessionLookupInput)
    {o : Option SessionRecord}
    → find_latest_resumable_session now sessions lookup ≡ ok o
    → (reference : ℕ) × (or_else lookup.reference_time (at now) ≡ at reference)
      × (first_fresh lookup.stale_after_hours
            (at reference)
            (sort beats_later (filter (is_candidate lookup) sessions))
          ≡ ok o)
unfolding find_latest_resumable_session
find_unfold now sessions lookup h =
    let (a, first, h₁) = >>=-eq-ok (require_non_empty_string lookup.agent_id) _ h in
    let (w, second, h₂) = >>=-eq-ok (require_non_empty_string lookup.workspace_id) _ h₁ in
    let (r, third, h₃) = >>=-eq-ok (require_date (or_else lookup.reference_time (at now))) _ h₂ in
    let ea = (IsPresent_of_require_non_empty_string _ first).1 in
    let ew = (IsPresent_of_require_non_empty_string _ second).1 in
    (r, at_of_require_date _ third, rw (ea, ew) at h₃)

beats_later_asym : (a b : SessionRecord) → beats_later a b ≡ true → beats_later b a ≡ false
beats_later_asym a b h = ground arith

beats_later_trans :
    (a b c : SessionRecord)
    → beats_later b a ≡ false
    → beats_later c b ≡ false
    → beats_later c a ≡ false
beats_later_trans a b c h k = ground arith

-- A session that is found is listed, is the agent's in the workspace, can be resumed, is not
-- stale at the reference time, and no candidate has a later heartbeat.
pub find_latest_sound :
    (now : ℕ) (sessions : List SessionRecord) (lookup : SessionLookupInput) {s : SessionRecord}
    → find_latest_resumable_session now sessions lookup ≡ ok (some s)
    → Memᴰ s sessions
      × (is_candidate lookup s ≡ true)
      × (is_session_stale s lookup.stale_after_hours (or_else lookup.reference_time (at now))
          ≡ ok false)
      × All (λ c. is_candidate lookup c ≡ true → c.last_heartbeat_at ≤ s.last_heartbeat_at) sessions
find_latest_sound now sessions lookup {s} h =
    let (r, dated, h') = find_unfold now sessions lookup h in
    let cs = filter (is_candidate lookup) sessions in
    let (m, fresh, all) =
      first_fresh_sound lookup.stale_after_hours r (sort beats_later cs)
        (sort-IsSorted beats_later beats_later_asym beats_later_trans cs) h' in
    let (listed, candidate) =
      mem_of_mem-filter (is_candidate lookup) sessions (mem_of_mem-sort beats_later cs m) in
    (
      listed,
      candidate,
      rw dated fresh,
      All-of_All-filter (λ c. c.last_heartbeat_at ≤ s.last_heartbeat_at) (is_candidate lookup)
          sessions
          (All-of_All-sort beats_later (λ c. c.last_heartbeat_at ≤ s.last_heartbeat_at) cs all),
    )

-- Where none is found, every candidate is stale.
pub find_latest_none :
    (now : ℕ) (sessions : List SessionRecord) (lookup : SessionLookupInput)
    → find_latest_resumable_session now sessions lookup ≡ ok none
    → All
        (λ c.
          is_candidate lookup c ≡ true
          → is_session_stale c lookup.stale_after_hours (or_else lookup.reference_time (at now))
            ≡ ok true)
        sessions
find_latest_none now sessions lookup h =
    let (r, dated, h') = find_unfold now sessions lookup h in
    let cs = filter (is_candidate lookup) sessions in
    rw dated (
      All-of_All-filter (λ c. is_session_stale c lookup.stale_after_hours (at r) ≡ ok true)
        (is_candidate lookup) sessions
        (All-of_All-sort beats_later
          (λ c. is_session_stale c lookup.stale_after_hours (at r) ≡ ok true) cs
          (first_fresh-none lookup.stale_after_hours r (sort beats_later cs) h')))
