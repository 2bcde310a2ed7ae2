-- ===== src/Worker/Unread/Once.antt =====
-- The notices of apps/supervisor-worker/src/unread-reconciliation.ts over one run and two.
use orkiva.Shared.{
  suc, Bool-cases, Bool, false, ℕ, ◌≤◌, ◌<◌, true, false, String, Option, none, some, List, [], ◌∷◌,
  ok, err, str_eq, str_eq_iff, if◌then◌else◌, ◌≡◌, refl, ◌⊎◌, arith, Bool-cases, inl, inr, All, ap,
  sym, subst, ◌∙◌,
}
use orkiva.Shared.Dict.{get-set}
use orkiva.Domain.Errors.{Checked-cases, Checked, Number, nat}
use orkiva.Domain.Session.{active, same_session_status}
use orkiva.Domain.Session.Lookup.{is_session_stale_returns}
use orkiva.Worker.Unread.{
  SessionSnapshot, session_of, is_stale_snapshot, UnreadParticipantSnapshot, Notices, mark_notified,
  Progress, start, is_notified, is_dormant_session, reconcile_one, then_on, reconcile_all,
}
use orkiva.Worker.Unread.Notices.{key_of, notified, Passes, reconcile_one_cases, then_on-eq-ok}

-- The number last noticed for a key, none being the least.
abbrev pub IsNoLater : Option ℕ → Option ℕ → Type 0
IsNoLater none b = Unit
IsNoLater (some m) none = ⊥
IsNoLater (some m) (some n) = m ≤ n

IsNoLater-refl : (a : Option ℕ) → IsNoLater a a
IsNoLater-refl none = tt
IsNoLater-refl (some m) = omega arith

IsNoLater-trans : (a b c : Option ℕ) → IsNoLater a b → IsNoLater b c → IsNoLater a c
IsNoLater-trans none b c h k = tt
IsNoLater-trans (some l) (some m) (some n) h k = omega arith
IsNoLater-trans (some l) none c h k = absurd h
IsNoLater-trans (some l) (some m) none h k = absurd k

is_notified_later :
    (a b : Option ℕ) (latest : ℕ)
    → IsNoLater a b
    → is_notified a latest ≡ true
    → is_notified b latest ≡ true
is_notified_later none b latest h k = cc
is_notified_later (some m) none latest h k = absurd h
is_notified_later (some m) (some n) latest h k = ground arith

reconcile_one_state :
    (hours : Number) (now : ℕ) (s : UnreadParticipantSnapshot) (p : Progress) (state : Notices)
    → ((reconcile_one hours now s p state).1 ≡ state)
      ⊎ ((is_notified (notified state (key_of s)) s.latest_seq ≡ false)
          × ((reconcile_one hours now s p state).1
              ≡ mark_notified s.thread_id s.participant_agent_id s.latest_seq now state))
unfolding reconcile_one
reconcile_one_state hours now s p state = ground arith

notified-mark :
    (s : UnreadParticipantSnapshot) (now : ℕ) (state : Notices) (k : String)
    → notified (mark_notified s.thread_id s.participant_agent_id s.latest_seq now state) k
      ≡ (if str_eq (key_of s) k then some s.latest_seq else notified state k)
unfolding mark_notified
notified-mark s now state k =
    ground
      (arith, get-set (key_of s) k (record { latest_seq = s.latest_seq; notified_at = now }) state)

IsNoLater-mark :
    (s : UnreadParticipantSnapshot) (now : ℕ) (state : Notices) (k : String)
    → is_notified (notified state (key_of s)) s.latest_seq ≡ false
    → IsNoLater
        (notified state k)
        (notified (mark_notified s.thread_id s.participant_agent_id s.latest_seq now state) k)
IsNoLater-mark s now state k h =
    rw (notified-mark s now state k) (elim (Bool-cases (str_eq (key_of s) k)) [
      | inr other ↦ rw other (IsNoLater-refl (notified state k))
      | inl same ↦
          rw same
            (below (notified state k) s.latest_seq (rw ((str_eq_iff (key_of s) k).0 same) at h))
    ])
  where
    below : (a : Option ℕ) (n : ℕ) → is_notified a n ≡ false → IsNoLater a (some n)
    below none n h = tt
    below (some m) n h = ground arith

reconcile_one-IsNoLater :
    (hours : Number) (now : ℕ) (s : UnreadParticipantSnapshot) (p : Progress) (state : Notices)
    (k : String)
    → IsNoLater (notified state k) (notified (reconcile_one hours now s p state).1 k)
reconcile_one-IsNoLater hours now s p state k = elim (reconcile_one_state hours now s p state) [
  | inl same ↦ rw same (IsNoLater-refl (notified state k))
  | inr (new, same) ↦ rw same (IsNoLater-mark s now state k new)
]

then_on-IsNoLater :
    (a : Option ℕ) (k : String) (r : Checked Progress × Notices)
    (f : Progress → Notices → Checked Progress × Notices)
    → IsNoLater a (notified r.1 k)
    → ((p : Progress) → IsNoLater (notified r.1 k) (notified (f p r.1).1 k))
    → IsNoLater a (notified (then_on r f).1 k)
then_on-IsNoLater a k (err e, state) f h g = h
then_on-IsNoLater a k (ok p, state) f h g = IsNoLater-trans a _ _ h (g p)

-- Notices only move forward: the number last noticed for a participant never falls, whether the
-- run finishes or throws.
pub reconcile_all-IsNoLater :
    (hours : Number) (now : ℕ) (ss : List UnreadParticipantSnapshot) (p : Progress)
    (state : Notices) (k : String)
    → IsNoLater (notified state k) (notified (reconcile_all hours now ss p state).1 k)
unfolding reconcile_all
reconcile_all-IsNoLater hours now [] p state k = IsNoLater-refl (notified state k)
reconcile_all-IsNoLater hours now (s ∷ ss) p state k =
    then_on-IsNoLater (notified state k) k (reconcile_one hours now s p state) _
      (reconcile_one-IsNoLater hours now s p state k)
      (λ q. reconcile_all-IsNoLater hours now ss q (reconcile_one hours now s p state).1 k)

-- Nothing is left to notice about a snapshot: it is read, awake, or was noticed.
abbrev IsHandled : Number → ℕ → UnreadParticipantSnapshot → Notices → Type 0
IsHandled hours now s state =
    s.last_read_seq < s.latest_seq
    → is_dormant_session s.session hours now ≡ ok true
    → is_notified (notified state (key_of s)) s.latest_seq ≡ true

reconcile_one-IsHandled :
    (hours : Number) (now : ℕ) (s : UnreadParticipantSnapshot) (p : Progress) (state : Notices)
    → IsHandled hours now s (reconcile_one hours now s p state).1
unfolding reconcile_one
reconcile_one-IsHandled hours now s p state unread dormant =
    let k = notified-mark s now state (key_of s) in ground (arith, str_eq_iff (key_of s) (key_of s))

IsHandled-later :
    (hours : Number) (now : ℕ) (s : UnreadParticipantSnapshot) (state state' : Notices)
    → IsNoLater (notified state (key_of s)) (notified state' (key_of s))
    → IsHandled hours now s state
    → IsHandled hours now s state'
IsHandled-later hours now s state state' l h unread dormant =
    is_notified_later _ _ s.latest_seq l (h unread dormant)

reconcile_all-IsHandled :
    (hours : Number) (now : ℕ) (ss : List UnreadParticipantSnapshot) (p : Progress)
    (state : Notices) {p' : Progress}
    → (reconcile_all hours now ss p state).0 ≡ ok p'
    → All (λ s. IsHandled hours now s (reconcile_all hours now ss p state).1) ss
unfolding reconcile_all
reconcile_all-IsHandled hours now [] p state e = tt
reconcile_all-IsHandled hours now (s ∷ ss) p state {p'} e =
    let state' = (reconcile_one hours now s p state).1 in
    let (q, here, same) = then_on-eq-ok (reconcile_one hours now s p state) _ e in
    subst (λ (r : Checked Progress × Notices). All (λ x. IsHandled hours now x r.1) (s ∷ ss))
      (sym same)
      (
        IsHandled-later hours now s state' _
            (reconcile_all-IsNoLater hours now ss q state' (key_of s))
            (reconcile_one-IsHandled hours now s p state),
        reconcile_all-IsHandled hours now ss q state' {p' = p'} (rw (← same) e),
      )

reconcile_one_of_IsHandled :
    (hours : Number) (now : ℕ) (s : UnreadParticipantSnapshot) (p : Progress) (state : Notices)
    {q : Progress}
    → IsHandled hours now s state
    → (reconcile_one hours now s p state).0 ≡ ok q
    → Passes p state q (reconcile_one hours now s p state).1
reconcile_one_of_IsHandled hours now s p state h e =
    elim (reconcile_one_cases hours now s p state e) [
      | inl passes ↦ passes
      | inr (unread, dormant, new, _, _) ↦ let old = h unread dormant in absurd (cc (old, new))
    ]

reconcile_all_of_IsHandled :
    (hours : Number) (now : ℕ) (ss : List UnreadParticipantSnapshot) (p : Progress)
    (state : Notices) {q : Progress}
    → All (λ s. IsHandled hours now s state) ss
    → (reconcile_all hours now ss p state).0 ≡ ok q
    → Passes p state q (reconcile_all hours now ss p state).1
unfolding reconcile_all
reconcile_all_of_IsHandled hours now [] p state {q} h e =
    let same : p ≡ q = cc in (ap (λ (x : Progress). x.candidates) (sym same), refl)
reconcile_all_of_IsHandled hours now (s ∷ ss) p state {q} (h, hs) e =
    let (p', here, same) = then_on-eq-ok (reconcile_one hours now s p state) _ e in
    let (kept, still) = reconcile_one_of_IsHandled hours now s p state h here in
    let (kept', still') =
      reconcile_all_of_IsHandled hours now ss p' state {q = q} hs (rw (← still) (rw (← same) e)) in
    (kept' ∙ kept, rw (same, still) still')

is_dormant_session_returns :
    (session : Option SessionSnapshot) (k now : ℕ)
    → (b : Bool) × (is_dormant_session session (nat (suc k)) now ≡ ok b)
unfolding is_dormant_session
is_dormant_session_returns none k now = (true, refl)
is_dormant_session_returns (some x) k now =
    let (b, answer) = is_session_stale_returns (session_of x) k now in
    elim (Bool-cases (same_session_status x.status active)) [
      | inl awake ↦ (b, rw (awake, answer) refl)
      | inr asleep ↦ (true, rw asleep refl)
    ]

is_stale_snapshot_returns :
    (session : Option SessionSnapshot) (k now : ℕ)
    → (b : Bool) × (is_stale_snapshot session (nat (suc k)) now ≡ ok b)
unfolding is_stale_snapshot
is_stale_snapshot_returns none k now = (false, refl)
is_stale_snapshot_returns (some x) k now = is_session_stale_returns (session_of x) k now

reconcile_one_returns :
    (k now : ℕ) (s : UnreadParticipantSnapshot) (p : Progress) (state : Notices)
    → (q : Progress) × ((reconcile_one (nat (suc k)) now s p state).0 ≡ ok q)
unfolding reconcile_one
reconcile_one_returns k now s p state =
    let (b, dormant) = is_dormant_session_returns s.session k now in
    let (c, stale) = is_stale_snapshot_returns s.session k now in
    elim (Checked-cases (reconcile_one (nat (suc k)) now s p state).0) [
      | inl finished ↦ finished
      | inr (thrown, h) ↦ absurd (ground (arith, dormant, stale))
    ]

-- With a whole positive number of hours a run finishes.
pub reconcile_all_returns :
    (k now : ℕ) (ss : List UnreadParticipantSnapshot) (p : Progress) (state : Notices)
    → (q : Progress) × ((reconcile_all (nat (suc k)) now ss p state).0 ≡ ok q)
unfolding reconcile_all
reconcile_all_returns k now [] p state = (p, refl)
reconcile_all_returns k now (s ∷ ss) p state =
    let (q, one) = reconcile_one_returns k now s p state in
    rw one (reconcile_all_returns k now ss q (reconcile_one (nat (suc k)) now s p state).1)

-- Everything is noticed once: with a whole positive number of hours a second run over the same
-- snapshots at the same time finishes, finds no candidate and changes no notice.
pub reconcile_all_twice :
    (k now : ℕ) (ss : List UnreadParticipantSnapshot) (state : Notices)
    → (q : Progress) × ((reconcile_all
          (nat (suc k))
          now
          ss
          start
          (reconcile_all (nat (suc k)) now ss start state).1)
        ≡ (ok q, (reconcile_all (nat (suc k)) now ss start state).1))
      × (q.candidates ≡ [])
reconcile_all_twice k now ss state =
    let hours = nat (suc k) in
    let state' = (reconcile_all hours now ss start state).1 in
    let (p, e) = reconcile_all_returns k now ss start state in
    let (q, e') = reconcile_all_returns k now ss start state' in
    let (none_found, still) =
      reconcile_all_of_IsHandled hours now ss start state' {q = q}
        (reconcile_all-IsHandled hours now ss start state {p' = p} e) e' in
    (q, (λ i. (e' i, still i)), none_found)
