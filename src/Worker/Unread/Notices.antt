-- ===== src/Worker/Unread/Notices.antt =====
-- The counts and candidates of apps/supervisor-worker/src/unread-reconciliation.ts.
use orkiva.Shared.{
  ℕ, suc, ◌+◌, ◌≤◌, ◌<◌, Bool, true, false, String, Option, List, [], ◌∷◌, ◌++◌, ok, err, length,
  length-append, ◌≡◌, refl, ◌⊎◌, arith, inl, inr, All, All-append, subst,
}
use orkiva.Shared.Dict.{get}
use orkiva.Domain.Errors.{Checked, Number}
use orkiva.Worker.Unread.{
  UnreadParticipantSnapshot, UnreadReconciliationCandidate, Notices, seq_of,
  reconciliation_state_key, mark_notified, Progress, is_notified, candidate_of, is_dormant_session,
  is_stale_snapshot, reconcile_one, then_on, reconcile_all,
}

-- The counts of a run over `n` snapshots: each dormant unread participant is a candidate or was
-- noticed before, and the counts are nested.
pub record IsCount (n : ℕ) (p : Progress) : Type 0 where
  pub split : length p.candidates + p.deduplicated ≡ p.dormant
  pub dormant : p.dormant ≤ p.unread
  pub unread : p.unread ≤ n

-- A candidate has unread messages, as many as its numbers differ by.
abbrev pub IsUnread : UnreadReconciliationCandidate → Type 0
IsUnread c = (c.last_read_seq < c.latest_seq) × (c.last_read_seq + c.unread_count ≡ c.latest_seq)

reconcile_one-IsCount :
    (hours : Number) (now n : ℕ) (s : UnreadParticipantSnapshot) (p : Progress) (state : Notices)
    {p' : Progress}
    → (reconcile_one hours now s p state).0 ≡ ok p'
    → IsCount n p
    → IsCount (suc n) p'
unfolding reconcile_one
reconcile_one-IsCount hours now n s p state e c = ground (
  arith,
  length-append {0} p.candidates (candidate_of s true ∷ []),
  length-append {0} p.candidates (candidate_of s false ∷ []),
)

abbrev pub is_stale_or_not : Checked Bool → Bool
is_stale_or_not (ok b) = b
is_stale_or_not (err e) = false

abbrev pub key_of : UnreadParticipantSnapshot → String
key_of s = reconciliation_state_key s.thread_id s.participant_agent_id

abbrev pub notified : Notices → String → Option ℕ
notified state key = seq_of (get key state)

-- A snapshot passes without a notice, or makes a candidate and is marked.
abbrev pub Passes : Progress → Notices → Progress → Notices → Type 0
Passes p state p' state' = (p'.candidates ≡ p.candidates) × (state' ≡ state)

abbrev pub Notifies :
    Number → ℕ → UnreadParticipantSnapshot → Progress → Notices → Progress → Notices → Type 0
Notifies hours now s p state p' state' =
    (s.last_read_seq < s.latest_seq)
    × (is_dormant_session s.session hours now ≡ ok true)
    × (is_notified (notified state (key_of s)) s.latest_seq ≡ false)
    × (p'.candidates
        ≡ p.candidates
          ++ candidate_of s (is_stale_or_not (is_stale_snapshot s.session hours now)) ∷ [])
    × (state' ≡ mark_notified s.thread_id s.participant_agent_id s.latest_seq now state)

pub reconcile_one_cases :
    (hours : Number) (now : ℕ) (s : UnreadParticipantSnapshot) (p : Progress) (state : Notices)
    {p' : Progress}
    → (reconcile_one hours now s p state).0 ≡ ok p'
    → Passes p state p' (reconcile_one hours now s p state).1
      ⊎ Notifies hours now s p state p' (reconcile_one hours now s p state).1
unfolding reconcile_one
reconcile_one_cases hours now s p state e = ground arith

pub then_on-eq-ok :
    (r : Checked Progress × Notices) (k : Progress → Notices → Checked Progress × Notices)
    {q : Progress}
    → (then_on r k).0 ≡ ok q
    → (p : Progress) × (r.0 ≡ ok p) × (then_on r k ≡ k p r.1)
then_on-eq-ok (ok p, state) k e = (p, refl, refl)
then_on-eq-ok (err x, state) k e = cc

-- Each dormant unread participant of a run that does not throw is a candidate or was noticed
-- before; dormant ones are among the unread, and these among those of the run.
pub reconcile_all-IsCount :
    (hours : Number) (now n : ℕ) (ss : List UnreadParticipantSnapshot) (p : Progress)
    (state : Notices) {p' : Progress}
    → (reconcile_all hours now ss p state).0 ≡ ok p'
    → IsCount n p
    → IsCount (n + length ss) p'
unfolding reconcile_all
reconcile_all-IsCount hours now n [] p state e c = ground arith
reconcile_all-IsCount hours now n (s ∷ ss) p state {p'} e c =
    let (q, here, same) = then_on-eq-ok (reconcile_one hours now s p state) _ e in
    let k =
      reconcile_all-IsCount hours now (suc n) ss q (reconcile_one hours now s p state).1 {p' = p'}
        (rw (← same) e) (reconcile_one-IsCount hours now n s p state here c) in
    omega (arith, k)

reconcile_all-IsUnread :
    (hours : Number) (now : ℕ) (ss : List UnreadParticipantSnapshot) (p : Progress)
    (state : Notices) {p' : Progress}
    → (reconcile_all hours now ss p state).0 ≡ ok p'
    → All IsUnread p.candidates
    → All IsUnread p'.candidates
unfolding reconcile_all
reconcile_all-IsUnread hours now [] p state {p'} e c =
    let same : p ≡ p' = cc in subst (λ (x : Progress). All IsUnread x.candidates) same c
reconcile_all-IsUnread hours now (s ∷ ss) p state {p'} e c =
    let (q, here, same) = then_on-eq-ok (reconcile_one hours now s p state) _ e in
    let later =
      reconcile_all-IsUnread hours now ss q (reconcile_one hours now s p state).1 {p' = p'}
        (rw (← same) e) in
    elim (reconcile_one_cases hours now s p state here) [
      | inl (kept, _) ↦ later (rw kept c)
      | inr (unread, _, _, added, _) ↦
          later (rw added (All-append IsUnread p.candidates _ c ((unread, omega arith), tt)))
    ]
