-- ===== src/Bridge/Reading.antt =====
-- What `ack_read` of apps/bridge-api/src/app.ts takes, over the in-memory stores.
use orkiva.Shared.Dict.{get, get-set_self, get-set_ne}
use orkiva.Shared.Dict.Keyed.{IsKeyed, set-IsKeyed, id_of_get}
use orkiva.Shared.{
  trim, ◌≢◌, str_eq_iff, ℕ, ◌≤◌, String, Option, none, some, Result, ok, ◌≡◌, refl, sym, ap, subst,
  ◌∙◌, arith, inl, inr,
}
use orkiva.Shared.Actions.{◌>>=◌, give, lift}
use orkiva.Shared.Actions.Refusals.{
  stepped, stepped_check, lift-Checks, present-Checks, ensure-Checks,
}
use orkiva.Auth.{VerifiedAuthClaims}
use orkiva.Domain.Errors.{Checked-cases, nat, at}
use orkiva.Domain.Cursor.{
  CreateParticipantCursorInput, ParticipantCursor, AcknowledgeReadInput, create_participant_cursor,
  acknowledge_read, undefined,
}
use orkiva.Domain.Cursor.Progress.{acknowledge_read_forward, create_participant_cursor_lem}
use orkiva.Bridge.Errors.{Thrown, auth}
use orkiva.Bridge.Requests.{Request, AckReadRequest}
use orkiva.Bridge.ThreadStore.{
  ThreadStore, cursor_key, get_latest_message_seq, get_participant_cursor,
  upsert_participant_cursor,
}
use orkiva.Bridge.Memory.{BridgeState, memory}
use orkiva.Bridge.Handlers.Reading.{ack_read, cursor_or_new, store_moved}
use orkiva.Bridge.Access.{require_thread-Checks, check_agent-Checks}

-- The key under which a cursor is stored.
abbrev pub key_of : ParticipantCursor → String
key_of c = cursor_key c.thread_id c.agent_id

-- The cursors of a store stand under the keys of their threads and agents.
abbrev pub HasKeptCursors : ThreadStore → Type 0
HasKeptCursors store = IsKeyed key_of store.cursor_records

-- What an acknowledgement that is taken has done: it is within the thread's messages; the reader's
-- cursor then stands at it, not before where it stood; every other cursor and all else that is
-- kept of threads is as it was.
pub record IsAcknowledged (input : AckReadRequest) (claims : VerifiedAuthClaims) (s t : BridgeState)
    : Type 0 where
  pub within : input.last_read_seq ≤ get_latest_message_seq input.thread_id s.threads
  pub cursor : ParticipantCursor
  pub stored : get_participant_cursor input.thread_id claims.agent_id t.threads ≡ some cursor
  pub moved : cursor.last_read_seq ≡ input.last_read_seq
  pub forward :
      (old : ParticipantCursor)
      → get_participant_cursor input.thread_id claims.agent_id s.threads ≡ some old
      → old.last_read_seq ≤ cursor.last_read_seq
  pub others :
      (thread_id agent_id : String)
      → cursor_key input.thread_id claims.agent_id ≢ cursor_key thread_id agent_id
      → get_participant_cursor thread_id agent_id t.threads
        ≡ get_participant_cursor thread_id agent_id s.threads
  pub threads : t.threads.thread_records ≡ s.threads.thread_records
  pub messages : t.threads.message_records ≡ s.threads.message_records
  pub kept : HasKeptCursors t.threads

-- A cursor that is put under the reader's key is found there, and no other is touched.
upsert_reader :
    (c : ParticipantCursor) (key : String) (store : ThreadStore)
    → key_of c ≡ key
    → HasKeptCursors store
    → let store' = upsert_participant_cursor c store in
      (get key store'.cursor_records ≡ some c)
      × ((k : String) → key ≢ k → get k store'.cursor_records ≡ get k store.cursor_records)
      × HasKeptCursors store'
unfolding upsert_participant_cursor
upsert_reader c key store same kept = rw (← same) (
  get-set_self (key_of c) c store.cursor_records,
  λ k apart.
      get-set_ne (key_of c) k c store.cursor_records (ground (arith, str_eq_iff (key_of c) k)),
  set-IsKeyed key_of c store.cursor_records kept,
)

-- An upsert of a cursor leaves the threads and the messages.
rest_of_upsert :
    (a b : ThreadStore) (c : ParticipantCursor)
    → a ≡ upsert_participant_cursor c b
    → (a.thread_records ≡ b.thread_records) × (a.message_records ≡ b.message_records)
unfolding upsert_participant_cursor
rest_of_upsert a b c h =
    (ap (λ (x : ThreadStore). x.thread_records) h, ap (λ (x : ThreadStore). x.message_records) h)

module _ (time : ℕ → ℕ) (id : ℕ → String) where
  store_moved-ok :
      (input : AckReadRequest) (c : ParticipantCursor) (s : BridgeState) {moment : ℕ}
      {t : BridgeState}
      → store_moved (memory time id) input c s ≡ (ok moment, t)
      → (after : ParticipantCursor) × (t.threads ≡ upsert_participant_cursor after s.threads)
        × (after.last_read_seq ≡ input.last_read_seq)
        × (key_of after ≡ key_of c)
        × (c.last_read_seq ≤ input.last_read_seq)
  unfolding memory give ◌>>=◌ lift
  store_moved-ok input c s {moment} {t} h =
      let now = time s.clock in
      let ack : AcknowledgeReadInput = record {
        last_read_seq = nat input.last_read_seq;
        last_acked_message_id = undefined;
        updated_at = some (at now);
      } in
      elim (Checked-cases (acknowledge_read now c ack)) [
        | inr (code, e) ↦ cc (ap (λ (r : Result Thrown ℕ × BridgeState). r.0) (rw e at h))
        | inl (after, e) ↦
            let (forward, same, same_thread, same_agent) =
              acknowledge_read_forward now c ack {c' = after} e in
            let h' = rw e at h in
            let moved : input.last_read_seq ≡ after.last_read_seq = cc same in
            (
              after,
              ap (λ (r : Result Thrown ℕ × BridgeState). r.1.threads) (sym h'),
              sym moved,
              rw (same_thread, same_agent) refl,
              omega (arith, forward, moved),
            )
      ]

  -- The cursor of a reader with a trimmed name is found, or made, without a change of the threads.
  cursor_or_new-ok :
      (thread_id agent_id : String) (stored : Option ParticipantCursor) (s : BridgeState)
      {c : ParticipantCursor} {t : BridgeState}
      → trim thread_id ≡ thread_id
      → trim agent_id ≡ agent_id
      → ((old : ParticipantCursor) → stored ≡ some old → key_of old ≡ cursor_key thread_id agent_id)
      → cursor_or_new (memory time id) thread_id agent_id stored s ≡ (ok c, t)
      → (t.threads ≡ s.threads)
        × ((old : ParticipantCursor) → stored ≡ some old → old ≡ c)
        × (key_of c ≡ cursor_key thread_id agent_id)
  unfolding memory give ◌>>=◌ lift
  cursor_or_new-ok thread_id agent_id (some cursor) s {c} trimmed trimmed' owned h =
      let same : cursor ≡ c =
        let e = ap (λ (r : Result Thrown ParticipantCursor × BridgeState). r.0) h in cc in
      (
        ap (λ (r : Result Thrown ParticipantCursor × BridgeState). r.1.threads) (sym h),
        λ old here. cc (same, here),
        rw (← same) (owned cursor refl),
      )
  cursor_or_new-ok thread_id agent_id none s {c} trimmed trimmed' owned h =
      let input : CreateParticipantCursorInput = record {
        thread_id = thread_id;
        agent_id = agent_id;
        created_at = some (at (time s.clock));
      } in
      elim (Checked-cases (create_participant_cursor (time s.clock) input)) [
        | inr (code, e) ↦
            cc (ap (λ (r : Result Thrown ParticipantCursor × BridgeState). r.0) (rw e at h))
        | inl (made, e) ↦
            let h' = rw e at h in
            let same : made ≡ c =
              let e' = ap (λ (r : Result Thrown ParticipantCursor × BridgeState). r.0) h' in cc in
            let (its_thread, its_agent, _) = create_participant_cursor_lem (time s.clock) input e in
            (
              ap (λ (r : Result Thrown ParticipantCursor × BridgeState). r.1.threads) (sym h'),
              λ old here. cc here,
              rw (← same) (rw (its_thread, its_agent, trimmed, trimmed') refl),
            )
      ]

  -- An acknowledgement that is taken has passed the checks, found or made a cursor, and moved it.
  ack_read_runs :
      (input : AckReadRequest) (request : Request) (s : BridgeState) {moment : ℕ} {t : BridgeState}
      → ack_read (memory time id) input request s ≡ (ok moment, t)
      → (claims : VerifiedAuthClaims) × (request.context ≡ some claims)
        × (input.last_read_seq ≤ get_latest_message_seq input.thread_id s.threads)
        × (c : ParticipantCursor) × (u : BridgeState) × (cursor_or_new
              (memory time id)
              input.thread_id
              claims.agent_id
              (get_participant_cursor input.thread_id claims.agent_id s.threads)
              s
            ≡ (ok c, u))
        × (store_moved (memory time id) input c u ≡ (ok moment, t))
  unfolding ack_read memory give
  ack_read_runs input request s {moment} {t} h =
      let (claims, authenticated, h1) =
        stepped_check _ _ s (present-Checks request.context _ s) h in
      let (_, permitted, h2) = stepped_check _ _ s (lift-Checks auth _ s) h1 in
      let (_, _, h3) =
        stepped_check _ _ s (check_agent-Checks time id claims input.agent_id s) h2 in
      let (existing, _, h4) =
        stepped_check _ _ s (require_thread-Checks time id claims input.thread_id s) h3 in
      let latest = get_latest_message_seq input.thread_id s.threads in
      let (seq, same, h5) =
        stepped_check _ _ s {P = λ n. n ≡ latest} (inr (latest, refl, refl)) h4 in
      let (_, within, h6) = stepped_check _ _ s (ensure-Checks _ _ s) h5 in
      let found = get_participant_cursor input.thread_id claims.agent_id s.threads in
      let (stored, here, h7) =
        stepped_check _ _ s {P = λ o. o ≡ found} (inr (found, refl, refl)) h6 in
      let (c, u, hc, h8) = stepped _ _ s h7 in
      (
        claims,
        authenticated,
        ground (arith, same, within),
        c,
        u,
        subst (λ o. cursor_or_new (memory time id) input.thread_id claims.agent_id o s ≡ (ok c, u))
            here hc,
        h8,
      )

  -- The cursor that was found or made, moved, is the reader's.
  moved_IsAcknowledged :
      (input : AckReadRequest) (claims : VerifiedAuthClaims) (s u : BridgeState)
      (c : ParticipantCursor) {moment : ℕ} {t : BridgeState}
      → HasKeptCursors s.threads
      → trim input.thread_id ≡ input.thread_id
      → trim claims.agent_id ≡ claims.agent_id
      → input.last_read_seq ≤ get_latest_message_seq input.thread_id s.threads
      → cursor_or_new
          (memory time id)
          input.thread_id
          claims.agent_id
          (get_participant_cursor input.thread_id claims.agent_id s.threads)
          s
        ≡ (ok c, u)
      → store_moved (memory time id) input c u ≡ (ok moment, t)
      → IsAcknowledged input claims s t
  unfolding get_participant_cursor
  moved_IsAcknowledged input claims s u c {moment} {t} kept trimmed trimmed' within hc h =
      let key = cursor_key input.thread_id claims.agent_id in
      let (same_threads, old, owner) =
        cursor_or_new-ok input.thread_id claims.agent_id (get key s.threads.cursor_records) s
          {c = c} {t = u} trimmed trimmed'
          (λ o there. sym (id_of_get key_of key s.threads.cursor_records kept there)) hc in
      let (after, saved, moved, mine, forward) =
        store_moved-ok input c u {moment = moment} {t = t} h in
      let saved' : t.threads ≡ upsert_participant_cursor after s.threads =
        saved ∙ ap (upsert_participant_cursor after) same_threads in
      let (at_key, elsewhere, kept') = upsert_reader after key s.threads (mine ∙ owner) kept in
      record {
        within = within;
        cursor = after;
        stored = rw saved' at_key;
        moved = moved;
        forward = λ o there.
            let same = ap (λ (x : ParticipantCursor). x.last_read_seq) (old o there) in
            omega (arith, same, forward, moved);
        others =
            λ thread_id agent_id apart. rw saved' (elsewhere (cursor_key thread_id agent_id) apart);
        threads = (rest_of_upsert t.threads s.threads after saved').0;
        messages = (rest_of_upsert t.threads s.threads after saved').1;
        kept = rw saved' kept';
      }

  -- Where cursors stand under their keys, and the token's agent and the payload's thread are
  -- without white space around them, an acknowledgement that is taken does not pass the last
  -- message of the thread. The reader's cursor then stands at its number, not before where it
  -- stood, and every other cursor, and every thread and message, is as it was.
  pub ack_read-IsAcknowledged :
      (input : AckReadRequest) (request : Request) (claims : VerifiedAuthClaims) (s : BridgeState)
      {moment : ℕ} {t : BridgeState}
      → HasKeptCursors s.threads
      → request.context ≡ some claims
      → trim input.thread_id ≡ input.thread_id
      → trim claims.agent_id ≡ claims.agent_id
      → ack_read (memory time id) input request s ≡ (ok moment, t)
      → IsAcknowledged input claims s t
  ack_read-IsAcknowledged input request claims s {moment} {t} kept context trimmed trimmed' h =
      let (claims', authenticated, within, c, u, hc, h') = ack_read_runs input request s h in
      let who : claims ≡ claims' = cc (authenticated, context) in
      subst (λ x. IsAcknowledged input x s t) (sym who)
        (moved_IsAcknowledged input claims' s u c {moment = moment} {t = t} kept trimmed
          (subst (λ (x : VerifiedAuthClaims). trim x.agent_id ≡ x.agent_id) who trimmed') within hc
          h')
