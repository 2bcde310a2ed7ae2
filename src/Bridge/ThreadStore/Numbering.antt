-- ===== src/Bridge/ThreadStore/Numbering.antt =====
-- The numbers of a thread's messages in apps/bridge-api/src/thread-store.ts.
use orkiva.Shared.{
  value_of_ok, ℕ, suc, ◌+◌, true, false, String, some, List, [], ◌∷◌, ◌++◌, ok, >>=-eq-ok,
  guard-eq-ok, length, get_last?, str_eq, ◌≡◌, refl, sym, ap, ◌∙◌, arith, Option-cases, inl, inr,
  subst,
}
use orkiva.Shared.Dict.{get, set, get-set_self, get-set_ne, Each, Each-set, Each-get}
use orkiva.Domain.Errors.{Number, nat}
use orkiva.Domain.Thread.{Thread, create_thread}
use orkiva.Domain.Message.{Message, CreateMessageInput, create_message, get_next_message_sequence}
use orkiva.Domain.Message.Checks.{
  IsSendable, message_of, create_message_accepts, create_message_requires,
}
use orkiva.Domain.Message.Sequence.{get_next_message_sequence_iff}
use orkiva.Bridge.ThreadStore.{
  ThreadStore, CreateThreadRecordInput, domain_input, add_thread, add_message, messages_of,
  last_seq, is_number,
}

-- Messages numbered one by one after `n`.
abbrev pub IsNumberedFrom : ℕ → List Message → Type 0
IsNumberedFrom n [] = Unit
IsNumberedFrom n (m ∷ ms) = (m.seq ≡ suc n) × IsNumberedFrom (suc n) ms

-- In every thread the messages have the numbers from 1 on, without a gap.
abbrev pub IsNumbered : ThreadStore → Type 0
IsNumbered store = Each (λ (k : String) ms. IsNumberedFrom 0 ms) store.message_records

pub messages_of-IsNumbered :
    (thread_id : String) (store : ThreadStore)
    → IsNumbered store
    → IsNumberedFrom 0 (messages_of thread_id store)
unfolding messages_of
messages_of-IsNumbered thread_id store h =
    elim (Option-cases (get thread_id store.message_records)) [
      | inl absent ↦ rw absent tt
      | inr (ms, here) ↦
          rw here (
            Each-get (λ (k : String) ms. IsNumberedFrom 0 ms) thread_id store.message_records h
              here)
    ]

get_last?-IsNumberedFrom :
    (n : ℕ) (m : Message) (ms : List Message)
    → IsNumberedFrom n (m ∷ ms)
    → (l : Message) × (get_last? (m ∷ ms) ≡ some l) × (l.seq ≡ n + length (m ∷ ms))
get_last?-IsNumberedFrom n m [] (e, h) = (m, refl, omega (arith, e))
get_last?-IsNumberedFrom n m (k ∷ ms) (e, h) =
    let (l, here, same) = get_last?-IsNumberedFrom (suc n) k ms h in (l, here, omega (arith, same))

-- The last number of a thread is the count of its messages.
pub last_seq-eq-length : (ms : List Message) → IsNumberedFrom 0 ms → last_seq ms ≡ length ms
last_seq-eq-length [] h = refl
last_seq-eq-length (m ∷ ms) h =
    let (l, here, same) = get_last?-IsNumberedFrom 0 m ms h in rw here (omega (arith, same))

IsNumberedFrom-append :
    (n : ℕ) (ms : List Message) (m : Message)
    → IsNumberedFrom n ms
    → m.seq ≡ suc (n + length ms)
    → IsNumberedFrom n (ms ++ m ∷ [])
IsNumberedFrom-append n [] m h e = (omega (arith, e), tt)
IsNumberedFrom-append n (k ∷ ms) m (e, h) e' =
    (e, IsNumberedFrom-append (suc n) ms m h (omega (arith, e')))

pub message_of_create_message :
    (now : ℕ) (input : CreateMessageInput) {m : Message}
    → create_message now input ≡ ok m
    → (s : IsSendable now input) × (m ≡ message_of (suc s.version) (suc s.number) s.time input)
message_of_create_message now input {m} h =
    let s = create_message_requires now input {m = m} h in
    let same = create_message_accepts now input s in (s, cc (h, same))

number_of_test : (n : Number) (k : ℕ) → is_number n k ≡ true → n ≡ nat k
number_of_test n k h = ground arith

-- What a message that is stored has gone through.
pub add_message-eq-ok :
    (now : ℕ) (input : CreateMessageInput) (store : ThreadStore) {m : Message}
    {store' : ThreadStore}
    → add_message now input store ≡ ok (m, store')
    → (get_next_message_sequence (nat (last_seq (messages_of input.thread_id store))) ≡ ok m.seq)
      × (create_message now input ≡ ok m)
      × (store' ≡ record store {
        message_records =
            set input.thread_id (messages_of input.thread_id store ++ m ∷ []) store.message_records;
      })
unfolding add_message
add_message-eq-ok now input store {m} {store'} h =
    let ms = messages_of input.thread_id store in
    let (expected, next, h1) = >>=-eq-ok (get_next_message_sequence (nat (last_seq ms))) _ h in
    let (numbered, h2) = guard-eq-ok (is_number input.seq expected) _ _ h1 in
    let (m', made, h3) = >>=-eq-ok (create_message now input) _ h2 in
    let (s, same) = message_of_create_message now input {m = m'} made in
    let seq_of_input : nat expected ≡ nat (suc s.number) =
      sym (number_of_test input.seq expected numbered) ∙ s.numbered in
    let seq_same : expected ≡ m'.seq = cc (seq_of_input, same) in
    let pair = value_of_ok h3 in
    let here : m' ≡ m = ap (λ (x : Message × ThreadStore). x.0) pair in
    (
      rw (← here) (rw (← seq_same) next),
      rw (← here) made,
      rw (← here) (sym (ap (λ (x : Message × ThreadStore). x.1) pair)),
    )

abbrev pub IsAppended : CreateMessageInput → Message → ThreadStore → ThreadStore → Type 0
IsAppended input m store store' =
    (messages_of input.thread_id store' ≡ messages_of input.thread_id store ++ m ∷ [])
    × ((k : String) → str_eq input.thread_id k ≡ false → messages_of k store' ≡ messages_of k store)
    × (store'.thread_records ≡ store.thread_records)
    × (store'.cursor_records ≡ store.cursor_records)

-- A message that is stored stands at the end of its thread, and nothing else changes.
pub add_message-IsAppended :
    (now : ℕ) (input : CreateMessageInput) (store : ThreadStore) {m : Message}
    {store' : ThreadStore}
    → add_message now input store ≡ ok (m, store')
    → IsAppended input m store store'
unfolding messages_of
add_message-IsAppended now input store {m} {store'} h =
    let (_, _, same) = add_message-eq-ok now input store {m = m} {store' = store'} h in
    let ms = messages_of input.thread_id store in
    rw same (
      rw (get-set_self input.thread_id (ms ++ m ∷ []) store.message_records) refl,
      λ k other. rw (get-set_ne input.thread_id k (ms ++ m ∷ []) store.message_records other) refl,
      refl,
      refl,
    )

-- Messages are numbered from 1 without a gap: a message that is stored gets the count of its thread
-- plus one, and no thread gets a gap or a number twice.
pub add_message-IsNumbered :
    (now : ℕ) (input : CreateMessageInput) (store : ThreadStore) {m : Message}
    {store' : ThreadStore}
    → IsNumbered store
    → add_message now input store ≡ ok (m, store')
    → IsNumbered store' × (m.seq ≡ suc (length (messages_of input.thread_id store)))
add_message-IsNumbered now input store {m} {store'} h e =
    let ms = messages_of input.thread_id store in
    let (next, _, same) = add_message-eq-ok now input store {m = m} {store' = store'} e in
    let numbered = messages_of-IsNumbered input.thread_id store h in
    let (_, follows) = ((get_next_message_sequence_iff (last_seq ms)).0 m.seq).0 next in
    let m_seq : m.seq ≡ suc (length ms) = follows ∙ ap suc (last_seq-eq-length ms numbered) in
    (
      rw same (
          Each-set (λ (k : String) ms. IsNumberedFrom 0 ms) input.thread_id (ms ++ m ∷ [])
            store.message_records (IsNumberedFrom-append 0 ms m numbered (omega (arith, m_seq))) h),
      m_seq,
    )

-- A new thread begins without messages, and keeps the others' numbers.
pub add_thread-IsNumbered :
    (now : ℕ) (input : CreateThreadRecordInput) (store : ThreadStore) {t : Thread}
    {store' : ThreadStore}
    → IsNumbered store
    → add_thread now input store ≡ ok (t, store')
    → IsNumbered store'
unfolding add_thread
add_thread-IsNumbered now input store {t} {store'} h e =
    let (thread, _, e') = >>=-eq-ok (create_thread now (domain_input input)) _ e in
    let pair = value_of_ok e' in
    subst IsNumbered (ap (λ (x : Thread × ThreadStore). x.1) pair) (
      Each-set (λ (k : String) ms. IsNumberedFrom 0 ms) thread.thread_id [] store.message_records tt
        h)
