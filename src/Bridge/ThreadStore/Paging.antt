-- ===== src/Bridge/ThreadStore/Paging.antt =====
-- Reading the messages of a thread page by page, in apps/bridge-api/src/thread-store.ts.
use orkiva.Shared.{
  ℕ, zero, suc, ◌≤◌, ◌<◌, true, false, String, List, [], ◌∷◌, ◌++◌, length, filter, take, get_last?,
  ltb, if◌then◌else◌, ◌≡◌, refl, sym, ap, ◌∙◌, arith, Bool-cases, inl, inr, length-append,
}
use orkiva.Domain.Message.{Message}
use orkiva.Bridge.ThreadStore.{
  ThreadStore, ReadMessagesResult, messages_of, is_after, next_seq_of, read_messages,
}
use orkiva.Bridge.ThreadStore.Numbering.{IsNumberedFrom, IsNumbered, messages_of-IsNumbered}

after_all :
    (n since : ℕ) (ms : List Message)
    → since ≤ n
    → IsNumberedFrom n ms
    → filter (is_after since) ms ≡ ms
after_all n since [] l h = refl
after_all n since (m ∷ ms) l (e, h) = ground (arith, after_all (suc n) since ms (omega arith) h)

after-IsNumberedFrom :
    (n since : ℕ) (ms : List Message)
    → n ≤ since
    → IsNumberedFrom n ms
    → IsNumberedFrom since (filter (is_after since) ms)
after-IsNumberedFrom n since [] l h = tt
after-IsNumberedFrom n since (m ∷ ms) l (e, h) = elim (Bool-cases (is_after since m)) [
  | inl later ↦
      let here : n ≡ since = ground arith in
      let rest = after_all (suc n) since ms (omega arith) h in rw (later, rest, ← here) (e, h)
  | inr passed ↦ rw passed (after-IsNumberedFrom (suc n) since ms (ground arith) h)
]

after-after :
    (since t : ℕ) (ms : List Message)
    → since ≤ t
    → filter (is_after t) (filter (is_after since) ms) ≡ filter (is_after t) ms
after-after since t [] l = refl
after-after since t (m ∷ ms) l = ground (arith, after-after since t ms l)

next_seq_of-cons :
    (s : ℕ) (m : Message) (ms : List Message)
    → next_seq_of s (get_last? (m ∷ ms)) ≡ next_seq_of m.seq (get_last? ms)
next_seq_of-cons s m [] = refl
next_seq_of-cons s m (k ∷ []) = refl
next_seq_of-cons s m (k ∷ l ∷ ms) = next_seq_of-cons s m (l ∷ ms)

next_seq_of-take-le :
    (k s : ℕ) (ms : List Message) → IsNumberedFrom s ms → s ≤ next_seq_of s (get_last? (take k ms))
next_seq_of-take-le zero s ms h = omega arith
next_seq_of-take-le (suc k) s [] h = omega arith
next_seq_of-take-le (suc k) s (m ∷ ms) (e, h) =
    let rest = next_seq_of-take-le k (suc s) ms h in
    rw (next_seq_of-cons s m (take k ms), e) (omega (arith, rest))

take_tiles :
    (k s : ℕ) (ms : List Message)
    → IsNumberedFrom s ms
    → take k ms ++ filter (is_after (next_seq_of s (get_last? (take k ms)))) ms ≡ ms
take_tiles zero s ms h = after_all s s ms (omega arith) h
take_tiles (suc k) s [] h = refl
take_tiles (suc k) s (m ∷ ms) (e, h) =
    let t = next_seq_of (suc s) (get_last? (take k ms)) in
    let below = next_seq_of-take-le k (suc s) ms h in
    let passed : is_after t m ≡ false = ground (arith, e, below) in
    let next =
      next_seq_of-cons s m (take k ms) ∙ ap (λ n. next_seq_of n (get_last? (take k ms))) e in
    ap (λ v. m ∷ take k ms ++ filter (is_after v) (m ∷ ms)) next
    ∙ rw passed (ap (◌∷◌ m) (take_tiles k (suc s) ms h))

-- What a page says: it and the messages after its next number are all after the given one, in
-- order, and there is more exactly when there are messages after the next number.
pub record IsPage (ms : List Message) (since : ℕ) (r : ReadMessagesResult) : Type 0 where
  pub tiles : r.messages ++ filter (is_after r.next_seq) ms ≡ filter (is_after since) ms
  pub more : r.has_more ≡ ltb 0 (length (filter (is_after r.next_seq) ms))
  pub forward : since ≤ r.next_seq

length-take :
    (k : ℕ) (ms : List Message)
    → (length ms ≤ k → length (take k ms) ≡ length ms) × (k < length ms → length (take k ms) ≡ k)
length-take zero [] = ground arith
length-take zero (m ∷ ms) = ground arith
length-take (suc k) [] = ground arith
length-take (suc k) (m ∷ ms) = ground (arith, length-take k ms)

-- Over messages that are numbered without a gap, each page tiles: it is followed by what stands
-- after its next number, and says whether there is any.
pub read_messages-IsPage :
    (thread_id : String) (since limit : ℕ) (store : ThreadStore)
    → IsNumbered store
    → IsPage (messages_of thread_id store) since (read_messages thread_id since limit store)
unfolding read_messages
read_messages-IsPage thread_id since limit store h =
    let ms = messages_of thread_id store in
    let numbered =
      after-IsNumberedFrom 0 since ms (omega arith) (messages_of-IsNumbered thread_id store h) in
    let left = filter (is_after since) ms in
    let t = next_seq_of since (get_last? (take limit left)) in
    let below = next_seq_of-take-le limit since left numbered in
    let tiles = take_tiles limit since left numbered in
    let same = after-after since t ms below in
    let counts = ap length tiles in
    let split = length-append (take limit left) (filter (is_after t) left) in
    let short = length-take limit left in
    record {
      tiles = rw (← same) tiles;
      more = rw (← same) (ground (arith, counts, split, short));
      forward = below;
    }

-- A reader who asks for page after page until there is no more; the fuel counts the pages.
unfoldable pub read_all : ℕ → String → ℕ → ℕ → ThreadStore → List Message
read_all zero thread_id since limit store = []
read_all (suc fuel) thread_id since limit store =
    let page = read_messages thread_id since limit store in
    let rest = read_all fuel thread_id page.next_seq limit store in
    page.messages ++ (if page.has_more then rest else [])

length-zero : (ms : List Message) → ltb 0 (length ms) ≡ false → ms ≡ []
length-zero [] h = refl
length-zero (m ∷ ms) h = ground arith

append-nil : (ms : List Message) → ms ++ [] ≡ ms
append-nil [] = refl
append-nil (m ∷ ms) = ap (◌∷◌ m) (append-nil ms)

-- A page that is not the last has messages.
page_counts :
    (thread_id : String) (since limit : ℕ) (store : ThreadStore)
    → let r = read_messages thread_id since (suc limit) store in
      r.has_more ≡ true → 0 < length r.messages
unfolding read_messages
page_counts thread_id since limit store h =
    ground
      (arith, h, length-take (suc limit) (filter (is_after since) (messages_of thread_id store)))

-- With pages of at least one message over messages that are numbered without a gap, a reader who
-- asks for as many pages as there are messages left, and one more, has all of them, in order.
pub read_all_complete :
    (fuel : ℕ) (thread_id : String) (since limit : ℕ) (store : ThreadStore)
    → IsNumbered store
    → length (filter (is_after since) (messages_of thread_id store)) < fuel
    → read_all fuel thread_id since (suc limit) store
      ≡ filter (is_after since) (messages_of thread_id store)
unfolding read_all
read_all_complete zero thread_id since limit store h enough = absurd (omega (arith, enough))
read_all_complete (suc fuel) thread_id since limit store h enough =
    let ms = messages_of thread_id store in
    let page = read_messages thread_id since (suc limit) store in
    let left = filter (is_after page.next_seq) ms in
    let says = read_messages-IsPage thread_id since (suc limit) store h in
    elim (Bool-cases page.has_more) [
      | inr last ↦
          let none_left = length-zero left (sym says.more ∙ last) in
          rw last (sym (ap (◌++◌ page.messages) none_left) ∙ says.tiles)
      | inl more ↦
          let counts = ap length says.tiles in
          let split = length-append page.messages left in
          let some_read = page_counts thread_id since limit store more in
          let rest =
            read_all_complete fuel thread_id page.next_seq limit store h
              (omega (arith, counts, split, some_read, enough)) in
          rw (more, rest) says.tiles
    ]
