-- ===== src/Bridge/Posts/Attempts.antt =====
-- How often `post_message` of apps/bridge-api/src/app.ts writes to the store.
use orkiva.Shared.{
  ℕ, zero, suc, ◌+◌, ◌≤◌, Bool, true, false, String, Option, none, some, Result, ok, err, arith,
  if◌then◌else◌,
}
use orkiva.Shared.Actions.{resume, recover, ◌>>=◌, give, throw, lift, ensure, present, catching}
use orkiva.Auth.{VerifiedAuthClaims}
use orkiva.Domain.Thread.{ThreadStatus}
use orkiva.Domain.Message.{Json, Message, CreateMessageInput}
use orkiva.Bridge.Errors.{Thrown}
use orkiva.Bridge.Requests.{Request, PostMessageRequest, PostMessageResponse}
use orkiva.Bridge.Dependencies.{Call, Dependencies, require_thread}
use orkiva.Bridge.Handlers.Posting.{
  attempts, post_message, find_replay, replay_or, check_parent, retry_or_throw, write_message,
}

module _ {S : Type 0} (count : S → ℕ) where
  -- The call raises the count by at most `n`, whether it returns or throws.
  pub record Costs {A : Type 0} (n : ℕ) (call : Call S A) : Type 0 where
    pub at : (s : S) → count (call s).1 ≤ n + count s

  resume-Costs :
      {A B : Type 0} (a b : ℕ) (s : S) (p : Result Thrown A × S) (next : A → Call S B)
      → count p.1 ≤ a + count s
      → ((x : A) → Costs b (next x))
      → count (resume p next).1 ≤ a + b + count s
  resume-Costs a b s (err e, t) next h k = omega (arith, h)
  resume-Costs a b s (ok x, t) next h k = let l = (k x).at t in omega (arith, h, l)

  Costs-bind :
      {A B : Type 0} (a b : ℕ) (call : Call S A) (next : A → Call S B)
      → Costs a call
      → ((x : A) → Costs b (next x))
      → Costs (a + b) (call >>= next)
  unfolding ◌>>=◌
  Costs-bind a b call next h k = record { at = λ s. resume-Costs a b s (call s) next (h.at s) k }

  -- A call that costs nothing before the rest.
  Costs-free :
      {A B : Type 0} (b : ℕ) (call : Call S A) (next : A → Call S B)
      → Costs 0 call
      → ((x : A) → Costs b (next x))
      → Costs b (call >>= next)
  Costs-free b call next h k = record {
    at = λ s. let l = (Costs-bind 0 b call next h k).at s in omega (arith, l);
  }

  recover-Costs :
      {A : Type 0} (a b : ℕ) (s : S) (p : Result Thrown A × S) (handler : Thrown → Call S A)
      → count p.1 ≤ a + count s
      → ((e : Thrown) → Costs b (handler e))
      → count (recover p handler).1 ≤ a + b + count s
  recover-Costs a b s (ok x, t) handler h k = omega (arith, h)
  recover-Costs a b s (err e, t) handler h k = let l = (k e).at t in omega (arith, h, l)

  Costs-catching :
      {A : Type 0} (a b : ℕ) (call : Call S A) (handler : Thrown → Call S A)
      → Costs a call
      → ((e : Thrown) → Costs b (handler e))
      → Costs (a + b) (catching call handler)
  unfolding catching
  Costs-catching a b call handler h k = record {
    at = λ s. recover-Costs a b s (call s) handler (h.at s) k;
  }

  module _ {A : Type 0} (n : ℕ) where
    Costs-give : (x : A) → Costs n (give x)
    unfolding give
    Costs-give x = record { at = λ s. omega arith }

    Costs-throw : (e : Thrown) → Costs {A = A} n (throw e)
    unfolding throw
    Costs-throw e = record { at = λ s. omega arith }

    Costs-lift : {F : Type 0} (f : F → Thrown) (r : Result F A) → Costs n (lift f r)
    unfolding lift
    Costs-lift f (err e) = record { at = λ s. omega arith }
    Costs-lift f (ok x) = record { at = λ s. omega arith }

    Costs-present : (o : Option A) (e : Thrown) → Costs n (present o e)
    unfolding present
    Costs-present none e = record { at = λ s. omega arith }
    Costs-present (some x) e = record { at = λ s. omega arith }

    Costs-if : (b : Bool) (m k : Call S A) → Costs n m → Costs n k → Costs n (if b then m else k)
    Costs-if true m k h l = h
    Costs-if false m k h l = l

  Costs-ensure : (n : ℕ) (b : Bool) (e : Thrown) → Costs n (ensure b e)
  unfolding ensure
  Costs-ensure n false e = record { at = λ s. omega arith }
  Costs-ensure n true e = record { at = λ s. omega arith }

  -- The count goes up by at most one where a message is written, and the other calls that a post
  -- makes leave it.
  pub record IsWriteCount (d : Dependencies S) : Type 0 where
    pub create_message : (input : CreateMessageInput) → Costs 1 (d.create_message input)
    pub now : Costs 0 d.now
    pub new_id : Costs 0 d.new_id
    pub get_thread_by_id : (k : String) → Costs 0 (d.get_thread_by_id k)
    pub get_latest_message_seq : (k : String) → Costs 0 (d.get_latest_message_seq k)
    pub get_message_by_id : (k m : String) → Costs 0 (d.get_message_by_id k m)
    pub get_message_by_idempotency : (k a i : String) → Costs 0 (d.get_message_by_idempotency k a i)

  module _ (deep_equal : Option Json → Option Json → Bool) (d : Dependencies S)
      (h : IsWriteCount d) where
    find_replay-Costs :
        (input : PostMessageRequest) (claims : VerifiedAuthClaims) (key : Option String)
        → Costs 0 (find_replay deep_equal d input claims key)
    find_replay-Costs input claims none = Costs-give 0 none
    find_replay-Costs input claims (some key) = h.get_message_by_idempotency _ _ _

    replay_or-Costs :
        (n : ℕ) (input : PostMessageRequest) (status : ThreadStatus)
        (otherwise : Call S PostMessageResponse) (found : Option Message)
        → Costs n otherwise
        → Costs n (replay_or deep_equal d input status otherwise found)
    replay_or-Costs n input status otherwise none k = k
    replay_or-Costs n input status otherwise (some m) k =
        Costs-free n _ _ (Costs-ensure 0 _ _) λ _. Costs-give n _

    check_parent-Costs :
        (input : PostMessageRequest) (parent : Option String)
        → Costs 0 (check_parent deep_equal d input parent)
    check_parent-Costs input none = Costs-give 0 tt
    check_parent-Costs input (some p) =
        Costs-free 0 _ _ (h.get_message_by_id _ _)
          λ _. Costs-free 0 _ _ (Costs-present 0 _ _) λ _. Costs-give 0 tt

    write_message-Costs :
        (input : PostMessageRequest) (claims : VerifiedAuthClaims) (status : ThreadStatus) (seq : ℕ)
        → Costs 1 (write_message deep_equal d input claims status seq)
    write_message-Costs input claims status seq =
        Costs-free 1 _ _ h.new_id λ _.
          Costs-free 1 _ _ h.now λ _. Costs-bind 1 0 _ _ (h.create_message _) λ _. Costs-give 0 _

    retry_or_throw-Costs :
        (left : ℕ) (error : Thrown) (next : Call S PostMessageResponse)
        → Costs left next
        → Costs left (retry_or_throw deep_equal d left error next)
    retry_or_throw-Costs left error next k = Costs-if left _ _ _ k (Costs-throw left error)

    require_thread-Costs :
        (claims : VerifiedAuthClaims) (thread_id : String)
        → Costs 0 (require_thread d claims thread_id)
    require_thread-Costs claims thread_id = Costs-free 0 _ _ (h.get_thread_by_id thread_id) λ _.
        Costs-free 0 _ _ (Costs-present 0 _ _)
          λ _. Costs-free 0 _ _ (Costs-lift 0 _ _) λ _. Costs-give 0 _

    attempts-Costs :
        (left : ℕ) (input : PostMessageRequest) (claims : VerifiedAuthClaims)
        (status : ThreadStatus)
        → Costs left (attempts deep_equal d left input claims status)
    unfolding attempts
    attempts-Costs zero input claims status = Costs-throw 0 _
    attempts-Costs (suc left) input claims status =
        let next = attempts-Costs left input claims status in
        Costs-free (suc left) _ _ (h.get_latest_message_seq _) λ _.
          Costs-free (suc left) _ _ (Costs-lift 0 _ _) λ seq.
            let write = write_message-Costs input claims status seq in
            let failed = λ (error : Thrown).
              Costs-free left _ _ (find_replay-Costs input claims input.idempotency_key) λ found.
                replay_or-Costs left input status
                  (retry_or_throw deep_equal d left error
                    (attempts deep_equal d left input claims status))
                  found (retry_or_throw-Costs left error _ next) in
            record {
              at = λ s. let l = (Costs-catching 1 left _ _ write failed).at s in omega (arith, l);
            }

    -- A post writes at most three messages to the store, whatever the store answers: a count that goes
    -- up by at most one with each write of a message, and stays with the other calls of a post, goes
    -- up by at most three.
    pub post_message_writes :
        (input : PostMessageRequest) (request : Request) (s : S)
        → count (post_message deep_equal d input request s).1 ≤ 3 + count s
    unfolding post_message
    post_message_writes input request s =
        (Costs-free 3 _ _ (Costs-present 0 _ _) λ claims. Costs-free 3 _ _ (Costs-lift 0 _ _) λ _.
            Costs-free 3 _ _ (Costs-lift 0 _ _) λ _.
              Costs-free 3 _ _ (require_thread-Costs claims input.thread_id) λ existing.
                Costs-free 3 _ _ (check_parent-Costs input input.in_reply_to) λ _.
                  Costs-free 3 _ _ (find_replay-Costs input claims input.idempotency_key) λ found.
                    replay_or-Costs 3 input existing.status _ found
                      (attempts-Costs 3 input claims existing.status)).at
          s
