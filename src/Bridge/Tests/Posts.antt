-- ===== src/Bridge/Tests/Posts.antt =====
-- Posts at work.
use orkiva.Shared.{
  ℕ, zero, suc, ◌+◌, ◌≤◌, ◌<◌, Bool, true, false, String, Option, none, some, List, [], ◌∷◌, ok,
  err, ◌≡◌, ◌≢◌, ◌⊎◌, ◌↔◌, refl, length, filter, any, trim, arith, inl, inr, Result,
}
use orkiva.Shared.Dict.{get}
use orkiva.Auth.{VerifiedAuthClaims, coordinator, participant}
use orkiva.Domain.Errors.{nat, at}
use orkiva.Domain.Thread.{active, closed}
use orkiva.Domain.Message.{Message, Json, chat}
use orkiva.Bridge.Errors.{Thrown, database, is_reused}
use orkiva.Bridge.ThreadStore.{ThreadStore, messages_of, is_after, read_messages}
use orkiva.Bridge.Dependencies.{Dependencies}
use orkiva.Bridge.Memory.{memory}
use orkiva.Bridge.Handlers.Posting.{
  post_message, to_post_message_output, is_idempotent_replay_match,
}
use orkiva.Bridge.Posts.Permission.{IsPermitted}
use orkiva.Bridge.Posts.Delivery.{
  IsDeliverable, posted_message, posted_answer, after_post, post_message_delivers,
}
use orkiva.Bridge.Posts.Replays.{IsReplay, IsParsed, post_message_replays, post_message_idem}
use orkiva.Bridge.Posts.Attempts.{IsWriteCount, post_message_writes}
use orkiva.Bridge.Tests.{
  time, id, deep_equal, ada, by_ada, a_thread, a_message, begun, begun-IsNumbered, a_post,
}

a_post-IsPermitted : (key : String) → IsPermitted (a_post key) by_ada begun
unfolding orkiva.Auth.authorize_operation orkiva.Auth.assert_payload_identity_matches_claims
    orkiva.Bridge.ThreadStore.get_thread_by_id get orkiva.Auth.assert_workspace_boundary
    orkiva.Shared.is_empty trim orkiva.Bridge.ThreadStore.get_message_by_id
a_post-IsPermitted key = record {
  claims = ada;
  thread = a_thread;
  authenticated = refl;
  permitted = refl;
  identified = refl;
  found = refl;
  inside = refl;
  answers = (a_message 1 "k1", refl);
}

a_post-IsDeliverable : IsDeliverable "one" (a_post "k3") by_ada begun
unfolding a_post-IsPermitted orkiva.Bridge.ThreadStore.get_message_by_idempotency
a_post-IsDeliverable = record {
  permit = a_post-IsPermitted "k3";
  fresh = refl;
  room = omega arith;
  version = 0;
  versioned = refl;
  metadata = tt;
  in_reply_to = refl;
  idempotency_key = refl;
  message_id = refl;
  thread_id = refl;
  agent_id = refl;
  session_id = refl;
  body = refl;
}

active≢closed : active ≢ closed
active≢closed e = cc

post_message_delivers_example :
    post_message deep_equal (memory time id) (a_post "k3") by_ada begun ≡ (
      ok (posted_answer active "one" 1000 3),
      after_post (a_post "k3") (posted_message (a_post "k3") ada "one" 1000 3) begun,
    )
unfolding a_post-IsDeliverable
post_message_delivers_example =
    post_message_delivers time id deep_equal (a_post "k3") by_ada begun begun-IsNumbered
      a_post-IsDeliverable active≢closed

a_post-IsParsed : IsParsed deep_equal (a_post "k3")
unfolding trim
a_post-IsParsed = record {
  body = refl;
  in_reply_to = refl;
  idempotency_key = refl;
  metadata = refl;
}

post_message_idem_example :
    post_message deep_equal
      (memory time id)
      (a_post "k3")
      by_ada
      (post_message deep_equal (memory time id) (a_post "k3") by_ada begun).1
    ≡ post_message deep_equal (memory time id) (a_post "k3") by_ada begun
unfolding a_post-IsDeliverable trim
post_message_idem_example =
    post_message_idem time id deep_equal (a_post "k3") by_ada begun "k3" begun-IsNumbered
      a_post-IsDeliverable a_post-IsParsed refl refl

a_post-IsReplay : IsReplay (a_post "k1") by_ada begun
unfolding orkiva.Bridge.ThreadStore.get_message_by_idempotency get a_post-IsPermitted
a_post-IsReplay = record {
  permit = a_post-IsPermitted "k1";
  key = "k1";
  message = a_message 1 "k1";
  keyed = refl;
  used = refl;
}

-- The payload answers a message, which the stored one does not.
post_message_replays_example :
    (is_idempotent_replay_match deep_equal (a_post "k1") (a_message 1 "k1") ≡ true
      → post_message deep_equal (memory time id) (a_post "k1") by_ada begun
        ≡ (ok (to_post_message_output (a_message 1 "k1") active), begun))
    × (is_idempotent_replay_match deep_equal (a_post "k1") (a_message 1 "k1") ≡ false
        → post_message deep_equal (memory time id) (a_post "k1") by_ada begun
          ≡ (err is_reused, begun))
unfolding a_post-IsReplay
post_message_replays_example =
    post_message_replays time id deep_equal (a_post "k1") by_ada begun a_post-IsReplay

-- A store that counts what it is asked to write and refuses it as written by another.
abbrev contended : Dependencies ℕ
contended = record {
  now = λ n. (ok 1, n);
  new_id = λ n. (ok "x", n);
  create_thread = λ input n. (ok a_thread, n);
  get_thread_by_id = λ k n. (ok (some a_thread), n);
  update_thread_status = λ k status moment expected n. (ok none, n);
  summarize_thread = λ k most n. (ok none, n);
  create_message = λ input n. (err (database "23505"), suc n);
  get_latest_message_seq = λ k n. (ok 1, n);
  read_messages =
      λ k since limit n. (ok (record { messages = []; next_seq = since; has_more = false }), n);
  get_message_by_id = λ k m n. (ok (some (a_message 1 "k1")), n);
  get_message_by_idempotency = λ k a i n. (ok none, n);
  get_participant_cursor = λ k a n. (ok none, n);
  upsert_participant_cursor = λ c n. (ok tt, n);
  heartbeat_session = λ input n. (err Thrown.unknown, n);
  get_session = λ a w n. (ok none, n);
  create_or_reuse_trigger_job = λ job n. (ok (record { job = job; created = true }), n);
  write_event = none;
}

contended-IsWriteCount : IsWriteCount (λ n. n) contended
contended-IsWriteCount = record {
  create_message = λ _. record { at = λ n. omega arith };
  now = record { at = λ n. omega arith };
  new_id = record { at = λ n. omega arith };
  get_thread_by_id = λ _. record { at = λ n. omega arith };
  get_latest_message_seq = λ _. record { at = λ n. omega arith };
  get_message_by_id = λ _ _. record { at = λ n. omega arith };
  get_message_by_idempotency = λ _ _ _. record { at = λ n. omega arith };
}

post_message_writes_example : (post_message deep_equal contended (a_post "k3") by_ada 0).1 ≤ 3 + 0
post_message_writes_example =
    post_message_writes (λ n. n) deep_equal contended contended-IsWriteCount (a_post "k3") by_ada 0

-- The bound is met: three attempts, and then the error of the last.
contended_three :
    post_message deep_equal contended (a_post "k3") by_ada 0 ≡ (err (database "23505"), 3)
unfolding post_message orkiva.Shared.Actions.◌>>=◌ orkiva.Auth.authorize_operation
    orkiva.Auth.assert_payload_identity_matches_claims orkiva.Auth.assert_workspace_boundary
    orkiva.Shared.is_empty trim orkiva.Domain.Message.get_next_message_sequence
    orkiva.Domain.Errors.require_positive_integer
contended_three = refl
