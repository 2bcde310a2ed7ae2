-- ===== src/Bridge/Posts/Permission.antt =====
-- How far a post comes that the token allows, in `post_message` of apps/bridge-api/src/app.ts.
use orkiva.Shared.{ℕ, Bool, String, Option, none, some, ok, ◌≡◌, refl, ◌∙◌}
use orkiva.Shared.Actions.{◌>>=◌, give, lift, present}
use orkiva.Shared.Actions.Refusals.{returned, present_some, lift_ok}
use orkiva.Auth.{
  VerifiedAuthClaims, message_write, authorize_operation, assert_payload_identity_matches_claims,
  assert_workspace_boundary,
}
use orkiva.Domain.Thread.{Thread}
use orkiva.Domain.Message.{Message, Json}
use orkiva.Bridge.ThreadStore.{get_thread_by_id, get_message_by_id}
use orkiva.Bridge.Errors.{auth}
use orkiva.Bridge.Requests.{Request, PostMessageRequest}
use orkiva.Bridge.Dependencies.{require_thread}
use orkiva.Bridge.Memory.{BridgeState, memory}
use orkiva.Bridge.Handlers.Posting.{attempts, post_message, find_replay, replay_or, check_parent}

-- The message that the payload answers is in its thread.
abbrev pub AnswersIn : BridgeState → String → Option String → Type 0
AnswersIn s thread_id none = Unit
AnswersIn s thread_id (some parent_id) =
    (m : Message) × (get_message_by_id thread_id parent_id s.threads ≡ some m)

-- A post that the token allows, to a thread of its workspace, that answers a message of it if any.
pub record IsPermitted (input : PostMessageRequest) (request : Request) (s : BridgeState)
    : Type 0 where
  pub claims : VerifiedAuthClaims
  pub thread : Thread
  pub authenticated : request.context ≡ some claims
  pub permitted : authorize_operation claims.role message_write ≡ ok tt
  pub identified :
      assert_payload_identity_matches_claims claims (record {
        agent_id = input.sender_agent_id;
        workspace_id = none;
        role = none;
        session_id = input.sender_session_id;
      })
      ≡ ok tt
  pub found : get_thread_by_id input.thread_id s.threads ≡ some thread
  pub inside : assert_workspace_boundary claims thread.workspace_id ≡ ok tt
  pub answers : AnswersIn s input.thread_id input.in_reply_to

module _ (time : ℕ → ℕ) (id : ℕ → String) (deep_equal : Option Json → Option Json → Bool) where
  pub check_parent_passes :
      (input : PostMessageRequest) (s : BridgeState) (parent : Option String)
      → AnswersIn s input.thread_id parent
      → check_parent deep_equal (memory time id) input parent s ≡ (ok tt, s)
  unfolding memory give ◌>>=◌ present
  check_parent_passes input s none h = refl
  check_parent_passes input s (some p) (m, h) = rw h refl

  pub require_thread_passes :
      (claims : VerifiedAuthClaims) (thread_id : String) (s : BridgeState) (t : Thread)
      → get_thread_by_id thread_id s.threads ≡ some t
      → assert_workspace_boundary claims t.workspace_id ≡ ok tt
      → require_thread (memory time id) claims thread_id s ≡ (ok t, s)
  unfolding memory give ◌>>=◌ present lift
  require_thread_passes claims thread_id s t h inside = rw (h, inside) refl

  -- A post that is permitted comes to the search for its key.
  pub post_message_upto :
      (input : PostMessageRequest) (request : Request) (s : BridgeState)
      (p : IsPermitted input request s)
      → post_message deep_equal (memory time id) input request s
        ≡ (find_replay deep_equal (memory time id) input p.claims input.idempotency_key
              >>= λ replayed.
                  replay_or deep_equal
                    (memory time id)
                    input
                    p.thread.status
                    (attempts deep_equal (memory time id) 3 input p.claims p.thread.status)
                    replayed)
            s
  unfolding post_message
  post_message_upto input request s p =
      returned _ _ s s p.claims (present_some _ _ s p.claims p.authenticated)
      ∙ returned _ _ s s tt (lift_ok auth _ s tt p.permitted)
      ∙ returned _ _ s s tt (lift_ok auth _ s tt p.identified)
      ∙ returned _ _ s s p.thread
          (require_thread_passes p.claims input.thread_id s p.thread p.found p.inside)
      ∙ returned _ _ s s tt (check_parent_passes input s input.in_reply_to p.answers)
