-- ===== src/Domain/Thread/Tests.antt =====
-- Threads at work.
use orkiva.Shared.{
  String, List, [], ◌∷◌, none, some, ok, err, ◌≡◌, refl, ◌↔◌, ◌⊎◌, inl, inr, ◌≢◌, true, false,
}
use orkiva.Domain.Errors.{at, invalid, invalid_thread_transition, invalid_argument}
use orkiva.Domain.Thread.{
  Thread, CreateThreadInput, ThreadStatus, active, blocked, resolved, closed, conversation,
  create_thread, transition_thread_status,
}
use orkiva.Domain.Thread.Creation.{IsWellFormed, IsAcceptable, create_thread-IsWellFormed}
use orkiva.Domain.Thread.Lifecycle.{
  Change, IsFinished, transition_thread_status_iff, transition_thread_status_refuses,
  serve-IsFinished, serve,
}

abbrev request : CreateThreadInput
request = record {
  thread_id = " th_1";
  workspace_id = "wk_1 ";
  title = "Fix";
  type = conversation;
  participants = "a" ∷ " b " ∷ [];
  status = none;
  created_at = none;
}

abbrev a_thread : Thread
a_thread = record {
  thread_id = "th_1";
  workspace_id = "wk_1";
  title = "Fix";
  type = conversation;
  status = active;
  participants = "a" ∷ "b" ∷ [];
  created_at = 7;
  updated_at = 7;
}

request-IsAcceptable : IsAcceptable 7 request
unfolding orkiva.Shared.is_empty orkiva.Shared.trim
request-IsAcceptable = record {
  time = 7;
  dated = refl;
  thread_id = refl;
  workspace_id = refl;
  title = refl;
  roster = record {
    some_listed = λ e. cc;
    present = (refl, (refl, tt));
    distinct = (refl, (refl, tt));
  };
}

request_created : create_thread 7 request ≡ ok a_thread
unfolding create_thread orkiva.Domain.Errors.require_date
    orkiva.Domain.Errors.require_non_empty_string orkiva.Shared.trim
    orkiva.Domain.Thread.normalize_participants
request_created = refl

create_thread-IsWellFormed_example : IsWellFormed a_thread
create_thread-IsWellFormed_example =
    create_thread-IsWellFormed 7 request {t = a_thread} request_created

active≢blocked : active ≢ blocked
active≢blocked e = cc

transition_thread_status_iff_example :
    (transition_thread_status a_thread blocked (at 9)
      ≡ ok (record a_thread { status = blocked; updated_at = 9 }))
    ↔ (Change active blocked
        × (record a_thread { status = blocked; updated_at = 9 }
            ≡ record a_thread { status = blocked; updated_at = 9 }))
transition_thread_status_iff_example =
    transition_thread_status_iff a_thread (record a_thread { status = blocked; updated_at = 9 })
      blocked 9 active≢blocked

abbrev closed_thread : Thread
closed_thread = record a_thread { status = closed }

refused : transition_thread_status closed_thread active (at 9) ≡ err invalid_thread_transition
unfolding transition_thread_status
refused = refl

transition_thread_status_refuses_example :
    ((invalid_thread_transition ≡ invalid_thread_transition) × (Change closed active → ⊥))
    ⊎ ((invalid_thread_transition ≡ invalid_argument) × Change closed active × (at 9 ≡ invalid))
transition_thread_status_refuses_example =
    transition_thread_status_refuses closed_thread active (at 9) {e = invalid_thread_transition}
      refused

serve-IsFinished_example :
    IsFinished
      (serve (record a_thread { status = resolved }) ((active, at 9) ∷ (closed, at 10) ∷ [])).status
serve-IsFinished_example =
    serve-IsFinished (record a_thread { status = resolved }) ((active, at 9) ∷ (closed, at 10) ∷ [])
      (inl refl)
