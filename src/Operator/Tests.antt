-- ===== src/Operator/Tests.antt =====
-- The command line at work.
use orkiva.Shared.{
  ℕ, Bool, true, false, String, Option, none, some, List, [], ◌∷◌, ok, ◌≡◌, refl, arith, str_eq,
  if◌then◌else◌,
}
use orkiva.Shared.Actions.Effects.{Within}
use orkiva.Domain.Errors.{Number, nat, not_integer}
use orkiva.Domain.Thread.{
  Thread, ThreadStatus, active, blocked, closed, workflow, same_status,
  can_transition_thread_status,
}
use orkiva.Operator.Commands.{inspect_thread, override_close_thread, parse_operator_command}
use orkiva.Operator.Commands.RoundTrip.{arguments_of, parse-arguments_of}
use orkiva.Operator.Service.{OperatorRepository, StatusChange, execute}
use orkiva.Operator.Service.Changes.{IsLegal, RespectsLegal, execute-Within}

-- Enough of reading and writing numbers for one of them.
abbrev number : String → Number
number raw = if str_eq raw "5" then nat 5 else not_integer

abbrev show : ℕ → String
show n = "5"

parse-arguments_of_example :
    parse_operator_command number (arguments_of show (inspect_thread "th_1" 5 5 true))
    ≡ ok (inspect_thread "th_1" 5 5 true)
unfolding orkiva.Shared.is_empty orkiva.Shared.trim orkiva.Shared.starts_with
parse-arguments_of_example =
    parse-arguments_of number show (inspect_thread "th_1" 5 5 true)
      ((refl, refl), (refl, refl, omega arith), (refl, refl, omega arith))

abbrev thread_at : ThreadStatus → Thread
thread_at status = record {
  thread_id = "th_1";
  workspace_id = "w";
  title = "work";
  type = workflow;
  status = status;
  participants = "a" ∷ [];
  created_at = 1;
  updated_at = 1;
}

-- A repository of one thread, of which the state is the status.
abbrev one_thread : OperatorRepository ThreadStatus
one_thread = record {
  now = λ s. (ok 7, s);
  get_thread_by_id = λ k s. (ok (some (thread_at s)), s);
  list_participants = λ k s. (ok [], s);
  list_messages = λ k n s. (ok [], s);
  list_trigger_jobs = λ k n s. (ok [], s);
  update_thread_status = λ change s.
      if same_status s change.expected_current_status
      then (ok (some (thread_at change.next_status)), change.next_status)
      else (ok none, s);
  append_audit_event = λ event s. (ok tt, s);
}

-- A closed thread stays closed.
abbrev StaysClosed : ThreadStatus → ThreadStatus → Type 0
StaysClosed s t = s ≡ closed → t ≡ closed

update_one_thread :
    (reason : String) (change : StatusChange) (s : ThreadStatus)
    → IsLegal reason change
    → StaysClosed s (one_thread.update_thread_status change s).1
unfolding can_transition_thread_status orkiva.Domain.Thread.require_thread_status
update_one_thread reason change s legal h =
    let allowed = legal.allowed in let other = legal.other in ground (arith, allowed, other, h)

one_thread-RespectsLegal : (reason : String) → RespectsLegal StaysClosed one_thread reason
one_thread-RespectsLegal reason = record {
  now = record { at = λ s h. h };
  get_thread_by_id = λ _. record { at = λ s h. h };
  list_participants = λ _. record { at = λ s h. h };
  list_messages = λ _ _. record { at = λ s h. h };
  list_trigger_jobs = λ _ _. record { at = λ s h. h };
  update_thread_status =
      λ change legal. record { at = λ s. update_one_thread reason change s legal };
  append_audit_event = λ _. record { at = λ s h. h };
}

execute-Within_example :
    Within StaysClosed
      (execute one_thread "w" (override_close_thread "th_1" "human_override: done" "op" false))
execute-Within_example =
    execute-Within (record { still = λ s h. h; chain = λ s t u a b h. b (a h) }) one_thread "w"
      (override_close_thread "th_1" "human_override: done" "op" false)
      (one_thread-RespectsLegal "human_override: done")

closed_by_operator :
    (execute one_thread "w"
      (override_close_thread "th_1" "human_override: done" "op" false)
      blocked).1
    ≡ closed
unfolding execute orkiva.Shared.Actions.◌>>=◌ can_transition_thread_status orkiva.Shared.starts_with
closed_by_operator = refl
