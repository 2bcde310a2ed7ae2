-- ===== src/Operator/Commands/RoundTrip.antt =====
-- The arguments that name a command, and what commands.ts reads from them.
use orkiva.Shared.{
  ℕ, zero, suc, ◌<◌, Bool, true, false, String, some, List, [], ◌∷◌, Result, ok, ◌≡◌, refl,
  is_empty, trim, starts_with, arith, arith,
}
use orkiva.Domain.Errors.{Number, nat}
use orkiva.Operator.Commands.{
  OperatorCommand, inspect_thread, escalate_thread, unblock_thread, override_close_thread,
  parse_operator_command, parse_from,
}

abbrev pub bool_text : Bool → String
bool_text true = "true"
bool_text false = "false"

abbrev pub change_arguments : String → String → String → String → Bool → List String
change_arguments name thread_id reason actor json =
    name
    ∷ "--thread-id"
    ∷ thread_id
    ∷ "--reason"
    ∷ reason
    ∷ "--actor-agent-id"
    ∷ actor
    ∷ "--json"
    ∷ bool_text json
    ∷ []

-- The arguments of a command, with every option; `show` is the text of a number.
abbrev pub arguments_of : (ℕ → String) → OperatorCommand → List String
arguments_of show (inspect_thread thread_id limit_messages limit_triggers json) =
    "inspect-thread"
    ∷ "--thread-id"
    ∷ thread_id
    ∷ "--limit-messages"
    ∷ show limit_messages
    ∷ "--limit-triggers"
    ∷ show limit_triggers
    ∷ "--json"
    ∷ bool_text json
    ∷ []
arguments_of show (escalate_thread thread_id reason actor json) =
    change_arguments "escalate-thread" thread_id reason actor json
arguments_of show (unblock_thread thread_id reason actor json) =
    change_arguments "unblock-thread" thread_id reason actor json
arguments_of show (override_close_thread thread_id reason actor json) =
    change_arguments "override-close-thread" thread_id reason actor json

-- A text that stands after an option: not blank, and no option itself.
abbrev pub IsValue : String → Type 0
IsValue text = (is_empty (trim text) ≡ false) × (starts_with text "--" ≡ false)

-- The number is positive, and its text is a value that the language reads as the number.
abbrev pub IsReadable : (String → Number) → (ℕ → String) → ℕ → Type 0
IsReadable number show n = (number (show n) ≡ nat n) × (starts_with (show n) "--" ≡ false) × (0 < n)

abbrev pub IsWritable : (String → Number) → (ℕ → String) → OperatorCommand → Type 0
IsWritable number show (inspect_thread thread_id limit_messages limit_triggers json) =
    IsValue thread_id
    × IsReadable number show limit_messages
    × IsReadable number show limit_triggers
IsWritable number show (escalate_thread thread_id reason actor json) =
    IsValue thread_id × IsValue reason × IsValue actor
IsWritable number show (unblock_thread thread_id reason actor json) =
    IsValue thread_id × IsValue reason × IsValue actor
IsWritable number show (override_close_thread thread_id reason actor json) =
    IsValue thread_id × IsValue reason × IsValue actor

-- A command whose texts are values, and whose numbers are positive and read as they are written, is
-- read back from its arguments.
pub parse-arguments_of :
    (number : String → Number) (show : ℕ → String) (command : OperatorCommand)
    → IsWritable number show command
    → parse_operator_command number (arguments_of show command) ≡ ok command
unfolding parse_operator_command parse_from starts_with is_empty orkiva.Shared.Dict.get
    orkiva.Shared.Dict.set
parse-arguments_of number show (inspect_thread t (suc m) (suc n) true)
      ((p, q), (r, u, _), (v, w, _)) =
    rw (q, u, w, p, r, v) refl
parse-arguments_of number show (inspect_thread t (suc m) (suc n) false)
      ((p, q), (r, u, _), (v, w, _)) =
    rw (q, u, w, p, r, v) refl
parse-arguments_of number show (inspect_thread t zero n json) (_, (_, _, l), _) =
    absurd (omega (arith, l))
parse-arguments_of number show (inspect_thread t (suc m) zero json) (_, _, (_, _, l)) =
    absurd (omega (arith, l))
parse-arguments_of number show (escalate_thread t r a true) ((p, q), (u, v), (w, x)) =
    rw (q, v, x, p, u, w) refl
parse-arguments_of number show (escalate_thread t r a false) ((p, q), (u, v), (w, x)) =
    rw (q, v, x, p, u, w) refl
parse-arguments_of number show (unblock_thread t r a true) ((p, q), (u, v), (w, x)) =
    rw (q, v, x, p, u, w) refl
parse-arguments_of number show (unblock_thread t r a false) ((p, q), (u, v), (w, x)) =
    rw (q, v, x, p, u, w) refl
parse-arguments_of number show (override_close_thread t r a true) ((p, q), (u, v), (w, x)) =
    rw (q, v, x, p, u, w) refl
parse-arguments_of number show (override_close_thread t r a false) ((p, q), (u, v), (w, x)) =
    rw (q, v, x, p, u, w) refl
