-- ===== src/Operator/Commands.antt =====
-- apps/operator-cli/src/commands.ts: from the arguments of the command line to a command. The
-- function `number` is the language's `Number(text)`.
pub mod RoundTrip
use orkiva.Shared.{
  ℕ, zero, suc, Bool, true, false, String, Option, none, some, List, Result, ok, err, ◌>>=◌, ◌>>◌,
  guard, str_eq, is_empty, trim, starts_with, slice_two, [], ◌∷◌, if◌then◌else◌, not,
}
use orkiva.Shared.Dict.{Dict, get, set}
use orkiva.Domain.Errors.{Number, nat}

pub data OperatorCommand : Type 0 where
  inspect_thread : String → ℕ → ℕ → Bool → OperatorCommand
  escalate_thread unblock_thread override_close_thread :
      String → String → String → Bool → OperatorCommand

-- The errors, of which the source throws the text.
pub data CommandError : Type 0 where
  unexpected_argument empty_option missing_option not_positive_integer : CommandError
  not_bool empty_actor missing_command unknown_command : CommandError

abbrev pub Parsed : Type 0 → Type 0
Parsed A = Result CommandError A

abbrev pub option_name : String → Parsed String
option_name token =
    guard (starts_with token "--") unexpected_argument
    >> guard (not (is_empty (slice_two token))) empty_option
    >> ok (slice_two token)

-- The loop from here on, with the options so far.
unfoldable pub parse_from : Dict String → List String → Parsed (Dict String)
parse_from options [] = ok options
parse_from options (token ∷ []) = do key ← option_name token; ok (set key "true" options)
parse_from options (token ∷ next ∷ rest) =
    let flag = λ (key : String). parse_from (set key "true" options) (next ∷ rest) in
    let pair = λ (key : String). parse_from (set key next options) rest in
    option_name token >>= λ (key : String). if starts_with next "--" then flag key else pair key

abbrev pub parse_options : List String → Parsed (Dict String)
parse_options argv = parse_from [] argv

abbrev pub required_string : Option String → Parsed String
required_string none = err missing_option
required_string (some value) = if is_empty (trim value) then err missing_option else ok value

abbrev pub positive_int : Number → Parsed ℕ
positive_int (nat (suc n)) = ok (suc n)
positive_int _ = err not_positive_integer

abbrev pub optional_bool : Option String → Parsed Bool
optional_bool none = ok false
optional_bool (some raw) =
    if str_eq raw "true" then ok true else if str_eq raw "false" then ok false else err not_bool

abbrev pub actor_or_default : Option String → Parsed String
actor_or_default none = ok "human_operator"
actor_or_default (some value) = if is_empty (trim value) then err empty_actor else ok value

module _ (number : String → Number) where
  abbrev pub optional_positive_int : Option String → ℕ → Parsed ℕ
  optional_positive_int none fallback = ok fallback
  optional_positive_int (some raw) fallback = positive_int (number raw)

  abbrev pub read_inspect : Dict String → Bool → Parsed OperatorCommand
  read_inspect options json = do
    thread_id ← required_string (get "thread-id" options)
    limit_messages ← optional_positive_int (get "limit-messages" options) 20
    limit_triggers ← optional_positive_int (get "limit-triggers" options) 20
    ok (inspect_thread thread_id limit_messages limit_triggers json)

  abbrev pub read_change :
      (String → String → String → Bool → OperatorCommand)
      → Dict String
      → Bool
      → Parsed OperatorCommand
  read_change make options json = do
    thread_id ← required_string (get "thread-id" options)
    reason ← required_string (get "reason" options)
    actor ← actor_or_default (get "actor-agent-id" options)
    ok (make thread_id reason actor json)

  abbrev pub read_command : String → Dict String → Bool → Parsed OperatorCommand
  read_command name options json =
      if str_eq name "inspect-thread"
      then read_inspect options json
      else if str_eq name "escalate-thread"
      then read_change escalate_thread options json
      else if str_eq name "unblock-thread"
      then read_change unblock_thread options json
      else if str_eq name "override-close-thread"
      then read_change override_close_thread options json
      else err unknown_command

  unfoldable pub parse_operator_command : List String → Parsed OperatorCommand
  unfolding parse_from
  parse_operator_command [] = err missing_command
  parse_operator_command (name ∷ rest) = do
    options ← parse_options rest
    json ← optional_bool (get "json" options)
    read_command name options json
