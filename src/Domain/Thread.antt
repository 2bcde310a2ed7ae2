-- ===== src/Domain/Thread.antt =====
-- packages/domain/src/thread.ts: a thread, its creation and its status machine.
-- `now` is the time that `new Date()` gives where the caller passes none.
pub mod Creation
pub mod Lifecycle
mod Tests
use orkiva.Shared.{
  ℕ, zero, suc, Bool, true, false, String, Option, List, [], ◌∷◌, ◌++◌, Result, ok, err, ◌>>=◌,
  ◌>>◌, guard, any, length, ◌==◌, str_eq, or_else, if◌then◌else◌, not,
}
use orkiva.Domain.Errors.{
  DomainErrorCode, Checked, Date, at, require_date, require_non_empty_string, invalid_argument,
  invalid_thread_transition,
}

pub data ThreadType : Type 0 where
  conversation workflow incident : ThreadType

pub data ThreadStatus : Type 0 where
  active blocked resolved closed : ThreadStatus

abbrev pub same_type : ThreadType → ThreadType → Bool
same_type conversation conversation = true
same_type workflow workflow = true
same_type incident incident = true
same_type _ _ = false

abbrev pub same_status : ThreadStatus → ThreadStatus → Bool
same_status active active = true
same_status blocked blocked = true
same_status resolved resolved = true
same_status closed closed = true
same_status _ _ = false

pub record Thread : Type 0 where
  pub thread_id : String
  pub workspace_id : String
  pub title : String
  pub type : ThreadType
  pub status : ThreadStatus
  pub participants : List String
  pub created_at : ℕ
  pub updated_at : ℕ

pub record CreateThreadInput : Type 0 where
  pub thread_id : String
  pub workspace_id : String
  pub title : String
  pub type : ThreadType
  pub participants : List String
  pub created_at : Option Date
  pub status : Option ThreadStatus

abbrev pub allowed_thread_types : List ThreadType
allowed_thread_types = conversation ∷ workflow ∷ incident ∷ []

abbrev pub allowed_thread_statuses : List ThreadStatus
allowed_thread_statuses = active ∷ blocked ∷ resolved ∷ closed ∷ []

abbrev pub transition_map : ThreadStatus → List ThreadStatus
transition_map active = blocked ∷ resolved ∷ closed ∷ []
transition_map blocked = active ∷ closed ∷ []
transition_map resolved = closed ∷ []
transition_map closed = []

unfoldable pub require_thread_type : ThreadType → Checked ThreadType
require_thread_type value =
    if any (same_type value) allowed_thread_types then ok value else err invalid_argument

unfoldable pub require_thread_status : ThreadStatus → Checked ThreadStatus
require_thread_status value =
    if any (same_status value) allowed_thread_statuses then ok value else err invalid_argument

-- `map` with a check that throws at the first element that fails.
unfoldable pub require_each : List String → Checked (List String)
require_each [] = ok []
require_each (p ∷ ps) = do
  first ← require_non_empty_string p
  rest ← require_each ps
  ok (first ∷ rest)

-- `new Set(…)`: the elements in order, each at its first place.
unfoldable pub set_from : List String → List String → List String
set_from seen [] = seen
set_from seen (x ∷ xs) = set_from (if any (str_eq x) seen then seen else seen ++ x ∷ []) xs

unfoldable pub normalize_participants : List String → Checked (List String)
unfolding require_each set_from
normalize_participants participants = do
  guard (not (length participants == 0)) invalid_argument
  normalized ← require_each participants
  guard (length (set_from [] normalized) == length normalized) invalid_argument
  ok normalized

unfoldable pub create_thread : ℕ → CreateThreadInput → Checked Thread
unfolding require_thread_type require_thread_status
create_thread now input = do
  created_at ← require_date (or_else input.created_at (at now))
  status ← require_thread_status (or_else input.status active)
  thread_id ← require_non_empty_string input.thread_id
  workspace_id ← require_non_empty_string input.workspace_id
  title ← require_non_empty_string input.title
  type ← require_thread_type input.type
  participants ← normalize_participants input.participants
  ok (record {
    thread_id = thread_id;
    workspace_id = workspace_id;
    title = title;
    type = type;
    status = status;
    participants = participants;
    created_at = created_at;
    updated_at = created_at;
  })

unfoldable pub can_transition_thread_status : ThreadStatus → ThreadStatus → Checked Bool
unfolding require_thread_status
can_transition_thread_status from_status to_status = do
  from ← require_thread_status from_status
  to ← require_thread_status to_status
  ok (if same_status from to then true else any (same_status to) (transition_map from))

unfoldable pub transition_thread_status : Thread → ThreadStatus → Date → Checked Thread
unfolding can_transition_thread_status require_date
transition_thread_status thread next_status updated_at = do
  to_status ← require_thread_status next_status
  let changed = do
    allowed ← can_transition_thread_status thread.status to_status
    guard allowed invalid_thread_transition
    time ← require_date updated_at
    ok (record thread { status = to_status; updated_at = time })
  if same_status thread.status to_status then ok thread else changed

unfoldable pub is_thread_participant : Thread → String → Checked Bool
is_thread_participant thread agent_id = do
  wanted ← require_non_empty_string agent_id
  ok (any (str_eq wanted) thread.participants)
