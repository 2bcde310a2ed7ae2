-- ===== src/Worker/Queue/LoopGuard.antt =====
-- The loop guard of the trigger queue against the outcomes that it has seen.
use orkiva.Shared.{
  ℕ, ◌+◌, ◌<◌, Bool, true, false, String, Option, none, some, List, [], ◌∷◌, str_eq, str_eq_iff,
  or_else, if◌then◌else◌, ◌≡◌, refl, ◌↔◌, ◌⊎◌, arith, Bool-cases, inl, inr,
}
use orkiva.Shared.Dict.{get, get-set, get-delete}
use orkiva.Worker.Jobs.{TriggerExecutionOutcome, BlockReason}
use orkiva.Worker.Queue.{
  Settings, Processor, LoopState, new_processor, fresh_loop_state, next_loop_state, block_reason,
  update_loop_state, is_progress, error_code_of,
}

-- Threads and outcomes, the latest first.
abbrev pub Outcomes : Type 0
Outcomes = List (String × TriggerExecutionOutcome)

unfoldable pub guard_all : Settings → Outcomes → Processor → Processor
guard_all config [] p = p
guard_all config ((thread_id, outcome) ∷ older) p =
    (update_loop_state config thread_id outcome (guard_all config older p)).1

-- The outcomes of a thread since its latest progress, the latest first.
abbrev pub since_progress : String → Outcomes → List TriggerExecutionOutcome
since_progress thread_id [] = []
since_progress thread_id ((t, o) ∷ older) =
    let rest = since_progress thread_id older in
    if str_eq t thread_id then (if is_progress o.attempt_result then [] else o ∷ rest) else rest

abbrev pub turns : List TriggerExecutionOutcome → ℕ
turns [] = 0
turns (o ∷ older) = turns older + 1

abbrev pub has_code : String → List TriggerExecutionOutcome → Bool
has_code code [] = false
has_code code (o ∷ older) = str_eq (error_code_of o) code

-- How many of the latest outcomes have the same error code.
abbrev pub repeats : List TriggerExecutionOutcome → ℕ
repeats [] = 0
repeats (o ∷ older) =
    let longer = repeats older + 1 in if has_code (error_code_of o) older then longer else 1

abbrev pub state_of : List TriggerExecutionOutcome → Option LoopState
state_of [] = none
state_of (o ∷ older) = some (record {
  no_progress_turns = turns (o ∷ older);
  repeated_error_code = some (error_code_of o);
  repeated_finding_cycles = repeats (o ∷ older);
})

-- One more outcome without progress, on the state of the outcomes before it.
next-state_of :
    (o : TriggerExecutionOutcome) (older : List TriggerExecutionOutcome)
    → some (next_loop_state (or_else (state_of older) fresh_loop_state) (error_code_of o))
      ≡ state_of (o ∷ older)
next-state_of o [] = refl
next-state_of o (o' ∷ older) = refl

get-update :
    (config : Settings) (t : String) (o : TriggerExecutionOutcome) (p : Processor)
    (thread_id : String)
    → get thread_id (update_loop_state config t o p).1.thread_loop_state ≡ (
        if str_eq t thread_id
        then (if is_progress o.attempt_result
            then none
            else some (
                next_loop_state
                  (or_else (get t p.thread_loop_state) fresh_loop_state)
                  (error_code_of o)))
        else get thread_id p.thread_loop_state)
unfolding update_loop_state
get-update config t o p thread_id =
    let next =
      next_loop_state (or_else (get t p.thread_loop_state) fresh_loop_state) (error_code_of o) in
    ground (
      arith,
      get-set t thread_id next p.thread_loop_state,
      get-delete t thread_id p.thread_loop_state,
    )

-- The guard's state of a thread counts the outcomes since its latest progress, and how many of
-- the latest of these have the same error code; after progress there is none.
pub get-guard_all :
    (config : Settings) (thread_id : String) (os : Outcomes)
    → get thread_id (guard_all config os new_processor).thread_loop_state
      ≡ state_of (since_progress thread_id os)
unfolding guard_all get
get-guard_all config thread_id [] = refl
get-guard_all config thread_id ((t, o) ∷ older) = elim (Bool-cases (str_eq t thread_id)) [
  | inr other ↦
      rw (get-update config t o (guard_all config older new_processor) thread_id, other)
        (get-guard_all config thread_id older)
  | inl same ↦
      let e : t ≡ thread_id = (str_eq_iff t thread_id).0 same in
      elim (Bool-cases (is_progress o.attempt_result)) [
        | inl p ↦
            rw (get-update config t o (guard_all config older new_processor) thread_id, same, p)
        | inr p ↦
            rw
              (
                get-update config t o (guard_all config older new_processor) thread_id,
                same,
                p,
                e,
                get-guard_all config thread_id older,
              )
              (next-state_of o (since_progress thread_id older))
      ]
]

abbrev reason_after : Settings → TriggerExecutionOutcome → Option LoopState → Option BlockReason
reason_after config o state =
    if is_progress o.attempt_result
    then none
    else block_reason config (next_loop_state (or_else state fresh_loop_state) (error_code_of o))
        (error_code_of o)

reason-update :
    (config : Settings) (t : String) (o : TriggerExecutionOutcome) (p : Processor)
    → (update_loop_state config t o p).0 ≡ reason_after config o (get t p.thread_loop_state)
unfolding update_loop_state
reason-update config t o p = ground arith

reason_after-none_iff :
    (config : Settings) (o : TriggerExecutionOutcome) (latest : List TriggerExecutionOutcome)
    → (reason_after config o (state_of latest) ≡ none) ↔ (
        (is_progress o.attempt_result ≡ true)
        ⊎ ((turns (o ∷ latest) < config.safeguards.loop_max_turns)
            × (repeats (o ∷ latest) < config.safeguards.loop_max_repeated_findings)))
reason_after-none_iff config o [] = (λ h. ground arith, λ h. ground arith)
reason_after-none_iff config o (o' ∷ latest) = (λ h. ground arith, λ h. ground arith)

-- An outcome blocks its thread exactly when it is no progress and, with it, the turns since the
-- latest progress or the equal findings at their end have reached their limit.
pub update_loop_state-none_iff :
    (config : Settings) (thread_id : String) (o : TriggerExecutionOutcome) (older : Outcomes)
    → ((update_loop_state config thread_id o (guard_all config older new_processor)).0 ≡ none) ↔ (
        (is_progress o.attempt_result ≡ true)
        ⊎ ((turns (o ∷ since_progress thread_id older) < config.safeguards.loop_max_turns)
            × (repeats (o ∷ since_progress thread_id older)
                < config.safeguards.loop_max_repeated_findings)))
update_loop_state-none_iff config thread_id o older =
    rw
      (
        reason-update config thread_id o (guard_all config older new_processor),
        get-guard_all config thread_id older,
      )
      (reason_after-none_iff config o (since_progress thread_id older))
