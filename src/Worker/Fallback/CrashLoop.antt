-- ===== src/Worker/Fallback/CrashLoop.antt =====
-- The guard of apps/supervisor-worker/src/runtime-fallback.ts against crash loops.
use orkiva.Shared.{
  ℕ, zero, suc, ◌+◌, ◌≤◌, Bool, true, false, String, Option, some, List, [], ◌∷◌, ◌++◌, ok,
  >>=-eq-ok, filter, length, ◌==◌, or_else, ◌≡◌, ◌≢◌, refl, inl, inr, arith, Bool-cases, ap, sym,
  subst,
}
use orkiva.Shared.Dict.{get, get-set_self}
use orkiva.Domain.Errors.{Checked}
use orkiva.Domain.Session.{SessionRecord}
use orkiva.Worker.Jobs.{TriggerJobRecord, resume_succeeded, TriggerFallbackOutcome}
use orkiva.Worker.Fallback.{
  CodexFallbackConfig, CommandExecutionInput, ExitCode, ResumeReason, allowed, Failures,
  failure_key, is_recent_failure, can_attempt_resume, record_resume_failure, run_spawn, resume_loop,
  resume_or_spawn, spawn_with, execute, resume_command,
}

-- How many failures of a key are recent.
abbrev pub recent_count : CodexFallbackConfig → String → ℕ → Failures → ℕ
recent_count config key now failures =
    length (filter (is_recent_failure config now) (or_else (get key failures) []))

count_filter_append :
    (p : ℕ → Bool) (xs : List ℕ) (x : ℕ)
    → p x ≡ true
    → length (filter p (xs ++ x ∷ [])) ≡ length (filter p xs) + 1
count_filter_append p [] x h = rw h refl
count_filter_append p (y ∷ xs) x h = ground (arith, count_filter_append p xs x h)

recent_count-record :
    (config : CodexFallbackConfig) (job : TriggerJobRecord) (now now' : ℕ) (failures : Failures)
    → now' ≤ now + config.crash_loop_window_ms
    → recent_count config (failure_key job) now' (record_resume_failure job now failures)
      ≡ recent_count config (failure_key job) now' failures + 1
unfolding record_resume_failure
recent_count-record config job now now' failures h =
    let old = or_else (get (failure_key job) failures) [] in
    rw (get-set_self (failure_key job) (old ++ now ∷ []) failures)
      (count_filter_append (is_recent_failure config now') old now (ground arith))

module _ {W : Type 0} (run : CommandExecutionInput → W → ExitCode × W) where
  -- When no attempt to resume succeeds, each of them is noted.
  resume_loop_noted :
      (config : CodexFallbackConfig) (job : TriggerJobRecord) (session_id : String)
      (now now' left : ℕ) (failures : Failures) (w : W)
      → now' ≤ now + config.crash_loop_window_ms
      → (resume_loop run job session_id now left failures w).0 ≡ false
      → recent_count config
          (failure_key job)
          now'
          (resume_loop run job session_id now left failures w).1
        ≡ recent_count config (failure_key job) now' failures + left
  unfolding resume_loop
  resume_loop_noted config job session_id now now' zero failures w h e = ground arith
  resume_loop_noted config job session_id now now' (suc left) failures w h e =
      elim (Bool-cases ((run (resume_command job session_id) w).0 == 0)) [
        | inl good ↦ absurd (ground arith)
        | inr bad ↦
            let w' = (run (resume_command job session_id) w).1 in
            let one = recent_count-record config job now now' failures h in
            let more =
              resume_loop_noted config job session_id now now' left
                (record_resume_failure job now failures) w' h (rw bad at e) in
            rw bad (omega (arith, one, more))
      ]

can_attempt_resume_crashing :
    (config : CodexFallbackConfig) (job : TriggerJobRecord) (runtime : Option SessionRecord)
    (now : ℕ) (failures : Failures) {r : ResumeReason × Failures}
    → config.crash_loop_threshold ≤ recent_count config (failure_key job) now failures
    → can_attempt_resume config job runtime now failures ≡ ok r
    → r.0 ≢ allowed
unfolding can_attempt_resume
can_attempt_resume_crashing config job runtime now failures h e k = ground arith

can_attempt_resume_allowed :
    (config : CodexFallbackConfig) (job : TriggerJobRecord) (runtime : Option SessionRecord)
    (now : ℕ) (failures : Failures) {f : Failures}
    → can_attempt_resume config job runtime now failures ≡ ok (allowed, f)
    → (session_id : String) × (job.target_session_id ≡ some session_id)
unfolding can_attempt_resume
can_attempt_resume_allowed config job runtime now failures e = ground arith

module _ {W : Type 0} (run : CommandExecutionInput → W → ExitCode × W)
    (get_runtime : String → String → Option SessionRecord) (config : CodexFallbackConfig) where
  spawns_unless_allowed :
      (job : TriggerJobRecord) (now : ℕ) (reason : ResumeReason) (failures : Failures) (w : W)
      → reason ≢ allowed
      → resume_or_spawn run config job now reason failures w ≡ spawn_with run job failures w
  spawns_unless_allowed job now allowed failures w h = absurd (h refl)
  spawns_unless_allowed job now _ failures w h = refl

  -- While as many failures to resume an agent are recent as the threshold says, a fallback for it
  -- starts no resume: if it returns, it has run the spawn command alone.
  pub execute_crashing :
      (job : TriggerJobRecord) (now : ℕ) (failures : Failures) (w : W) {o : TriggerFallbackOutcome}
      {f : Failures} {w' : W}
      → config.crash_loop_threshold ≤ recent_count config (failure_key job) now failures
      → execute run get_runtime config job now failures w ≡ ok (o, f, w')
      → (o, w') ≡ run_spawn run job w
  unfolding execute
  execute_crashing job now failures w {o} {f} {w'} h e =
      let ((reason, f0), here, e') =
        >>=-eq-ok
          (can_attempt_resume config job (get_runtime job.target_agent_id job.workspace_id) now
            failures)
          _ e in
      let blocked : reason ≢ allowed =
        can_attempt_resume_crashing config job _ now failures h here in
      let spawns = spawns_unless_allowed job now reason f0 w blocked in
      let given : ◌≡◌ {A = Checked (TriggerFallbackOutcome × Failures × W)}
          (ok (spawn_with run job f0 w)) (ok (o, f, w')) =
        cc (spawns, e') in
      let same : (run_spawn run job w).0 ≡ o = cc in
      let same' : (run_spawn run job w).1 ≡ w' = cc in cc

  loop_of_no_luck :
      (job : TriggerJobRecord) (session_id : String) (now : ℕ) (failures : Failures) (w : W)
      {o : TriggerFallbackOutcome} {f : Failures} {w' : W}
      → job.target_session_id ≡ some session_id
      → resume_or_spawn run config job now allowed failures w ≡ (o, f, w')
      → o.attempt_result ≢ resume_succeeded
      → ((resume_loop run job session_id now config.resume_max_attempts failures w).0 ≡ false)
        × ((resume_loop run job session_id now config.resume_max_attempts failures w).1 ≡ f)
  unfolding resume_loop
  loop_of_no_luck job session_id now failures w t e no_luck =
      elim (Bool-cases
        (resume_loop run job session_id now config.resume_max_attempts failures w).0) [
          | inl lucky ↦
              let e1 = rw (t, lucky) at e in
              absurd (
                no_luck
                  (sym (ap (λ (x : TriggerFallbackOutcome × Failures × W). x.0.attempt_result) e1)))
          | inr bad ↦
              let e1 = rw (t, bad) at e in
              (bad, ap (λ (x : TriggerFallbackOutcome × Failures × W). x.1) e1)
        ]

  execute_noted :
      (job : TriggerJobRecord) (now now' : ℕ) (failures : Failures) (w : W) {f0 : Failures}
      {o : TriggerFallbackOutcome} {f : Failures} {w1 : W}
      → can_attempt_resume config job
          (get_runtime job.target_agent_id job.workspace_id)
          now
          failures
        ≡ ok (allowed, f0)
      → execute run get_runtime config job now failures w ≡ ok (o, f, w1)
      → o.attempt_result ≢ resume_succeeded
      → now' ≤ now + config.crash_loop_window_ms
      → config.resume_max_attempts ≤ recent_count config (failure_key job) now' f
  unfolding execute
  execute_noted job now now' failures w {f0} {o} {f} {w1} may e no_luck soon =
      let (session_id, t) = can_attempt_resume_allowed config job _ now failures may in
      let e1 : ◌≡◌ {A = Checked (TriggerFallbackOutcome × Failures × W)}
          (ok (resume_or_spawn run config job now allowed f0 w)) (ok (o, f, w1)) =
        rw may at e in
      let e2 : resume_or_spawn run config job now allowed f0 w ≡ (o, f, w1) = cc in
      let (bad, same) = loop_of_no_luck job session_id now f0 w t e2 no_luck in
      let noted =
        resume_loop_noted run config job session_id now now' config.resume_max_attempts f0 w soon
          bad in
      subst
        (λ (x : Failures).
          config.resume_max_attempts ≤ recent_count config (failure_key job) now' x)
        same (omega (arith, noted))

  -- A fallback that may resume its agent and does not manage to makes as many notes as it made
  -- attempts, so where the threshold is no higher than the number of attempts, the next fallback for
  -- that agent within the window, if it returns, runs the spawn command alone.
  pub execute_after_crash :
      (job job' : TriggerJobRecord) (now now' : ℕ) (failures : Failures) (w : W) {f0 : Failures}
      {o : TriggerFallbackOutcome} {f : Failures} {w1 : W} {o' : TriggerFallbackOutcome}
      {f' : Failures} {w2 : W}
      → can_attempt_resume config job
          (get_runtime job.target_agent_id job.workspace_id)
          now
          failures
        ≡ ok (allowed, f0)
      → execute run get_runtime config job now failures w ≡ ok (o, f, w1)
      → o.attempt_result ≢ resume_succeeded
      → config.crash_loop_threshold ≤ config.resume_max_attempts
      → failure_key job' ≡ failure_key job
      → now' ≤ now + config.crash_loop_window_ms
      → execute run get_runtime config job' now' f w1 ≡ ok (o', f', w2)
      → (o', w2) ≡ run_spawn run job' w1
  execute_after_crash job job' now now' failures w {f0} {o} {f} {w1} {o'} {f'} {w2} may e no_luck
        few key soon e' =
      execute_crashing job' now' f w1 {o = o'} {f = f'} {w' = w2}
        (rw key (
          let noted = execute_noted job now now' failures w may e no_luck soon in
          omega (arith, noted)))
        e'
