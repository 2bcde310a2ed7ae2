-- ===== src/Worker/Fallback/Outcomes.antt =====
-- The outcomes of apps/supervisor-worker/src/runtime-fallback.ts.
use orkiva.Shared.{ℕ, suc, String, Option, none, some, ok, ◌≡◌, refl, ◌⊎◌, inl, inr, arith}
use orkiva.Domain.Session.{SessionRecord, is_session_stale}
use orkiva.Worker.Jobs.{
  TriggerJobRecord, TriggerJobStatus, fallback_resume, fallback_spawn, resume_succeeded,
  resume_failed, spawned, TriggerFallbackOutcome,
}
use orkiva.Domain.Errors.{Checked-cases, at, nat}
use orkiva.Domain.Session.Lookup.{is_session_stale_returns}
use orkiva.Worker.Fallback.{
  CodexFallbackConfig, CommandExecutionInput, ExitCode, ResumeReason, Failures, can_attempt_resume,
  run_spawn, resume_or_spawn, execute,
}

-- The status that a fallback's job gets fits its result, and only a failed spawn is an error.
abbrev pub IsSettled : TriggerFallbackOutcome → Type 0
IsSettled o =
    ((o.attempt_result ≡ resume_succeeded)
      × (o.next_status ≡ fallback_resume)
      × (o.error_code ≡ none))
    ⊎ ((o.attempt_result ≡ spawned) × (o.next_status ≡ fallback_spawn) × (o.error_code ≡ none))
    ⊎ ((o.attempt_result ≡ resume_failed)
        × (o.next_status ≡ TriggerJobStatus.failed)
        × (o.error_code ≡ some "FALLBACK_SPAWN_FAILED"))

can_attempt_resume_returns :
    (config : CodexFallbackConfig) (k : ℕ) (job : TriggerJobRecord) (runtime : Option SessionRecord)
    (now : ℕ) (failures : Failures)
    → config.stale_after_hours ≡ nat (suc k)
    → (r : ResumeReason × Failures) × (can_attempt_resume config job runtime now failures ≡ ok r)
unfolding can_attempt_resume
can_attempt_resume_returns config k job none now failures hours =
    elim (Checked-cases (can_attempt_resume config job none now failures)) [
      | inl returned ↦ returned
      | inr (thrown, h) ↦ absurd (ground arith)
    ]
can_attempt_resume_returns config k job (some r) now failures hours =
    let (stale, answer) = is_session_stale_returns r k now in
    let answer' : is_session_stale r config.stale_after_hours (at now) ≡ ok stale =
      rw hours answer in
    elim (Checked-cases (can_attempt_resume config job (some r) now failures)) [
      | inl returned ↦ returned
      | inr (thrown, h) ↦ absurd (ground (arith, answer'))
    ]

module _ {W : Type 0} (run : CommandExecutionInput → W → ExitCode × W) where
  resume_or_spawn-IsSettled :
      (config : CodexFallbackConfig) (job : TriggerJobRecord) (now : ℕ) (reason : ResumeReason)
      (failures : Failures) (w : W)
      → IsSettled (resume_or_spawn run config job now reason failures w).0
  unfolding run_spawn
  resume_or_spawn-IsSettled config job now reason failures w = ground arith

  -- With a whole positive number of hours the fallback returns, and has settled its job: resumed,
  -- spawned, or failed with the spawn's error, and the status fits.
  pub execute-IsSettled :
      (get_runtime : String → String → Option SessionRecord) (config : CodexFallbackConfig) (k : ℕ)
      (job : TriggerJobRecord) (now : ℕ) (failures : Failures) (w : W)
      → config.stale_after_hours ≡ nat (suc k)
      → (o : TriggerFallbackOutcome) × (f : Failures) × (w' : W) × (execute run get_runtime config
            job now failures w
          ≡ ok (o, f, w'))
        × IsSettled o
  unfolding execute
  execute-IsSettled get_runtime config k job now failures w hours =
      let runtime = get_runtime job.target_agent_id job.workspace_id in
      let ((reason, f0), may) =
        can_attempt_resume_returns config k job runtime now failures hours in
      let (o, f, w') = resume_or_spawn run config job now reason f0 w in
      (o, f, w', rw may refl, resume_or_spawn-IsSettled config job now reason f0 w)
