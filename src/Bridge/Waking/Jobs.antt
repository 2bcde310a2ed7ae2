-- ===== src/Bridge/Waking/Jobs.antt =====
-- The job that `trigger_participant` of apps/bridge-api/src/app.ts answers with, over the in-memory
-- stores.
use Prim.Native.String
use orkiva.Shared.{
  ℕ, Bool, true, false, String, Option, none, some, Result, ok, ◌≡◌, refl, sym, ap, ◌∙◌, arith, inl,
  inr, Option-cases, Bool-cases, subst, suc, value_of_ok, str_eq_iff, ◌||◌,
}
use orkiva.Shared.Actions.{◌>>=◌, give, catching, ensure}
use orkiva.Shared.Actions.Refusals.{
  returned, stepped_check, lift-Checks, present-Checks, ensure-Checks,
}
use orkiva.Shared.Dict.{get, set, get-set_self}
use orkiva.Auth.{VerifiedAuthClaims}
use orkiva.Domain.Thread.{Thread}
use orkiva.Domain.Session.{SessionRecord}
use orkiva.Worker.Jobs.{TriggerJobRecord}
use orkiva.Bridge.Errors.{Thrown, auth, domain}
use orkiva.Bridge.Requests.{Request, TriggerRequest, TriggerResponse}
use orkiva.Bridge.SessionStore.{get_session}
use orkiva.Bridge.TriggerStore.{
  TriggerStore, CreateOrReuseTriggerJobResult, create_or_reuse_trigger_job,
}
use orkiva.Bridge.Dependencies.{Settings}
use orkiva.Bridge.Memory.{BridgeState, memory}
use orkiva.Bridge.Handlers.Triggers.{
  trigger_participant, wake, queue_job, trigger_job_of, has_trigger_replay_match,
}
use orkiva.Bridge.Access.{require_thread-Checks}

-- What a request to wake an agent has left behind: its job is stored under the request's id, asks
-- what the payload asks, and is the one that was there if there was one.
pub record IsQueued (input : TriggerRequest) (request : Request) (r : TriggerResponse)
    (s t : BridgeState) : Type 0 where
  pub job : TriggerJobRecord
  pub stored : get (String.◌++◌ "trg_" request.id) t.triggers ≡ some job
  pub kept :
      (old : TriggerJobRecord)
      → get (String.◌++◌ "trg_" request.id) s.triggers ≡ some old
      → old ≡ job
  pub thread : job.thread_id ≡ input.thread_id
  pub target : job.target_agent_id ≡ input.target_agent_id
  pub reason : job.reason ≡ input.reason
  pub prompt : job.prompt ≡ input.trigger_prompt
  pub answered : (r.trigger_id ≡ job.trigger_id) × (r.job_status ≡ job.status)

-- What a store that is asked for a job holds afterwards.
abbrev IsStored :
    TriggerJobRecord → TriggerStore → CreateOrReuseTriggerJobResult × TriggerStore → Type 0
IsStored job jobs (result, after) =
    (get job.trigger_id after ≡ some result.job)
    × ((old : TriggerJobRecord) → get job.trigger_id jobs ≡ some old → old ≡ result.job)
    × (result.created ≡ true → result.job ≡ job)

create-none :
    (job : TriggerJobRecord) (jobs : TriggerStore)
    → get job.trigger_id jobs ≡ none
    → create_or_reuse_trigger_job job jobs
      ≡ (record { job = job; created = true }, set job.trigger_id job jobs)
unfolding create_or_reuse_trigger_job
create-none job jobs h = rw (create_or_reuse_trigger_job, h) refl

create-some :
    (job existing : TriggerJobRecord) (jobs : TriggerStore)
    → get job.trigger_id jobs ≡ some existing
    → create_or_reuse_trigger_job job jobs ≡ (record { job = existing; created = false }, jobs)
unfolding create_or_reuse_trigger_job
create-some job existing jobs h = rw (create_or_reuse_trigger_job, h) refl

create_or_reuse-IsStored :
    (job : TriggerJobRecord) (jobs : TriggerStore)
    → IsStored job jobs (create_or_reuse_trigger_job job jobs)
create_or_reuse-IsStored job jobs = elim (Option-cases (get job.trigger_id jobs)) [
  | inl absent ↦
      subst (IsStored job jobs) (sym (create-none job jobs absent))
        (get-set_self job.trigger_id job jobs, λ old here. cc (absent, here), λ _. refl)
  | inr (existing, here) ↦
      subst (IsStored job jobs) (sym (create-some job existing jobs here))
        (here, λ old there. cc (there, here), λ made. cc made)
]

module _ (time : ℕ → ℕ) (id : ℕ → String) (settings : Settings) where
  queue_job-ok :
      (request : Request) (claims : VerifiedAuthClaims) (thread : Thread) (job : TriggerJobRecord)
      (stale : Bool) (session : Option SessionRecord) (s : BridgeState) {r : TriggerResponse}
      {t : BridgeState}
      → queue_job (memory time id) settings request claims thread job stale session s ≡ (ok r, t)
      → (t.triggers ≡ (create_or_reuse_trigger_job job s.triggers).1)
        × ((create_or_reuse_trigger_job job s.triggers).0.created
              || has_trigger_replay_match (create_or_reuse_trigger_job job s.triggers).0.job job
            ≡ true)
        × (r.trigger_id ≡ (create_or_reuse_trigger_job job s.triggers).0.job.trigger_id)
        × (r.job_status ≡ (create_or_reuse_trigger_job job s.triggers).0.job.status)
  unfolding memory give ◌>>=◌ catching ensure
  queue_job-ok request claims thread job stale session s {r} {t} h =
      let result = (create_or_reuse_trigger_job job s.triggers).0 in
      elim (Bool-cases (result.created || has_trigger_replay_match result.job job)) [
        | inl matches ↦
            let h' = rw matches at h in
            let answer =
              value_of_ok (ap (λ (p : Result Thrown TriggerResponse × BridgeState). p.0) h') in
            (
              ap (λ (p : Result Thrown TriggerResponse × BridgeState). p.1.triggers) (sym h'),
              matches,
              ap (λ (x : TriggerResponse). x.trigger_id) (sym answer),
              ap (λ (x : TriggerResponse). x.job_status) (sym answer),
            )
        | inr other ↦
            cc (ap (λ (p : Result Thrown TriggerResponse × BridgeState). p.0) (rw other at h))
      ]

  -- What the stored job asks, where it was made or matches.
  asks :
      (job made : TriggerJobRecord) (created : Bool)
      → (created ≡ true → made ≡ job)
      → created || has_trigger_replay_match made job ≡ true
      → (made.thread_id ≡ job.thread_id)
        × (made.target_agent_id ≡ job.target_agent_id)
        × (made.reason ≡ job.reason)
        × (made.prompt ≡ job.prompt)
  asks job made true same h = let e = same refl in rw e (refl, refl, refl, refl)
  asks job made false same h = ground (
    arith,
    str_eq_iff made.thread_id job.thread_id,
    str_eq_iff made.target_agent_id job.target_agent_id,
    str_eq_iff made.reason job.reason,
    str_eq_iff made.prompt job.prompt,
  )

  wake-IsQueued :
      (input : TriggerRequest) (request : Request) (claims : VerifiedAuthClaims) (thread : Thread)
      (s : BridgeState) {r : TriggerResponse} {t : BridgeState}
      → wake (memory time id) settings input request claims thread s ≡ (ok r, t)
      → IsQueued input request r s t
  unfolding memory
  wake-IsQueued input request claims thread s {r} {t} h =
      let s1 : BridgeState = record s { clock = suc s.clock } in
      let now = time s.clock in
      let h1 = sym (returned (memory time id).now _ s s1 now refl) ∙ h in
      let found = get_session input.target_agent_id thread.workspace_id s.sessions in
      let (session, _, h2) =
        stepped_check _ _ s1 {P = λ o. o ≡ found} (inr (found, refl, refl)) h1 in
      let (decision, _, h3) = stepped_check _ _ s1 (lift-Checks domain _ s1) h2 in
      let job = trigger_job_of settings input request thread session decision now in
      let (after, matches, id_same, status_same) =
        queue_job-ok request claims thread job decision.stale_session session s1 {r = r} {t = t}
          h3 in
      let (stored, kept, fresh) = create_or_reuse-IsStored job s.triggers in
      let result = (create_or_reuse_trigger_job job s.triggers).0 in
      let (thread_same, target, reason, prompt) =
        asks job result.job result.created fresh matches in
      record {
        job = result.job;
        stored = ap (get (String.◌++◌ "trg_" request.id)) after ∙ stored;
        kept = kept;
        thread = thread_same;
        target = target;
        reason = reason;
        prompt = prompt;
        answered = (id_same, status_same);
      }

  -- A request to wake an agent that succeeds has a job under its own id that asks what the payload
  -- asks, and answers with it; a job that was stored under the id already is that job.
  pub trigger_participant-IsQueued :
      (input : TriggerRequest) (request : Request) (s : BridgeState) {r : TriggerResponse}
      {t : BridgeState}
      → trigger_participant (memory time id) settings input request s ≡ (ok r, t)
      → IsQueued input request r s t
  unfolding trigger_participant
  trigger_participant-IsQueued input request s {r} {t} h =
      let (claims, authenticated, h1) =
        stepped_check _ _ s (present-Checks request.context _ s) h in
      let (_, _, h2) = stepped_check _ _ s (lift-Checks auth _ s) h1 in
      let (thread, _, h3) =
        stepped_check _ _ s (require_thread-Checks time id claims input.thread_id s) h2 in
      let (takes_part, _, h4) = stepped_check _ _ s (lift-Checks domain _ s) h3 in
      let (_, _, h5) = stepped_check _ _ s (ensure-Checks _ _ s) h4 in
      wake-IsQueued input request claims thread s {r = r} {t = t} h5
