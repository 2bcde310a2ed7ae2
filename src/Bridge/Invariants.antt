-- ===== src/Bridge/Invariants.antt =====
-- What every request to the bridge of apps/bridge-api/src does to its in-memory stores, where it is
-- known what each write of a store does.
pub mod Numbering
pub mod Jobs
use orkiva.Shared.{
  ℕ, suc, Bool, String, Option, none, some, List, [], ◌∷◌, ◌++◌, ok, err, ◌≡◌, refl, inl, inr,
}
use orkiva.Shared.Actions.{catching, give}
use orkiva.Shared.Actions.Effects.{IsEffect, Within}
use orkiva.Domain.Errors.{Checked, Checked-cases, Date}
use orkiva.Domain.Thread.{Thread, ThreadStatus}
use orkiva.Domain.Message.{Json, Message, CreateMessageInput}
use orkiva.Domain.Cursor.{ParticipantCursor}
use orkiva.Domain.Session.{SessionRecord, SessionHeartbeatInput}
use orkiva.Worker.Jobs.{TriggerJobRecord}
use orkiva.Bridge.Errors.{Thrown}
use orkiva.Bridge.Requests.{Request, AuditEvent}
use orkiva.Bridge.ThreadStore
use orkiva.Bridge.ThreadStore.{ThreadStore, CreateThreadRecordInput}
use orkiva.Bridge.SessionStore
use orkiva.Bridge.SessionStore.{SessionStore}
use orkiva.Bridge.TriggerStore
use orkiva.Bridge.Dependencies.{Settings, write_audit_event}
use orkiva.Bridge.Memory.{BridgeState, memory, on_threads, on_sessions}
use orkiva.Bridge.Handlers.{McpCall, handle}
use orkiva.Bridge.Handlers.Effects.{Respects, handle-Within}

-- The writes of the in-memory stores, as steps from a state to the next.
pub data Write : BridgeState → BridgeState → Type 0 where
  tick : (s : BridgeState) → Write s (record s { clock = suc s.clock })
  next_id : (s : BridgeState) → Write s (record s { ids = suc s.ids })
  created :
      (s : BridgeState) (now : ℕ) (input : CreateThreadRecordInput) (t : Thread)
      (after : ThreadStore)
      → ThreadStore.add_thread now input s.threads ≡ ok (t, after)
      → Write s (record s { threads = after })
  updated :
      (s : BridgeState) (thread_id : String) (status : ThreadStatus) (moment : Date)
      (expected : Option ThreadStatus) (t : Option Thread) (after : ThreadStore)
      → ThreadStore.update_thread_status thread_id status moment expected s.threads ≡ ok (t, after)
      → Write s (record s { threads = after })
  appended :
      (s : BridgeState) (now : ℕ) (input : CreateMessageInput) (m : Message) (after : ThreadStore)
      → ThreadStore.add_message now input s.threads ≡ ok (m, after)
      → Write s (record s { threads = after })
  acknowledged :
      (s : BridgeState) (cursor : ParticipantCursor)
      → Write s (record s { threads = ThreadStore.upsert_participant_cursor cursor s.threads })
  beaten :
      (s : BridgeState) (now : ℕ) (input : SessionHeartbeatInput) (r : SessionRecord)
      (after : SessionStore)
      → SessionStore.heartbeat_session now input s.sessions ≡ ok (r, after)
      → Write s (record s { sessions = after })
  queued :
      (s : BridgeState) (job : TriggerJobRecord)
      → Write s
          (record s { triggers = (TriggerStore.create_or_reuse_trigger_job job s.triggers).1 })
  audited :
      (s : BridgeState) (event : AuditEvent) → Write s (record s { audit = s.audit ++ event ∷ [] })

module _ {R : BridgeState → BridgeState → Type 0} (effect : IsEffect R)
    (step : (s t : BridgeState) → Write s t → R s t) where
  on_threads-R :
      {A : Type 0} (s : BridgeState) (r : Checked (A × ThreadStore))
      → ((a : A) (after : ThreadStore) → r ≡ ok (a, after) → R s (record s { threads = after }))
      → R s (on_threads r s).1
  on_threads-R s (err code) k = effect.still s
  on_threads-R s (ok (a, after)) k = k a after refl

  on_sessions-R :
      {A : Type 0} (s : BridgeState) (r : Checked (A × SessionStore))
      → ((a : A) (after : SessionStore) → r ≡ ok (a, after) → R s (record s { sessions = after }))
      → R s (on_sessions r s).1
  on_sessions-R s (err code) k = effect.still s
  on_sessions-R s (ok (a, after)) k = k a after refl

  memory-Respects : (time : ℕ → ℕ) (id : ℕ → String) → Respects R (memory time id)
  unfolding memory catching give
  memory-Respects time id = record {
    now = record { at = λ s. step s _ (tick s) };
    new_id = record { at = λ s. step s _ (next_id s) };
    create_thread = λ input. record {
      at = λ s.
          on_threads-R s (ThreadStore.add_thread (time s.clock) input s.threads)
            λ t after e. step s _ (created s (time s.clock) input t after e);
    };
    get_thread_by_id = λ _. record { at = effect.still };
    update_thread_status = λ thread_id status moment expected. record {
      at = λ s.
          on_threads-R s
            (ThreadStore.update_thread_status thread_id status moment expected s.threads)
            λ t after e. step s _ (updated s thread_id status moment expected t after e);
    };
    summarize_thread = λ _ _. record { at = effect.still };
    create_message = λ input. record {
      at = λ s.
          on_threads-R s (ThreadStore.add_message (time s.clock) input s.threads)
            λ m after e. step s _ (appended s (time s.clock) input m after e);
    };
    get_latest_message_seq = λ _. record { at = effect.still };
    read_messages = λ _ _ _. record { at = effect.still };
    get_message_by_id = λ _ _. record { at = effect.still };
    get_message_by_idempotency = λ _ _ _. record { at = effect.still };
    get_participant_cursor = λ _ _. record { at = effect.still };
    upsert_participant_cursor = λ cursor. record { at = λ s. step s _ (acknowledged s cursor) };
    heartbeat_session = λ input. record {
      at = λ s.
          on_sessions-R s (SessionStore.heartbeat_session (time s.clock) input s.sessions)
            λ r after e. step s _ (beaten s (time s.clock) input r after e);
    };
    get_session = λ _ _. record { at = effect.still };
    create_or_reuse_trigger_job = λ job. record { at = λ s. step s _ (queued s job) };
    write_event = λ event. record { at = λ s. step s _ (audited s event) };
  }

  -- A request moves the stores by writes only, whatever its method and payload: what each write
  -- respects, it respects.
  pub handle-respects :
      (time : ℕ → ℕ) (id : ℕ → String) (deep_equal : Option Json → Option Json → Bool)
      (settings : Settings) (call : McpCall) (request : Request) (s : BridgeState)
      → R s (handle deep_equal (memory time id) settings call request s).1
  handle-respects time id deep_equal settings call request =
      (handle-Within effect (memory time id) (memory-Respects time id) deep_equal settings call
        request).at
