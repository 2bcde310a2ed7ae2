-- ===== src/Bridge/Memory.antt =====
-- The bridge over its in-memory stores. `time n` is what the n-th reading of the clock gives, and
-- `id n` the n-th id of the generator; the audit store takes every event.
use orkiva.Shared.{ℕ, suc, String, some, List, [], ◌∷◌, ◌++◌, ok, err}
use orkiva.Domain.Errors.{Checked}
use orkiva.Bridge.Errors.{domain}
use orkiva.Bridge.Requests.{AuditEvent}
use orkiva.Bridge.ThreadStore
use orkiva.Bridge.ThreadStore.{ThreadStore}
use orkiva.Bridge.SessionStore
use orkiva.Bridge.SessionStore.{SessionStore}
use orkiva.Bridge.TriggerStore
use orkiva.Bridge.TriggerStore.{TriggerStore}
use orkiva.Bridge.Dependencies.{Call, Dependencies}

pub record BridgeState : Type 0 where
  pub threads : ThreadStore
  pub sessions : SessionStore
  pub triggers : TriggerStore
  pub audit : List AuditEvent
  pub clock : ℕ
  pub ids : ℕ

-- A store's call that throws leaves the store as it was.
abbrev pub on_threads : {A : Type 0} → Checked (A × ThreadStore) → Call BridgeState A
on_threads (err code) s = (err (domain code), s)
on_threads (ok (a, threads)) s = (ok a, record s { threads = threads })

abbrev pub on_sessions : {A : Type 0} → Checked (A × SessionStore) → Call BridgeState A
on_sessions (err code) s = (err (domain code), s)
on_sessions (ok (a, sessions)) s = (ok a, record s { sessions = sessions })

abbrev pub on_triggers : {A : Type 0} → A × TriggerStore → Call BridgeState A
on_triggers (a, triggers) s = (ok a, record s { triggers = triggers })

unfoldable pub memory : (ℕ → ℕ) → (ℕ → String) → Dependencies BridgeState
memory time id = record {
  now = λ s. (ok (time s.clock), record s { clock = suc s.clock });
  new_id = λ s. (ok (id s.ids), record s { ids = suc s.ids });
  create_thread = λ input s. on_threads (ThreadStore.add_thread (time s.clock) input s.threads) s;
  get_thread_by_id = λ thread_id s. (ok (ThreadStore.get_thread_by_id thread_id s.threads), s);
  update_thread_status = λ thread_id status at expected s.
      on_threads (ThreadStore.update_thread_status thread_id status at expected s.threads) s;
  summarize_thread =
      λ thread_id most s. (ok (ThreadStore.summarize_thread thread_id most s.threads), s);
  create_message = λ input s. on_threads (ThreadStore.add_message (time s.clock) input s.threads) s;
  get_latest_message_seq =
      λ thread_id s. (ok (ThreadStore.get_latest_message_seq thread_id s.threads), s);
  read_messages = λ thread_id since limit s.
      (ok (ThreadStore.read_messages thread_id since limit s.threads), s);
  get_message_by_id = λ thread_id message_id s.
      (ok (ThreadStore.get_message_by_id thread_id message_id s.threads), s);
  get_message_by_idempotency = λ thread_id sender key s.
      (ok (ThreadStore.get_message_by_idempotency thread_id sender key s.threads), s);
  get_participant_cursor = λ thread_id agent_id s.
      (ok (ThreadStore.get_participant_cursor thread_id agent_id s.threads), s);
  upsert_participant_cursor = λ cursor s.
      (ok tt, record s { threads = ThreadStore.upsert_participant_cursor cursor s.threads });
  heartbeat_session =
      λ input s. on_sessions (SessionStore.heartbeat_session (time s.clock) input s.sessions) s;
  get_session = λ agent_id workspace_id s.
      (ok (SessionStore.get_session agent_id workspace_id s.sessions), s);
  create_or_reuse_trigger_job =
      λ job s. on_triggers (TriggerStore.create_or_reuse_trigger_job job s.triggers) s;
  write_event = some (λ event s. (ok tt, record s { audit = s.audit ++ event ∷ [] }));
}
