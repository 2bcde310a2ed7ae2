-- ===== src/Bridge/Invariants/Numbering.antt =====
-- The numbers of messages under every request to the bridge of apps/bridge-api/src.
use orkiva.Shared.{
  ℕ, Bool, String, Option, ok, ◌≡◌, inl, inr, Option-cases, Bool-cases, sym, arith, ap, >>=-eq-ok,
  value_of_ok,
}
use orkiva.Shared.Dict.{get}
use orkiva.Domain.Errors.{Date}
use orkiva.Domain.Thread.{Thread, ThreadStatus, transition_thread_status}
use orkiva.Domain.Message.{Json}
use orkiva.Bridge.Requests.{Request}
use orkiva.Bridge.ThreadStore.{
  ThreadStore, update_thread_status, upsert_participant_cursor, is_unexpected,
}
use orkiva.Bridge.ThreadStore.Numbering.{IsNumbered, add_thread-IsNumbered, add_message-IsNumbered}
use orkiva.Bridge.Dependencies.{Settings}
use orkiva.Bridge.Memory.{BridgeState, memory}
use orkiva.Bridge.Handlers.{McpCall, handle}
use orkiva.Bridge.Invariants.{
  Write, tick, next_id, created, updated, appended, acknowledged, beaten, queued, audited,
  handle-respects,
}

-- A change of status touches no message.
update_thread_status-messages :
    (thread_id : String) (status : ThreadStatus) (moment : Date) (expected : Option ThreadStatus)
    (store : ThreadStore) {t : Option Thread} {store' : ThreadStore}
    → update_thread_status thread_id status moment expected store ≡ ok (t, store')
    → store'.message_records ≡ store.message_records
unfolding update_thread_status
update_thread_status-messages thread_id status moment expected store {t} {store'} h =
    elim (Option-cases (get thread_id store.thread_records)) [
      | inl absent ↦ ground arith
      | inr (existing, here) ↦ elim (Bool-cases (is_unexpected expected existing.status)) [
        | inl lost ↦ ground arith
        | inr same ↦
            let moved = rw (update_thread_status, here, same) at h in
            let (after, _, stored) =
              >>=-eq-ok (transition_thread_status existing status moment) _ moved in
            sym (ap (λ (x : Option Thread × ThreadStore). x.1.message_records) (value_of_ok stored))
      ]
    ]

abbrev KeepsNumbers : BridgeState → BridgeState → Type 0
KeepsNumbers s t = IsNumbered s.threads → IsNumbered t.threads

Write-KeepsNumbers : (s t : BridgeState) → Write s t → KeepsNumbers s t
unfolding upsert_participant_cursor
Write-KeepsNumbers s _ (tick _) h = h
Write-KeepsNumbers s _ (next_id _) h = h
Write-KeepsNumbers s _ (created _ now input t after e) h =
    add_thread-IsNumbered now input s.threads h e
Write-KeepsNumbers s _ (updated _ k status moment expected t after e) h =
    rw (update_thread_status-messages k status moment expected s.threads {t = t} e) h
Write-KeepsNumbers s _ (appended _ now input m after e) h =
    (add_message-IsNumbered now input s.threads h e).0
Write-KeepsNumbers s _ (acknowledged _ cursor) h = h
Write-KeepsNumbers s _ (beaten _ now input r after e) h = h
Write-KeepsNumbers s _ (queued _ job) h = h
Write-KeepsNumbers s _ (audited _ event) h = h

-- From numbered messages, whatever a request's method and payload, and also where it fails, the
-- messages of every thread stay numbered from 1 without a gap.
pub handle-IsNumbered :
    (time : ℕ → ℕ) (id : ℕ → String) (deep_equal : Option Json → Option Json → Bool)
    (settings : Settings) (call : McpCall) (request : Request) (s : BridgeState)
    → IsNumbered s.threads
    → IsNumbered (handle deep_equal (memory time id) settings call request s).1.threads
handle-IsNumbered time id deep_equal settings call request s =
    handle-respects (record { still = λ s h. h; chain = λ s t u k l h. l (k h) }) Write-KeepsNumbers
      time id deep_equal settings call request s
