-- ===== src/Domain/Session/Tests.antt =====
-- Sessions at work.
use mathlib.Core.List.{Memᴰ}
use orkiva.Shared.{
  ℕ, ◌+◌, ◌*◌, ◌≤◌, ◌<◌, Bool, true, false, String, List, [], ◌∷◌, none, some, ok, err, ◌>>=◌,
  or_else, All, ◌≡◌, ◌≢◌, refl, ◌↔◌, ◌⊎◌,
}
use orkiva.Domain.Errors.{Number, nat, at, session_scope_mismatch}
use orkiva.Domain.Session.{
  SessionRecord, SessionHeartbeatInput, SessionLookupInput, managed, active, idle, is_session_stale,
  find_latest_resumable_session, apply_session_heartbeat, update_session,
}
use orkiva.Domain.Session.Lookup.{is_candidate, find_latest_sound}
use orkiva.Domain.Session.Heartbeats.{IsBeat, heartbeats_commute, untrimmed_agent_locked_out}

abbrev session : String → ℕ → SessionRecord
session id t = record {
  agent_id = "a";
  workspace_id = "w";
  session_id = id;
  runtime = "tmux:a";
  management_mode = managed;
  resumable = true;
  status = idle;
  last_heartbeat_at = t;
  updated_at = t;
}

abbrev beat : String → ℕ → SessionHeartbeatInput
beat agent t = record {
  agent_id = agent;
  workspace_id = "w";
  session_id = "s_2";
  runtime = "tmux:a";
  management_mode = managed;
  resumable = true;
  status = active;
  heartbeat_at = some (at t);
}

abbrev lookup : ℕ → SessionLookupInput
lookup t = record {
  agent_id = "a ";
  workspace_id = "w";
  stale_after_hours = nat 1;
  reference_time = some (at t);
}

abbrev sessions : List SessionRecord
sessions = session "s_1" 5 ∷ session "s_2" 9 ∷ []

found : find_latest_resumable_session 0 sessions (lookup 10) ≡ ok (some (session "s_2" 9))
unfolding find_latest_resumable_session orkiva.Domain.Errors.require_non_empty_string
    orkiva.Shared.trim orkiva.Domain.Errors.require_date is_session_stale
found = refl

find_latest_sound_example :
    Memᴰ (session "s_2" 9) sessions
    × (is_candidate (lookup 10) (session "s_2" 9) ≡ true)
    × (is_session_stale (session "s_2" 9) (nat 1) (at 10) ≡ ok false)
    × All (λ c. is_candidate (lookup 10) c ≡ true → c.last_heartbeat_at ≤ 9) sessions
find_latest_sound_example = find_latest_sound 0 sessions (lookup 10) {s = session "s_2" 9} found

none_found : find_latest_resumable_session 0 sessions (lookup 4000000) ≡ ok none
unfolding find_latest_resumable_session orkiva.Domain.Errors.require_non_empty_string
    orkiva.Shared.trim orkiva.Domain.Errors.require_date is_session_stale
none_found = refl

abbrev beaten : SessionRecord
beaten = record (session "s_2" 9) { status = active }

taken : apply_session_heartbeat 0 (some (session "s_1" 5)) (beat "a" 9) ≡ ok beaten
unfolding apply_session_heartbeat orkiva.Domain.Errors.require_date
    orkiva.Domain.Errors.require_non_empty_string orkiva.Shared.trim
taken = refl

beat-IsBeat : (t : ℕ) → IsBeat 0 "a" "w" (beat "a" t) t
unfolding orkiva.Shared.is_empty orkiva.Shared.trim
beat-IsBeat t = record {
  dated = refl;
  agent = refl;
  workspace = refl;
  session = refl;
  runtime = refl;
}

seven≢nine : ◌≢◌ {A = ℕ} 7 9
seven≢nine e = cc

heartbeats_commute_example :
    (update_session 0 (session "s_1" 5) (beat "a" 7) >>= λ s'. update_session 0 s' (beat "a" 9))
    ≡ (update_session 0 (session "s_1" 5) (beat "a" 9) >>= λ s'. update_session 0 s' (beat "a" 7))
heartbeats_commute_example =
    heartbeats_commute 0 (session "s_1" 5) (beat "a" 7) (beat "a" 9) 7 9 (beat-IsBeat 7)
      (beat-IsBeat 9) seven≢nine

padded : ◌≢◌ {A = String} "a" "a "
padded e = cc

created : apply_session_heartbeat 0 none (beat "a " 9) ≡ ok beaten
unfolding apply_session_heartbeat orkiva.Domain.Errors.require_date
    orkiva.Domain.Errors.require_non_empty_string orkiva.Shared.trim
created = refl

untrimmed_agent_locked_out_example :
    apply_session_heartbeat 0 (some beaten) (beat "a " 11) ≡ err session_scope_mismatch
unfolding orkiva.Shared.trim
untrimmed_agent_locked_out_example =
    untrimmed_agent_locked_out 0 0 11 (beat "a " 9) (beat "a " 11) {s = beaten} padded created refl
      refl
