-- ===== src/Worker/Queue/RateLimit.antt =====
-- The rate limit of the trigger queue against the full history of what it let pass.
use orkiva.Shared.{
  ℕ, ◌+◌, ◌≤◌, ◌<◌, Bool, true, false, String, Option, none, some, List, [], ◌∷◌, ◌++◌, filter,
  length, str_eq, str_eq_iff, leb, or_else, if◌then◌else◌, ◌&&◌, ◌≡◌, refl, ◌↔◌, arith, Bool-cases,
  inl, inr, ap, not, Option-cases, ◌∙◌,
}
use orkiva.Shared.Dict.{get, get-set}
use orkiva.Worker.Jobs.{TriggerJobRecord, TriggerExecutionOutcome}
use orkiva.Worker.Queue.{
  Settings, Processor, new_processor, rate_limit_key, is_recent, apply_rate_limit,
}

-- Keys and times of what was let pass, the latest first.
abbrev pub History : Type 0
History = List (String × ℕ)

abbrev pub is_recent_of : String → ℕ → String × ℕ → Bool
is_recent_of key now entry = str_eq entry.0 key && is_recent now entry.1

-- How many attempts for a key were let pass in the minute before a time.
abbrev pub recent_count : String → ℕ → History → ℕ
recent_count key now history = length (filter (is_recent_of key now) history)

-- Each attempt was let pass when fewer than the limit had been in the minute before.
abbrev pub IsLimited : Settings → History → Type 0
IsLimited config [] = Unit
IsLimited config ((key, now) ∷ older) =
    (recent_count key now older < config.safeguards.rate_limit_per_minute) × IsLimited config older

abbrev logged : String → ℕ → Option TriggerExecutionOutcome → History → History
logged key now none history = (key, now) ∷ history
logged key now (some outcome) history = history

-- Requests in order of time.
unfoldable pub request_all : Settings → List (TriggerJobRecord × ℕ) → Processor → History → History
request_all config [] p history = history
request_all config ((job, now) ∷ rest) p history =
    let (limited, p') = apply_rate_limit config job now p in
    request_all config rest p' (logged (rate_limit_key job) now limited history)

abbrev pub IsInOrder : ℕ → List (TriggerJobRecord × ℕ) → Type 0
IsInOrder last [] = Unit
IsInOrder last ((job, now) ∷ rest) = (last ≤ now) × IsInOrder now rest

abbrev events_of : String → Processor → List ℕ
events_of key p = or_else (get key p.rate_limit_events) []

-- The events that the processor keeps count as many recent ones as the history, now and later.
abbrev Tracks : ℕ → Processor → History → Type 0
Tracks last p history =
    (key : String) (now : ℕ)
    → last ≤ now
    → recent_count key now history ≡ length (filter (is_recent now) (events_of key p))

-- What is recent later is recent now.
filter-filter_recent :
    (now later : ℕ) (xs : List ℕ)
    → now ≤ later
    → filter (is_recent later) (filter (is_recent now) xs) ≡ filter (is_recent later) xs
filter-filter_recent now later [] h = refl
filter-filter_recent now later (x ∷ xs) h = elim (Bool-cases (is_recent later x)) [
  | inl r ↦
      let r' : is_recent now x ≡ true = ground arith in
      rw (r, r', r) (ap (λ ys. x ∷ ys) (filter-filter_recent now later xs h))
  | inr r ↦ elim (Bool-cases (is_recent now x)) [
    | inl r' ↦ rw (r, r', r) (filter-filter_recent now later xs h)
    | inr r' ↦ rw (r, r') (filter-filter_recent now later xs h)
  ]
]

length-filter-concat :
    (p : ℕ → Bool) (xs : List ℕ) (y : ℕ)
    → length (filter p (xs ++ y ∷ [])) ≡ (if p y then 1 else 0) + length (filter p xs)
length-filter-concat p [] y = ground arith
length-filter-concat p (x ∷ xs) y = ground (arith, length-filter-concat p xs y)

module _ (config : Settings) (job : TriggerJobRecord) (now : ℕ) (p : Processor) where
  abbrev kept : List ℕ
  kept = filter (is_recent now) (events_of (rate_limit_key job) p)

  abbrev is_full : Bool
  is_full = leb config.safeguards.rate_limit_per_minute (length kept)

  events_of-apply :
      (key : String)
      → events_of key (apply_rate_limit config job now p).1 ≡ (
          if str_eq (rate_limit_key job) key
          then (if is_full then kept else kept ++ now ∷ [])
          else events_of key p)
  unfolding apply_rate_limit
  events_of-apply key = ground (
    arith,
    get-set (rate_limit_key job) key kept p.rate_limit_events,
    get-set (rate_limit_key job) key (kept ++ now ∷ []) p.rate_limit_events,
  )

  passed_iff : ((apply_rate_limit config job now p).0 ≡ none) ↔ (is_full ≡ false)
  unfolding apply_rate_limit
  passed_iff = (λ h. ground arith, λ h. ground arith)

  -- What a later reader counts of a key after this request.
  count-apply :
      (key : String) (later : ℕ)
      → now ≤ later
      → length (filter (is_recent later) (events_of key (apply_rate_limit config job now p).1))
        ≡ (if str_eq (rate_limit_key job) key && not is_full && is_recent later now then 1 else 0)
          + length (filter (is_recent later) (events_of key p))
  count-apply key later h = elim (Bool-cases (str_eq (rate_limit_key job) key)) [
    | inr other ↦ rw (events_of-apply key, other) (omega arith)
    | inl same ↦
        let e : rate_limit_key job ≡ key = (str_eq_iff _ _).0 same in
        let again : filter (is_recent later) kept ≡ filter (is_recent later) (events_of key p) =
          filter-filter_recent now later (events_of (rate_limit_key job) p) h
          ∙ ap (λ k. filter (is_recent later) (events_of k p)) e in
        elim (Bool-cases is_full) [
          | inl full ↦ rw (events_of-apply key, same, full, again) (omega arith)
          | inr room ↦
              rw (events_of-apply key, same, room)
                (length-filter-concat (is_recent later) kept now
                  ∙ ap (λ ys. (if is_recent later now then 1 else 0) + length ys) again)
        ]
  ]

  recent_count-logged :
      (key : String) (later : ℕ) (history : History)
      → recent_count key later
          (logged (rate_limit_key job) now (apply_rate_limit config job now p).0 history)
        ≡ (if str_eq (rate_limit_key job) key && not is_full && is_recent later now then 1 else 0)
          + recent_count key later history
  unfolding apply_rate_limit
  recent_count-logged key later history = ground arith

  Tracks-apply :
      (last : ℕ) (history : History)
      → last ≤ now
      → Tracks last p history
      → Tracks now
          (apply_rate_limit config job now p).1
          (logged (rate_limit_key job) now (apply_rate_limit config job now p).0 history)
  Tracks-apply last history h tracks key later k = omega (
    arith,
    count-apply key later k,
    recent_count-logged key later history,
    tracks key later (omega arith),
  )

  IsLimited-logged :
      (last : ℕ) (history : History)
      → last ≤ now
      → Tracks last p history
      → IsLimited config history
      → IsLimited config
          (logged (rate_limit_key job) now (apply_rate_limit config job now p).0 history)
  IsLimited-logged last history h tracks limited =
      elim (Option-cases (apply_rate_limit config job now p).0) [
        | inr (o, e) ↦ rw e limited
        | inl e ↦ rw e (
            let room = passed_iff.0 e in
            let count = tracks (rate_limit_key job) now h in (ground arith, limited))
      ]

request_all-IsLimited_from :
    (config : Settings) (requests : List (TriggerJobRecord × ℕ)) (last : ℕ) (p : Processor)
    (history : History)
    → IsInOrder last requests
    → Tracks last p history
    → IsLimited config history
    → IsLimited config (request_all config requests p history)
unfolding request_all
request_all-IsLimited_from config [] last p history o tracks limited = limited
request_all-IsLimited_from config ((job, now) ∷ rest) last p history (h, o) tracks limited =
    request_all-IsLimited_from config rest now (apply_rate_limit config job now p).1
      (logged (rate_limit_key job) now (apply_rate_limit config job now p).0 history) o
      (Tracks-apply config job now p last history h tracks)
      (IsLimited-logged config job now p last history h tracks limited)

Tracks-new : Tracks 0 new_processor []
unfolding get
Tracks-new key now h = refl

-- Whatever is asked in order of time, no attempt is let pass when the limit has been reached for
-- its key in the minute before.
pub request_all-IsLimited :
    (config : Settings) (requests : List (TriggerJobRecord × ℕ))
    → IsInOrder 0 requests
    → IsLimited config (request_all config requests new_processor [])
request_all-IsLimited config requests o =
    request_all-IsLimited_from config requests 0 new_processor [] o Tracks-new tt
