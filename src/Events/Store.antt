-- ===== src/Events/Store.antt =====
-- fastapi_viewsets/events/store.py: `next_rev` and `MemoryEventStore`. A method takes the store and
-- the clock value that the code reads, and returns the new store beside its result.
pub mod Chain
pub mod History
pub mod Kept
pub mod Appends
pub mod Answers
pub mod Examples
use fastapi_viewsets.Prelude.{
  ℕ, ◌+◌, ◌*◌, ◌^◌, max, Text, Dict, lookup, insert, erase, list_eq, nat_eq, length, ltb, leb,
  nat_beq, if◌then◌else◌, List, [], ◌∷◌, ◌++◌, reverse, Option, none, some, Bool, true, false, ◌&&◌,
  not, map,
}

-- Exclusive bound of every rev.
abbrev pub max_rev : ℕ
max_rev = 2 ^ 53

pub record LoggedEvent (P : Type 0) : Type 0 where
  pub rev : ℕ
  pub prev : ℕ
  pub name : Text
  pub payload : P
  pub version : ℕ

-- `_Topic`
pub record Topic (P : Type 0) : Type 0 where
  pub rev : ℕ
  pub log : List (LoggedEvent P)
  pub log_expires_ms : ℕ

-- `settings.viewsets_event_log_size` as `max(_, 0)`, and `int(viewsets_event_log_ttl * 1000)`.
pub record LogSettings : Type 0 where
  pub log_size : ℕ
  pub log_ttl_ms : ℕ

-- What a call that may raise `OverflowError` answers.
pub data Result {ℓ} (A : Type ℓ) : Type ℓ where
  ok : A → Result A
  overflow_error : Result A

-- `next_rev`
unfoldable pub next_rev : ℕ → ℕ → Result ℕ
next_rev prev now_ms =
    let rev = max (prev + 1) now_ms in if leb max_rev rev then overflow_error else ok rev

-- `MemoryEventStore._topics`
abbrev pub MemoryEventStore : Type 0 → Type 0
MemoryEventStore P = Dict Text (Topic P)

module _ {P : Type 0} where
  abbrev pub new_topic : Topic P
  new_topic = record { rev = 0; log = []; log_expires_ms = 0 }

  abbrev pub rev_of : Option (Topic P) → ℕ
  rev_of none = 0
  rev_of (some state) = state.rev

  abbrev topic_or_new : Option (Topic P) → Topic P
  topic_or_new none = new_topic
  topic_or_new (some state) = state

  abbrev is_empty : List (LoggedEvent P) → Bool
  is_empty [] = true
  is_empty (_ ∷ _) = false

  -- `_log`: the log, emptied once it has expired
  unfoldable pub live_log : Topic P → ℕ → List (LoggedEvent P)
  live_log state now_ms =
      if not (is_empty state.log) && leb state.log_expires_ms now_ms then [] else state.log

  -- `while len(log) > size: log.popleft()`
  unfoldable pub trim : ℕ → List (LoggedEvent P) → List (LoggedEvent P)
  trim size [] = []
  trim size (e ∷ log) = if ltb size (length (e ∷ log)) then trim size log else e ∷ log

  -- the part of `append` after `next_rev`
  unfoldable pub record_event : LogSettings → ℕ → ℕ → ℕ → Text → P → ℕ → Topic P → Topic P
  record_event settings now_ms rev prev name payload version state =
      let event : LoggedEvent P = record {
        rev = rev;
        prev = prev;
        name = name;
        payload = payload;
        version = version;
      } in
      record {
        rev = rev;
        log = trim settings.log_size (live_log state now_ms ++ event ∷ []);
        log_expires_ms = now_ms + settings.log_ttl_ms;
      }

  -- `append` after the topic's state is read: an overflow raises before anything is written
  unfoldable pub append_at :
      Option (Topic P)
      → LogSettings
      → ℕ
      → Text
      → Text
      → P
      → ℕ
      → MemoryEventStore P
      → MemoryEventStore P × Result (ℕ × ℕ)
  append_at found settings now_ms topic name payload version topics =
      elim (next_rev (rev_of found) now_ms) [
        | overflow_error ↦ (topics, overflow_error)
        | ok rev ↦ (
          insert topic
              (record_event settings now_ms rev (rev_of found) name payload version
                (topic_or_new found))
              topics,
          ok (rev, rev_of found),
        )
      ]

  -- `append`
  unfoldable pub append :
      LogSettings
      → ℕ
      → Text
      → Text
      → P
      → ℕ
      → MemoryEventStore P
      → MemoryEventStore P × Result (ℕ × ℕ)
  unfolding append_at
  append settings now_ms topic name payload version topics =
      append_at (lookup topic topics) settings now_ms topic name payload version topics

  -- `revs`: the dict comprehension over `topics`
  unfoldable pub revs_into : Dict Text ℕ → List Text → MemoryEventStore P → Dict Text ℕ
  revs_into answer [] topics = answer
  revs_into answer (topic ∷ rest) topics =
      revs_into (insert topic (rev_of (lookup topic topics)) answer) rest topics

  unfoldable pub revs : List Text → MemoryEventStore P → Dict Text ℕ
  unfolding revs_into
  revs wanted topics = revs_into [] wanted topics

  -- the loop of `since` over `reversed(log)`; `chain` grows at its end
  unfoldable pub collect :
      ℕ → List (LoggedEvent P) → List (LoggedEvent P) → Option (List (LoggedEvent P))
  collect after chain [] = none
  collect after chain (entry ∷ older) =
      let chain' = chain ++ entry ∷ [] in
      if nat_beq entry.prev after then some (reverse chain') else collect after chain' older

  -- `since` after the topic's state is read: an expired log is emptied on the way
  unfoldable pub since_at :
      Option (Topic P)
      → ℕ
      → Text
      → ℕ
      → MemoryEventStore P
      → MemoryEventStore P × Option (List (LoggedEvent P))
  since_at none now_ms topic after topics =
      if nat_beq after 0 then (topics, some []) else (topics, none)
  since_at (some state) now_ms topic after topics =
      if nat_beq after state.rev
      then (topics, some [])
      else let log = live_log state now_ms in
        (insert topic (record state { log = log }) topics, collect after [] (reverse log))

  -- `since`
  unfoldable pub since :
      ℕ → Text → ℕ → MemoryEventStore P → MemoryEventStore P × Option (List (LoggedEvent P))
  unfolding since_at
  since now_ms topic after topics = since_at (lookup topic topics) now_ms topic after topics

  -- `drop`
  unfoldable pub drop_topic : Text → MemoryEventStore P → MemoryEventStore P
  drop_topic topic topics = erase topic topics
