-- ===== src/Events/Store/Examples.antt =====
-- Runs of the event store, and the theorems about it at concrete stores.
use fastapi_viewsets.Prelude.{
  ℕ, ◌≤◌, ◌<◌, ◌≡◌, refl, max, Text, text, lookup, insert, list_eq, nat_eq, ◌==◌, ◌+◌,
  if◌then◌else◌, List, [], ◌∷◌, ◌++◌, none, some, ◌⊎◌, arith,
}
use fastapi_viewsets.Events.Store.{
  LoggedEvent, Topic, LogSettings, MemoryEventStore, ok, overflow_error, max_rev, next_rev, rev_of,
  live_log, trim, record_event, append, since, collect,
}
use fastapi_viewsets.Events.Store.Chain.{events_after}
use fastapi_viewsets.Events.Store.History.{Tracks, Tracks-insert, since-eq-events_after, log_of}
use fastapi_viewsets.Events.Store.Appends.{append_outcome, appended, IsRecorded}
use fastapi_viewsets.Events.Store.Answers.{since_complete}

abbrev settings : LogSettings
settings = record { log_size = 2; log_ttl_ms = 1000 }

abbrev first : LoggedEvent ℕ
first = record { rev = 10; prev = 0; name = text "a"; payload = 1; version = 1 }

abbrev second : LoggedEvent ℕ
second = record { rev = 11; prev = 10; name = text "b"; payload = 2; version = 1 }

abbrev third : LoggedEvent ℕ
third = record { rev = 50; prev = 11; name = text "c"; payload = 3; version = 1 }

abbrev items : Text
items = text "/items"

abbrev state : Topic ℕ
state = record { rev = 11; log = first ∷ second ∷ []; log_expires_ms = 1010 }

abbrev empty : MemoryEventStore ℕ
empty = []

abbrev topics : MemoryEventStore ℕ
topics = (items, state) ∷ []

abbrev nothing : Text → List (LoggedEvent ℕ)
nothing _ = []

abbrev history : Text → List (LoggedEvent ℕ)
history j = if items == j then first ∷ second ∷ [] else nothing j

Tracks-empty : Tracks empty nothing
unfolding lookup
Tracks-empty = record { at_topic = λ t. record { chained = refl; older = []; suffix = refl } }

Tracks-topics : Tracks topics history
unfolding insert
Tracks-topics =
    Tracks-insert empty nothing items state (first ∷ second ∷ []) Tracks-empty (record {
      chained = (refl, omega arith, (refl, omega arith, refl));
      older = [];
      suffix = refl;
    })

-- the clock is behind the rev, then ahead of it; a third event pushes the first one out
appends_run :
    ((append settings 5 items (text "c") 3 1 topics).1 ≡ ok (12, 11))
    × (log_of (lookup items (append settings 50 items (text "c") 3 1 topics).0)
        ≡ second ∷ third ∷ [])
unfolding append next_rev record_event live_log trim lookup insert
appends_run = (refl, refl)

since_run : (since 60 items 10 topics).1 ≡ some (second ∷ [])
unfolding since lookup live_log collect
since_run = refl

since_expired : (since 1010 items 10 topics).1 ≡ none
unfolding since lookup live_log collect
since_expired = refl

since-eq-events_after_example : second ∷ [] ≡ events_after 10 (history items)
since-eq-events_after_example =
    since-eq-events_after topics history 60 items 10 Tracks-topics since_run

since_complete_example : (since 60 items 10 topics).1 ≡ some (events_after 10 (history items))
unfolding lookup live_log
since_complete_example =
    since_complete topics history 60 items state (first ∷ []) second [] Tracks-topics refl refl

append_outcome_example :
    ((max_rev ≤ max (rev_of (lookup items topics) + 1) 50)
      × (append settings 50 items (text "c") 3 1 topics ≡ (topics, overflow_error)))
    ⊎ ((max (rev_of (lookup items topics) + 1) 50 < max_rev)
        × ((append settings 50 items (text "c") 3 1 topics).1
            ≡ ok (max (rev_of (lookup items topics) + 1) 50, rev_of (lookup items topics)))
        × Tracks (append settings 50 items (text "c") 3 1 topics).0 (λ j.
          if items == j
          then history items
            ++ appended settings 50 (text "c") 3 1 (rev_of (lookup items topics)) ∷ []
          else history j)
        × IsRecorded settings 50
            (text "c")
            3
            1
            items
            topics
            (append settings 50 items (text "c") 3 1 topics).0)
append_outcome_example =
    append_outcome settings 50 (text "c") 3 1 items topics history Tracks-topics
