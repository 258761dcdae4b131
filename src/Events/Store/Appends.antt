-- ===== src/Events/Store/Appends.antt =====
-- `append`: the rev it assigns, the bound that it keeps, and what the log holds after it.
use mathlib.Core.List.{append_assoc}
use fastapi_viewsets.Prelude.{
  ℕ, false, ◌+◌, ◌≤◌, ◌<◌, ◌≡◌, refl, max, Text, lookup, insert, lookup-insert, list_eq, nat_eq,
  ◌==◌, beq_refl, length, leb, leb→le, le→leb, if◌then◌else◌, List, [], ◌∷◌, ◌++◌, Option, none,
  some, Bool-cases, inl, inr, ◌⊎◌, arith, ◌∙◌, ap, sym,
}
use fastapi_viewsets.Events.Store.{
  LoggedEvent, Topic, LogSettings, MemoryEventStore, ok, overflow_error, max_rev, next_rev, rev_of,
  topic_or_new, live_log, record_event, append,
}
use fastapi_viewsets.Events.Store.Kept.{last_of, unexpired, trim-last_of, live_log-unexpired}
use fastapi_viewsets.Events.Store.Chain.{IsChain-append, trim_suffix, length-trim-le}
use fastapi_viewsets.Events.Store.History.{
  TopicTracks, Tracks, Tracks-insert, live-TopicTracks, log_of,
}

pub next_rev_overflow :
    (prev now_ms : ℕ) → max_rev ≤ max (prev + 1) now_ms → next_rev prev now_ms ≡ overflow_error
unfolding next_rev
next_rev_overflow prev now_ms h = rw (le→leb max_rev (max (prev + 1) now_ms) h)

pub next_rev_ok :
    (prev now_ms : ℕ)
    → max (prev + 1) now_ms < max_rev
    → next_rev prev now_ms ≡ ok (max (prev + 1) now_ms)
unfolding next_rev
next_rev_ok prev now_ms h = ground arith

module _ {P : Type 0} where
  topic_or_new-TopicTracks :
      (found : Option (Topic P)) (history : List (LoggedEvent P))
      → TopicTracks found history
      → TopicTracks (some (topic_or_new found)) history
  topic_or_new-TopicTracks none history h = record {
    chained = h.chained;
    older = h.older;
    suffix = h.suffix;
  }
  topic_or_new-TopicTracks (some state) history h = h

  module _ (settings : LogSettings) (now_ms : ℕ) (name : Text) (payload : P) (version : ℕ) where
    -- The event that `append` records for a topic whose rev is `prev`.
    abbrev pub appended : ℕ → LoggedEvent P
    appended prev = record {
      rev = max (prev + 1) now_ms;
      prev = prev;
      name = name;
      payload = payload;
      version = version;
    }

    record_event-TopicTracks :
        (state : Topic P) (history : List (LoggedEvent P))
        → TopicTracks (some state) history
        → TopicTracks
            (some (
              record_event settings now_ms
                (max (state.rev + 1) now_ms)
                state.rev
                name
                payload
                version
                state))
            (history ++ appended state.rev ∷ [])
    unfolding record_event
    record_event-TopicTracks state history h =
        let live = live_log state now_ms in
        let e = appended state.rev in
        let k = live-TopicTracks state history now_ms h in
        let (gone, same) = trim_suffix settings.log_size (live ++ e ∷ []) in
        record {
          chained =
              IsChain-append 0 history state.rev (e ∷ []) _ h.chained (refl, omega arith, refl);
          older = k.older ++ gone;
          suffix =
              ap (λ l. l ++ e ∷ []) k.suffix
              ∙ append_assoc k.older live (e ∷ [])
              ∙ ap (λ l. k.older ++ l) same
              ∙ sym (append_assoc k.older gone _);
        }

    recorded-TopicTracks :
        (found : Option (Topic P)) (history : List (LoggedEvent P))
        → TopicTracks found history
        → TopicTracks
            (some (
              record_event settings now_ms
                (max (rev_of found + 1) now_ms)
                (rev_of found)
                name
                payload
                version
                (topic_or_new found)))
            (history ++ appended (rev_of found) ∷ [])
    recorded-TopicTracks none history h =
        record_event-TopicTracks (topic_or_new none) history
          (topic_or_new-TopicTracks none history h)
    recorded-TopicTracks (some state) history h = record_event-TopicTracks state history h

    append-eq_overflow :
        (t : Text) (topics : MemoryEventStore P)
        → next_rev (rev_of (lookup t topics)) now_ms ≡ overflow_error
        → append settings now_ms t name payload version topics ≡ (topics, overflow_error)
    unfolding append
    append-eq_overflow t topics h = ground arith

    append-eq_ok :
        (t : Text) (topics : MemoryEventStore P) {rev : ℕ}
        → next_rev (rev_of (lookup t topics)) now_ms ≡ ok rev
        → append settings now_ms t name payload version topics ≡ (
          insert t
              (record_event settings now_ms rev
                (rev_of (lookup t topics))
                name
                payload
                version
                (topic_or_new (lookup t topics)))
              topics,
          ok (rev, rev_of (lookup t topics)),
        )
    unfolding append
    append-eq_ok t topics h = ground arith

    -- What an append to the topic `t` leaves: its rev, its log and the time of that, and the other topics.
    pub record IsRecorded (t : Text) (topics after : MemoryEventStore P) : Type 0 where
      pub state : Topic P
      pub found : lookup t after ≡ some state
      pub current : state.rev ≡ max (rev_of (lookup t topics) + 1) now_ms
      pub kept :
          state.log
          ≡ last_of settings.log_size
              (unexpired (lookup t topics) now_ms ++ appended (rev_of (lookup t topics)) ∷ [])
      pub expires : state.log_expires_ms ≡ now_ms + settings.log_ttl_ms
      pub others : (j : Text) → (t == j) ≡ false → lookup j after ≡ lookup j topics

    record_event-IsRecorded :
        (t : Text) (topics : MemoryEventStore P)
        → IsRecorded t topics (
            insert t
              (record_event settings now_ms
                (max (rev_of (lookup t topics) + 1) now_ms)
                (rev_of (lookup t topics))
                name
                payload
                version
                (topic_or_new (lookup t topics)))
              topics)
    unfolding record_event
    record_event-IsRecorded t topics = record {
      state = _;
      found = rw (lookup-insert, beq_refl t) refl;
      current = refl;
      kept =
          trim-last_of settings.log_size _
          ∙ ap (λ l. last_of settings.log_size (l ++ appended (rev_of (lookup t topics)) ∷ []))
              (live_log-unexpired (lookup t topics) now_ms);
      expires = refl;
      others = λ j other. rw (lookup-insert, other) refl;
    }

    -- Where the store tracks the histories of its topics: either the new rev would reach 2 ** 53, and
    -- `append` raises and writes nothing; or the event is recorded under the larger of the clock and the
    -- successor of the topic's rev, after the whole history: the topic's log is then the last `log_size` of
    -- the events that were kept and not expired and the new one, its time starts anew, and every other topic
    -- is as it was.
    pub append_outcome :
        (t : Text) (topics : MemoryEventStore P) (history : Text → List (LoggedEvent P))
        → Tracks topics history
        → ((max_rev ≤ max (rev_of (lookup t topics) + 1) now_ms)
            × (append settings now_ms t name payload version topics ≡ (topics, overflow_error)))
          ⊎ ((max (rev_of (lookup t topics) + 1) now_ms < max_rev)
              × ((append settings now_ms t name payload version topics).1
                  ≡ ok (max (rev_of (lookup t topics) + 1) now_ms, rev_of (lookup t topics)))
              × Tracks (append settings now_ms t name payload version topics).0 (λ j.
                if t == j then history t ++ appended (rev_of (lookup t topics)) ∷ [] else history j)
              × IsRecorded t topics (append settings now_ms t name payload version topics).0)
    unfolding append
    append_outcome t topics history h =
        let found = lookup t topics in
        let rev = max (rev_of found + 1) now_ms in
        elim (Bool-cases (leb max_rev rev)) [
          | inl over ↦
              let high : max_rev ≤ rev = leb→le max_rev rev over in
              inl (high, append-eq_overflow t topics (next_rev_overflow (rev_of found) now_ms high))
          | inr fits ↦
              let low : rev < max_rev = ground arith in
              let done = append-eq_ok t topics (next_rev_ok (rev_of found) now_ms low) in
              inr (
                low,
                ap (λ r. r.1) done,
                rw done (
                    Tracks-insert topics history t _ _ h
                      (recorded-TopicTracks found (history t) (h.at_topic t))),
                rw done (record_event-IsRecorded t topics),
              )
        ]

    -- After an `append` whose rev stays in bounds, the topic's log has at most `log_size` events.
    pub length-append-le :
        (t : Text) (topics : MemoryEventStore P) (rev : ℕ)
        → next_rev (rev_of (lookup t topics)) now_ms ≡ ok rev
        → length (log_of (lookup t (append settings now_ms t name payload version topics).0))
          ≤ settings.log_size
    unfolding record_event
    length-append-le t topics rev h =
        rw (append-eq_ok t topics h, lookup-insert, beq_refl t) (length-trim-le settings.log_size _)
