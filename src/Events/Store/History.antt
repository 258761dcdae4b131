-- ===== src/Events/Store/History.antt =====
-- `MemoryEventStore` against a store that forgets nothing: for each topic, every event that was
-- appended since the topic was dropped.
use mathlib.Core.List.{reverse-reverse, append-nil, append_assoc}
use fastapi_viewsets.Prelude.{
  ℕ, ◌≡◌, refl, Text, lookup, insert, lookup-insert, lookup-erase, list_eq, nat_eq, ◌==◌, beq-eq,
  leb, nat_beq, if◌then◌else◌, List, [], ◌++◌, reverse, Option, none, some, Bool-cases, inl, inr,
  arith, subst, fun_ext, not, ◌&&◌, ◌∙◌, ap, sym,
}
use fastapi_viewsets.Events.Store.{
  LoggedEvent, Topic, MemoryEventStore, rev_of, is_empty, live_log, since, since_at, drop_topic,
  collect,
}
use fastapi_viewsets.Events.Store.Chain.{
  IsChain, IsChain-split, events_after, events_after_old, events_after-append, collect_sound,
}

module _ {P : Type 0} where
  abbrev pub log_of : Option (Topic P) → List (LoggedEvent P)
  log_of none = []
  log_of (some state) = state.log

  -- What is stored of a topic, against its history.
  pub record TopicTracks (found : Option (Topic P)) (history : List (LoggedEvent P)) : Type 0 where
    pub chained : IsChain 0 history (rev_of found)
    pub older : List (LoggedEvent P)
    pub suffix : history ≡ older ++ log_of found

  pub record Tracks (topics : MemoryEventStore P) (history : Text → List (LoggedEvent P))
      : Type 0 where
    pub at_topic : (t : Text) → TopicTracks (lookup t topics) (history t)

  -- A log that keeps less still tracks the history.
  pub TopicTracks-drop :
      (state : Topic P) (history gone log : List (LoggedEvent P)) (expires : ℕ)
      → TopicTracks (some state) history
      → state.log ≡ gone ++ log
      → TopicTracks (some (record state { log = log; log_expires_ms = expires })) history
  TopicTracks-drop state history gone log expires h e = record {
    chained = h.chained;
    older = h.older ++ gone;
    suffix = rw (h.suffix, e) (sym (append_assoc h.older gone log));
  }

  pub live_log_suffix :
      (state : Topic P) (now_ms : ℕ)
      → (gone : List (LoggedEvent P)) × (state.log ≡ gone ++ live_log state now_ms)
  unfolding live_log
  live_log_suffix state now_ms =
      elim (Bool-cases (not (is_empty state.log) && leb state.log_expires_ms now_ms)) [
        | inl expired ↦ (state.log, rw expired (sym (append-nil state.log)))
        | inr fresh ↦ ([], rw fresh refl)
      ]

  -- What the walk answers over a tracked log.
  collect-events_after :
      (state : Topic P) (history : List (LoggedEvent P)) (after : ℕ) {found : List (LoggedEvent P)}
      → TopicTracks (some state) history
      → collect after [] (reverse state.log) ≡ some found
      → found ≡ events_after after history
  collect-events_after state history after h e =
      let chained : IsChain 0 (h.older ++ state.log) state.rev = rw (← h.suffix) h.chained in
      let (m, left, right) = IsChain-split 0 h.older state.log state.rev chained in
      let same : reverse (reverse state.log) ++ [] ≡ state.log =
        rw append-nil (reverse-reverse state.log) in
      let (low, exact) = collect_sound after [] (reverse state.log) m state.rev (rw same right) e in
      rw h.suffix (
        rw (events_after-append after h.older state.log)
          (rw (events_after_old after 0 h.older m left low) (exact ∙ ap (events_after after) same)))

  pub live-TopicTracks :
      (state : Topic P) (history : List (LoggedEvent P)) (now_ms : ℕ)
      → TopicTracks (some state) history
      → TopicTracks (some (record state { log = live_log state now_ms })) history
  live-TopicTracks state history now_ms h =
      let (gone, same) = live_log_suffix state now_ms in
      TopicTracks-drop state history gone (live_log state now_ms) state.log_expires_ms h same

  since_at_sound :
      (found : Option (Topic P)) (history : List (LoggedEvent P)) (now_ms : ℕ) (t : Text)
      (after : ℕ) (topics : MemoryEventStore P) {events : List (LoggedEvent P)}
      → TopicTracks found history
      → (since_at found now_ms t after topics).1 ≡ some events
      → events ≡ events_after after history
  unfolding since_at
  since_at_sound none history now_ms t after topics h k =
      ground (arith, events_after_old after 0 history 0 h.chained)
  since_at_sound (some state) history now_ms t after topics h k =
      elim (Bool-cases (nat_beq after state.rev)) [
        | inl current ↦ ground (arith, events_after_old after 0 history state.rev h.chained)
        | inr behind ↦
            collect-events_after (record state { log = live_log state now_ms }) history after
              (live-TopicTracks state history now_ms h) (rw behind at k)
      ]

  -- Where the store tracks the histories of its topics, the events that `since` answers, if it answers
  -- any, are exactly the topic's history after the cursor, in order.
  pub since-eq-events_after :
      (topics : MemoryEventStore P) (history : Text → List (LoggedEvent P)) (now_ms : ℕ) (t : Text)
      (after : ℕ) {events : List (LoggedEvent P)}
      → Tracks topics history
      → (since now_ms t after topics).1 ≡ some events
      → events ≡ events_after after (history t)
  unfolding since
  since-eq-events_after topics history now_ms t after h k =
      since_at_sound (lookup t topics) (history t) now_ms t after topics (h.at_topic t) k

  pub Tracks-insert :
      (topics : MemoryEventStore P) (history : Text → List (LoggedEvent P)) (t : Text)
      (state : Topic P) (log : List (LoggedEvent P))
      → Tracks topics history
      → TopicTracks (some state) log
      → Tracks (insert t state topics) (λ j. if t == j then log else history j)
  Tracks-insert topics history t state log h new = record {
    at_topic = λ j. rw lookup-insert (elim (Bool-cases (t == j)) [
      | inl here ↦ rw here new
      | inr other ↦ rw other (h.at_topic j)
    ]);
  }

  update_same :
      (history : Text → List (LoggedEvent P)) (t j : Text)
      → (if t == j then history t else history j) ≡ history j
  update_same history t j = elim (Bool-cases (t == j)) [
    | inl here ↦ rw here (ap history (beq-eq t j here))
    | inr other ↦ rw other
  ]

  since_at-Tracks :
      (found : Option (Topic P)) (now_ms : ℕ) (t : Text) (after : ℕ) (topics : MemoryEventStore P)
      (history : Text → List (LoggedEvent P))
      → Tracks topics history
      → TopicTracks found (history t)
      → Tracks (since_at found now_ms t after topics).0 history
  unfolding since_at
  since_at-Tracks none now_ms t after topics history h new = elim (Bool-cases (nat_beq after 0)) [
    | inl e ↦ rw e h
    | inr e ↦ rw e h
  ]
  since_at-Tracks (some state) now_ms t after topics history h new =
      elim (Bool-cases (nat_beq after state.rev)) [
        | inl e ↦ rw e h
        | inr e ↦ rw e (
            subst (Tracks _) (fun_ext (update_same history t)) (
              Tracks-insert topics history t _ (history t) h
                (live-TopicTracks state (history t) now_ms new)))
      ]

  -- `since`, which empties an expired log, leaves a store that tracks the same histories as before.
  pub since-Tracks :
      (topics : MemoryEventStore P) (history : Text → List (LoggedEvent P)) (now_ms : ℕ) (t : Text)
      (after : ℕ)
      → Tracks topics history
      → Tracks (since now_ms t after topics).0 history
  unfolding since
  since-Tracks topics history now_ms t after h =
      since_at-Tracks (lookup t topics) now_ms t after topics history h (h.at_topic t)

  -- After `drop`, a store that tracked histories tracks them with the dropped topic's emptied.
  pub drop_topic-Tracks :
      (topics : MemoryEventStore P) (history : Text → List (LoggedEvent P)) (t : Text)
      → Tracks topics history
      → Tracks (drop_topic t topics) (λ j. if t == j then [] else history j)
  unfolding drop_topic
  drop_topic-Tracks topics history t h = record {
    at_topic = λ j. rw lookup-erase (elim (Bool-cases (t == j)) [
      | inl here ↦ rw here (record { chained = refl; older = []; suffix = refl })
      | inr other ↦ rw other (h.at_topic j)
    ]);
  }
