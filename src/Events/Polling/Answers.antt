-- ===== src/Events/Polling/Answers.antt =====
-- The answers of `poll` of fastapi_viewsets/events/viewset.py for the admitted topics, and the whole of it.
use fastapi_viewsets.Prelude.{
  ℕ, max, Text, Dict, lookup, insert, list_eq, nat_eq, option_eq, ◌==◌, length, ltb, nat_beq,
  if◌then◌else◌, List, [], ◌∷◌, Option, none, some, Bool, false, not, map,
}
use fastapi_viewsets.Events.Store.{LoggedEvent, MemoryEventStore, revs, since}
use fastapi_viewsets.Events.Delivery.{Registry}
use fastapi_viewsets.Events.Delivery.Push.{FilterResult, passes_filters}
use fastapi_viewsets.Events.Polling.{
  ResolvedTopic, PolledEvent, TopicAnswer, Polled, answered, cursors_exceeded, propagated, Caller,
  Admission, Admitted, going, stopped, admit,
}

-- `body.scopes is not None and body.scopes.get(topic) != key`
abbrev pub other_scope : Option (Dict Text Text) → Text → Option Text → Bool
other_scope none topic key = false
other_scope (some scopes) topic key = not (lookup topic scopes == key)

abbrev pub or_zero : Option ℕ → ℕ
or_zero none = 0
or_zero (some rev) = rev

-- `cursors[topic]`: every admitted topic has a cursor
abbrev pub cursor_of : Option (Option ℕ) → Option ℕ
cursor_of none = none
cursor_of (some cursor) = cursor

-- What a poll reads beside its request: the clock at the `since` of a topic, the filters' results at an
-- event of it, and what other tasks did to the store before that `since`.
pub record Around (P : Type 0) : Type 0 where
  pub now_ms : Text → ℕ
  pub filters : Text → LoggedEvent P → List FilterResult
  pub others : Text → MemoryEventStore P → MemoryEventStore P

abbrev pub answered_or : {P : Type 0} → Option (Dict Text (TopicAnswer P)) → Polled P
answered_or none = propagated
answered_or (some answers) = answered answers

module _ {P : Type 0} where
  -- the loop over the logged events, with `prev` as it stands
  unfoldable pub chain_events :
      (LoggedEvent P → List FilterResult) → ℕ → List (LoggedEvent P) → List (PolledEvent P)
  chain_events filters prev [] = []
  chain_events filters prev (e ∷ logged) =
      let kept = chain_events filters e.rev logged in
      let skipped = chain_events filters prev logged in
      if passes_filters (filters e)
      then record {
        rev = e.rev;
        prev = prev;
        event = e.name;
        version = e.version;
        payload = e.payload;
      }
        ∷ kept
      else skipped

  -- `max([rev, *(e.rev for e in logged)])`
  unfoldable pub covering : ℕ → List (LoggedEvent P) → ℕ
  covering rev [] = rev
  covering rev (e ∷ logged) = covering (max rev e.rev) logged

  abbrev pub answer_with : ℕ → Option (List (PolledEvent P)) → Option Text → TopicAnswer P
  answer_with rev events key = record {
    rev = some rev;
    events = events;
    error = none;
    status = none;
    scope = key;
  }

  -- the answer once `since` has answered
  unfoldable pub since_answer :
      (LoggedEvent P → List FilterResult)
      → ℕ
      → ℕ
      → Option Text
      → Option (List (LoggedEvent P))
      → TopicAnswer P
  unfolding chain_events covering
  since_answer filters rev cursor key none = answer_with rev none key
  since_answer filters rev cursor key (some logged) =
      answer_with (covering rev logged) (some (chain_events filters cursor logged)) key

  -- `await store.since(store_topic, cursor)` and the answer from it
  unfoldable pub logged_answer :
      Around P → ResolvedTopic → ℕ → ℕ → MemoryEventStore P → MemoryEventStore P × TopicAnswer P
  unfolding since_answer
  logged_answer around resolved rev cursor topics =
      let (topics', logged) =
        since (around.now_ms resolved.topic) resolved.store_topic cursor
          (around.others resolved.topic topics) in
      (topics', since_answer (around.filters resolved.topic) rev cursor resolved.scope logged)

  abbrev pub held_answer :
      Around P
      → Option (Dict Text Text)
      → ResolvedTopic
      → ℕ
      → Option ℕ
      → MemoryEventStore P
      → MemoryEventStore P × TopicAnswer P
  held_answer around scopes resolved rev none topics =
      (topics, answer_with rev (some []) resolved.scope)
  held_answer around scopes resolved rev (some cursor) topics =
      if other_scope scopes resolved.topic resolved.scope
      then (topics, answer_with rev none resolved.scope)
      else (if nat_beq cursor rev
          then (topics, answer_with rev (some []) resolved.scope)
          else logged_answer around resolved rev cursor topics)

  -- one turn of the second loop; `revs` is what `store.revs` answered
  unfoldable pub answer_one :
      Around P
      → Option (Dict Text Text)
      → Dict Text (Option ℕ)
      → Dict Text ℕ
      → ResolvedTopic
      → MemoryEventStore P
      → MemoryEventStore P × TopicAnswer P
  unfolding logged_answer
  answer_one around scopes cursors revs resolved topics =
      held_answer around scopes resolved (or_zero (lookup resolved.store_topic revs))
        (cursor_of (lookup resolved.topic cursors)) topics

  unfoldable pub answer_all :
      Around P
      → Option (Dict Text Text)
      → Dict Text (Option ℕ)
      → Dict Text ℕ
      → List ResolvedTopic
      → MemoryEventStore P × Dict Text (TopicAnswer P)
      → MemoryEventStore P × Dict Text (TopicAnswer P)
  unfolding answer_one
  answer_all around scopes cursors revs [] s = s
  answer_all around scopes cursors revs (resolved ∷ admitted) (topics, answers) =
      let (topics', answer) = answer_one around scopes cursors revs resolved topics in
      answer_all around scopes cursors revs admitted (topics', insert resolved.topic answer answers)

  abbrev pub placed :
      Text
      → Option (TopicAnswer P)
      → Option (Dict Text (TopicAnswer P))
      → Option (Dict Text (TopicAnswer P))
  placed topic none rest = none
  placed topic (some answer) none = none
  placed topic (some answer) (some rest) = some ((topic, answer) ∷ rest)

  -- `{topic: answers[topic] for topic in cursors}`; none where a key is missing
  unfoldable pub in_order :
      List Text → Dict Text (TopicAnswer P) → Option (Dict Text (TopicAnswer P))
  in_order [] answers = some []
  in_order (topic ∷ topics) answers = placed topic (lookup topic answers) (in_order topics answers)

  module _ {C : Type 0} where
    -- the part of `poll` after the first loop; a missing answer would be a `KeyError`
    unfoldable pub poll_admitted :
        Around P
        → Option (Dict Text Text)
        → Dict Text (Option ℕ)
        → MemoryEventStore P
        → Admission C P
        → MemoryEventStore P × Option (Dict Text (TopicAnswer P))
    unfolding answer_all in_order
    poll_admitted around scopes cursors topics s =
        let current = revs (map (λ resolved. resolved.store_topic) s.admitted) topics in
        let (topics', answers) =
          answer_all around scopes cursors current s.admitted (topics, s.answers) in
        (topics', in_order (map (λ c. c.0) cursors) answers)

    abbrev pub polled :
        Around P
        → Option (Dict Text Text)
        → Dict Text (Option ℕ)
        → MemoryEventStore P
        → Admitted C P
        → Registry C × MemoryEventStore P × Polled P
    polled around scopes cursors topics (stopped s) = (s.registry, topics, propagated)
    polled around scopes cursors topics (going s) =
        let (topics', answers) = poll_admitted around scopes cursors topics s in
        (s.registry, topics', answered_or answers)

    -- `poll`: `limit` is `settings.viewsets_event_max_subscriptions`
    unfoldable pub poll :
        ℕ
        → Caller
        → Around P
        → Dict Text (Option ℕ)
        → Option (Dict Text Text)
        → Registry C
        → MemoryEventStore P
        → Registry C × MemoryEventStore P × Polled P
    unfolding admit poll_admitted
    poll limit caller around cursors scopes registry topics =
        if ltb limit (length cursors)
        then (registry, topics, cursors_exceeded (length cursors) limit)
        else polled around scopes cursors topics (
            admit caller (map (λ c. c.0) cursors)
              (record { answers = []; admitted = []; registry = registry }))
