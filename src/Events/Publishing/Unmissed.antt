-- ===== src/Events/Publishing/Unmissed.antt =====
-- Published events and the log: what a socket that subscribed, or a poll, finds of what was published since.
use mathlib.Core.List.{append-nil, append_assoc}
use fastapi_viewsets.Prelude.{
  ℕ, Text, lookup, list_eq, nat_eq, ◌==◌, beq-eq, if◌then◌else◌, List, [], ◌∷◌, ◌++◌, some, ◌≡◌,
  refl, Bool-cases, inl, inr, arith, ◌∙◌, ap, subst, sym, fun_ext,
}
use fastapi_viewsets.Events.Topics.{Checked, ok, value_error, type_error, validate_published_topic}
use fastapi_viewsets.Events.Store
use fastapi_viewsets.Events.Store.{
  LoggedEvent, LogSettings, MemoryEventStore, append, rev_of, since,
}
use fastapi_viewsets.Events.Store.Chain.{
  IsChain, IsChain-split, events_after, events_after-append, events_after_old, events_after_new,
}
use fastapi_viewsets.Events.Store.History.{Tracks, since-eq-events_after}
use fastapi_viewsets.Events.Store.Appends.{append_outcome}
use fastapi_viewsets.Events.Publishing.{
  Event, Published, published, topic_value_error, topic_type_error, overflow_error, recorded,
  at_topic, publish, publish_all,
}

validated :
    (topic : Text) {valid : Text} → validate_published_topic topic ≡ ok valid → valid ≡ topic
unfolding validate_published_topic
validated topic h = ground arith

module _ {P : Type 0} where
  -- The event that a call recorded under its topic, as the log keeps it, where the topic is `t` and the
  -- call returned its rev and prev.
  abbrev pub sent_one : Text → Text → Event P → Published → List (LoggedEvent P)
  sent_one t topic event (published rev prev) =
      if topic == t
      then record {
        rev = rev;
        prev = prev;
        name = event.event_name;
        payload = event.payload;
        version = event.event_version;
      }
        ∷ []
      else []
  sent_one t topic event topic_value_error = []
  sent_one t topic event topic_type_error = []
  sent_one t topic event overflow_error = []

  -- The events that a sequence of calls recorded under the topic `t`.
  abbrev pub sent : Text → List (ℕ × Text × Event P) → List Published → List (LoggedEvent P)
  sent t [] outcomes = []
  sent t (call ∷ calls) [] = []
  sent t ((now_ms, topic, event) ∷ calls) (outcome ∷ outcomes) =
      sent_one t topic event outcome ++ sent t calls outcomes

  nothing_sent :
      (topics : MemoryEventStore P) (history : Text → List (LoggedEvent P))
      → Tracks topics history
      → Tracks topics (λ t. history t ++ [])
  nothing_sent topics history h =
      subst (Tracks topics) (fun_ext (λ t. sym (append-nil (history t)))) h

  joined :
      (history : Text → List (LoggedEvent P)) (topic t : Text) (e : LoggedEvent P)
      → (if topic == t then history topic ++ e ∷ [] else history t)
        ≡ history t ++ (if topic == t then e ∷ [] else [])
  joined history topic t e = elim (Bool-cases (topic == t)) [
    | inl here ↦ rw here (ap (λ j. history j ++ e ∷ []) (beq-eq topic t here))
    | inr other ↦ rw other (sym (append-nil (history t)))
  ]

  module _ (topic : Text) (event : Event P) (history : Text → List (LoggedEvent P)) where
    abbrev logged : ℕ → ℕ → LoggedEvent P
    logged rev prev = record {
      rev = rev;
      prev = prev;
      name = event.event_name;
      payload = event.payload;
      version = event.event_version;
    }

    recorded-Tracks :
        (done : MemoryEventStore P × Store.Result (ℕ × ℕ)) (rev prev : ℕ)
        → done.1 ≡ Store.ok (rev, prev)
        → Tracks done.0
            (λ j. if topic == j then history topic ++ logged rev prev ∷ [] else history j)
        → Tracks (recorded done).0 (λ t. history t ++ sent_one t topic event (recorded done).1)
    recorded-Tracks (topics, Store.ok (r, p)) rev prev e h =
        let same : published rev prev ≡ published r p = ground arith in
        subst (Tracks topics)
          (fun_ext (λ t.
            joined history topic t (logged rev prev)
            ∙ ap (λ o. history t ++ sent_one t topic event o) same))
          h
    recorded-Tracks (topics, Store.overflow_error) rev prev e h = absurd (ground arith)

    append-Tracks :
        (settings : LogSettings) (now_ms : ℕ) (topics : MemoryEventStore P)
        → Tracks topics history
        → (let done =
              append settings now_ms topic event.event_name event.payload event.event_version
                topics in
            Tracks (recorded done).0 (λ t. history t ++ sent_one t topic event (recorded done).1))
    append-Tracks settings now_ms topics h =
        elim (append_outcome settings now_ms event.event_name event.payload event.event_version
          topic topics history h) [
            | inl (over, same) ↦ rw same (nothing_sent topics history h)
            | inr (fits, answered, tracks, stored) ↦ recorded-Tracks _ _ _ answered tracks
          ]

    at_topic-Tracks :
        (checked : Checked Text) (settings : LogSettings) (now_ms : ℕ) (topics : MemoryEventStore P)
        → ((valid : Text) → checked ≡ ok valid → valid ≡ topic)
        → Tracks topics history
        → (let done =
              at_topic checked
                (λ valid. recorded (
                  append settings now_ms valid event.event_name event.payload event.event_version
                    topics))
                topics in
            Tracks done.0 (λ t. history t ++ sent_one t topic event done.1))
    at_topic-Tracks value_error settings now_ms topics same h = nothing_sent topics history h
    at_topic-Tracks type_error settings now_ms topics same h = nothing_sent topics history h
    at_topic-Tracks (ok valid) settings now_ms topics same h =
        subst
          (λ name.
            let done = recorded (
              append settings now_ms name event.event_name event.payload event.event_version
                topics) in
            Tracks done.0 (λ t. history t ++ sent_one t topic event done.1))
          (sym (same valid refl)) (append-Tracks settings now_ms topics h)

  publish-Tracks :
      (settings : LogSettings) (now_ms : ℕ) (topic : Text) (event : Event P)
      (topics : MemoryEventStore P) (history : Text → List (LoggedEvent P))
      → Tracks topics history
      → Tracks
          (publish settings now_ms topic event topics).0
          (λ t. history t ++ sent_one t topic event (publish settings now_ms topic event topics).1)
  unfolding publish
  publish-Tracks settings now_ms topic event topics history h =
      at_topic-Tracks topic event history (validate_published_topic topic) settings now_ms topics
        (λ valid e. validated topic e) h

  publish_all-Tracks :
      (settings : LogSettings) (calls : List (ℕ × Text × Event P)) (topics : MemoryEventStore P)
      (history : Text → List (LoggedEvent P))
      → Tracks topics history
      → Tracks
          (publish_all settings calls topics).0
          (λ t. history t ++ sent t calls (publish_all settings calls topics).1)
  unfolding publish_all
  publish_all-Tracks settings [] topics history h = nothing_sent topics history h
  publish_all-Tracks settings ((now_ms, topic, event) ∷ calls) topics history h =
      subst (Tracks (publish_all settings calls (publish settings now_ms topic event topics).0).0)
        (fun_ext (λ t.
          append_assoc (history t)
            (sent_one t topic event (publish settings now_ms topic event topics).1)
            (sent t calls
              (publish_all settings calls (publish settings now_ms topic event topics).0).1)))
        (publish_all-Tracks settings calls (publish settings now_ms topic event topics).0 _
          (publish-Tracks settings now_ms topic event topics history h))

  IsChain-end :
      (a : ℕ) (xs : List (LoggedEvent P)) (b c : ℕ) → IsChain a xs b → IsChain a xs c → b ≡ c
  IsChain-end a [] b c h k = sym h ∙ k
  IsChain-end a (e ∷ xs) b c h k = IsChain-end e.rev xs b c h.2 k.2

  events_after-since :
      (a : ℕ) (xs ys : List (LoggedEvent P)) (b c : ℕ)
      → IsChain a xs b
      → IsChain a (xs ++ ys) c
      → events_after b (xs ++ ys) ≡ ys
  events_after-since a xs ys b c h k =
      let (m, left, right) = IsChain-split a xs ys c k in
      let same : m ≡ b = IsChain-end a xs m b left h in
      events_after-append b xs ys
      ∙ rw (events_after_old b a xs b h (omega arith))
          (events_after_new b m ys c right (omega arith))

  -- Where the store tracks the histories of its topics: what `since` answers, if it answers, for the rev
  -- that a topic had before some calls of `publish`, is exactly what those calls recorded under the
  -- topic, in order.
  pub since-publish_all :
      (settings : LogSettings) (calls : List (ℕ × Text × Event P)) (topics : MemoryEventStore P)
      (history : Text → List (LoggedEvent P)) (now_ms : ℕ) (t : Text)
      {events : List (LoggedEvent P)}
      → Tracks topics history
      → (since now_ms t (rev_of (lookup t topics)) (publish_all settings calls topics).0).1
        ≡ some events
      → events ≡ sent t calls (publish_all settings calls topics).1
  since-publish_all settings calls topics history now_ms t h e =
      let after = publish_all-Tracks settings calls topics history h in
      since-eq-events_after (publish_all settings calls topics).0 _ now_ms t
        (rev_of (lookup t topics)) after e
      ∙ events_after-since 0 (history t) _ (rev_of (lookup t topics)) _ ((h.at_topic t).chained)
          ((after.at_topic t).chained)
