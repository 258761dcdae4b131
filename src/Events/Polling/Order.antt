-- ===== src/Events/Polling/Order.antt =====
-- A poll answers every cursor, in the request's order: `poll` of fastapi_viewsets/events/viewset.py.
use fastapi_viewsets.Prelude.{
  ℕ, Text, Dict, lookup, insert, list_eq, nat_eq, length, ltb, List, [], ◌∷◌, Option, none, some,
  true, false, ◌||◌, map, ◌≡◌, refl, ap, ◌∙◌, arith, All, All-imp,
}
use fastapi_viewsets.Events.Topics.{is_some}
use fastapi_viewsets.Events.Store.{MemoryEventStore, revs}
use fastapi_viewsets.Events.Delivery.{Registry}
use fastapi_viewsets.Events.Polling.{
  ResolvedTopic, TopicAnswer, answered, Caller, Admission, Admitted, going, stopped, admit,
}
use fastapi_viewsets.Events.Polling.Answers.{
  Around, answered_or, answer_one, answer_all, placed, in_order, poll_admitted, polled, poll,
}
use fastapi_viewsets.Events.Polling.Covered.{
  admits, has, has-insert, IsNamed, covered, reached, goes_on, admit-covers,
}

module _ {P : Type 0} where
  abbrev answers_of : MemoryEventStore P × Dict Text (TopicAnswer P) → Dict Text (TopicAnswer P)
  answers_of s = s.1

  has-answer_all :
      (around : Around P) (scopes : Option (Dict Text Text)) (cursors : Dict Text (Option ℕ))
      (current : Dict Text ℕ) (u : Text) (admitted : List ResolvedTopic)
      (topics : MemoryEventStore P) (answers : Dict Text (TopicAnswer P))
      → has u (answers_of (answer_all around scopes cursors current admitted (topics, answers)))
        ≡ (has u answers || admits u admitted)
  unfolding answer_all admits
  has-answer_all around scopes cursors current u [] topics answers = ground arith
  has-answer_all around scopes cursors current u (resolved ∷ admitted) topics answers =
      let step = answer_one around scopes cursors current resolved topics in
      has-answer_all around scopes cursors current u admitted step.0
        (insert resolved.topic step.1 answers)
      ∙ ground (arith, has-insert u resolved.topic step.1 answers)

  -- The answers in order, all there.
  in_order-answers :
      (topics : List Text) (answers : Dict Text (TopicAnswer P))
      → All (λ u. has u answers ≡ true) topics
      → (result : Dict Text (TopicAnswer P)) × (in_order topics answers ≡ some result)
        × (map (λ a. a.0) result ≡ topics)
  unfolding in_order
  in_order-answers [] answers h = ([], refl, refl)
  in_order-answers (topic ∷ topics) answers h =
      at (lookup topic answers) refl h.0 (in_order-answers topics answers h.1)
    where
      at :
          (found : Option (TopicAnswer P))
          → lookup topic answers ≡ found
          → is_some found ≡ true
          → ((result : Dict Text (TopicAnswer P)) × (in_order topics answers ≡ some result)
              × (map (λ a. a.0) result ≡ topics))
          → (result : Dict Text (TopicAnswer P)) × (placed topic
                (lookup topic answers)
                (in_order topics answers)
              ≡ some result)
            × (map (λ a. a.0) result ≡ topic ∷ topics)
      at none e there rest = absurd (ground (arith, there))
      at (some answer) e there rest =
          ((topic, answer) ∷ rest.0, rw (e, rest.1) refl, ap (λ t. topic ∷ t) rest.2)

module _ {C P : Type 0} where
  polled-going :
      (around : Around P) (scopes : Option (Dict Text Text)) (cursors : Dict Text (Option ℕ))
      (topics : MemoryEventStore P) (a : Admitted C P)
      → goes_on a ≡ true
      → (polled around scopes cursors topics a).2
        ≡ answered_or (poll_admitted around scopes cursors topics (reached a)).1
  polled-going around scopes cursors topics (going s) h = refl
  polled-going around scopes cursors topics (stopped s) h = absurd (ground (arith, h))

  poll_admitted-answers :
      (around : Around P) (scopes : Option (Dict Text Text)) (cursors : Dict Text (Option ℕ))
      (topics : MemoryEventStore P) (s : Admission C P)
      → All (λ u. covered u s ≡ true) (map (λ c. c.0) cursors)
      → (answers : Dict Text (TopicAnswer P)) × ((poll_admitted around scopes cursors topics s).1
          ≡ some answers)
        × (map (λ a. a.0) answers ≡ map (λ c. c.0) cursors)
  unfolding poll_admitted
  poll_admitted-answers around scopes cursors topics s h =
      let current = revs (map (λ resolved. resolved.store_topic) s.admitted) topics in
      in_order-answers (map (λ c. c.0) cursors)
        (answers_of (answer_all around scopes cursors current s.admitted (topics, s.answers)))
        (All-imp (λ u. covered u s ≡ true)
          (λ u.
            has u
              (answers_of (answer_all around scopes cursors current s.admitted (topics, s.answers)))
            ≡ true)
          (map (λ c. c.0) cursors)
          (λ u there.
            has-answer_all around scopes cursors current u s.admitted topics s.answers ∙ there)
          h)

  -- A poll that no foreign exception leaves answers every cursor, in the request's order: no answer is
  -- missing, whatever the filters say and other tasks do to the store; where the cursors are within the
  -- limit and `resolve_topic` answers with the topic that it was asked for.
  pub poll-answers :
      (limit : ℕ) (caller : Caller) (around : Around P) (cursors : Dict Text (Option ℕ))
      (scopes : Option (Dict Text Text)) (registry : Registry C) (topics : MemoryEventStore P)
      → IsNamed caller
      → ltb limit (length cursors) ≡ false
      → goes_on {P = P} (
          admit caller
            (map (λ c. c.0) cursors)
            (record { answers = []; admitted = []; registry = registry }))
        ≡ true
      → (answers : Dict Text (TopicAnswer P)) × ((poll limit caller around cursors scopes registry
            topics).2
          ≡ answered answers)
        × (map (λ a. a.0) answers ≡ map (λ c. c.0) cursors)
  unfolding poll
  poll-answers limit caller around cursors scopes registry topics named within on =
      let start : Admission C P = record { answers = []; admitted = []; registry = registry } in
      let asked = map (λ c. c.0) cursors in
      let a = admit caller asked start in
      let end =
        poll_admitted-answers around scopes cursors topics (reached a)
          (admit-covers caller asked start named on) in
      (
        end.0,
        rw within (polled-going around scopes cursors topics a on) ∙ ap answered_or end.1,
        end.2,
      )
