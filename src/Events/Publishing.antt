-- ===== src/Events/Publishing.antt =====
-- `publish` of fastapi_viewsets/events/sources.py, and the methods of `Source` that call the store. The carriage of
-- an event to the processes is `_push` of Events/Delivery/Push; its failure is only logged.
pub mod Unmissed
use fastapi_viewsets.Prelude.{ℕ, Text, List, [], ◌∷◌, Option, some}
use fastapi_viewsets.Events.Topics.{Checked, ok, value_error, type_error, validate_published_topic}
use fastapi_viewsets.Events.Store
use fastapi_viewsets.Events.Store.{LogSettings, MemoryEventStore, append, drop_topic}
use fastapi_viewsets.Events.Sources.{Source, topic_of}

-- An `Event`: its class's name and version, and its payload as JSON.
pub record Event (P : Type 0) : Type 0 where
  pub event_name : Text
  pub event_version : ℕ
  pub payload : P

-- What `publish` comes to: the rev and prev of the event, `ValueError` or `TypeError` for the topic, or
-- the store's `OverflowError`.
pub data Published : Type 0 where
  published : ℕ → ℕ → Published
  topic_value_error topic_type_error overflow_error : Published

module _ {P : Type 0} where
  abbrev pub recorded : MemoryEventStore P × Store.Result (ℕ × ℕ) → MemoryEventStore P × Published
  recorded (topics, Store.ok (rev, prev)) = (topics, published rev prev)
  recorded (topics, Store.overflow_error) = (topics, overflow_error)

  -- a call at a checked topic; the topic's error leaves the store as it is
  abbrev pub at_topic :
      Checked Text
      → (Text → MemoryEventStore P × Published)
      → MemoryEventStore P
      → MemoryEventStore P × Published
  at_topic value_error go_on topics = (topics, topic_value_error)
  at_topic type_error go_on topics = (topics, topic_type_error)
  at_topic (ok topic) go_on topics = go_on topic

  -- `publish`
  unfoldable pub publish :
      LogSettings → ℕ → Text → Event P → MemoryEventStore P → MemoryEventStore P × Published
  publish settings now_ms topic event topics =
      at_topic (validate_published_topic topic)
        (λ valid.
          recorded (
            append settings now_ms valid event.event_name event.payload event.event_version topics))
        topics

  -- calls of `publish` one after another, each at its clock reading, with what they came to
  unfoldable pub publish_all :
      LogSettings
      → List (ℕ × Text × Event P)
      → MemoryEventStore P
      → MemoryEventStore P × List Published
  unfolding publish
  publish_all settings [] topics = (topics, [])
  publish_all settings ((now_ms, topic, event) ∷ calls) topics =
      let (topics', outcome) = publish settings now_ms topic event topics in
      let (topics'', outcomes) = publish_all settings calls topics' in
      (topics'', outcome ∷ outcomes)

  -- `Source.publish`
  unfoldable pub publish_from :
      {A : Type 0}
      → Source A
      → LogSettings
      → ℕ
      → Event P
      → Option Text
      → MemoryEventStore P
      → MemoryEventStore P × Published
  publish_from source settings now_ms event key topics =
      at_topic (topic_of source key) (λ topic. publish settings now_ms topic event topics) topics

  -- `Source.drop`: the topic's error leaves the store as it is
  abbrev pub dropped : Checked Text → MemoryEventStore P → MemoryEventStore P × Checked (Unit {0})
  dropped value_error topics = (topics, value_error)
  dropped type_error topics = (topics, type_error)
  dropped (ok topic) topics = (drop_topic topic topics, ok tt)

  unfoldable pub drop :
      {A : Type 0} → Source A → Text → MemoryEventStore P → MemoryEventStore P × Checked (Unit {0})
  drop source key topics = dropped (topic_of source (some key)) topics
