-- ===== src/Events/Polling/Examples.antt =====
-- A poll of concrete topics.
use fastapi_viewsets.Prelude.{
  ℕ, ◌≤◌, Text, text, Dict, lookup, insert, list_eq, nat_eq, ◌==◌, if◌then◌else◌, List, [], ◌∷◌,
  Option, none, some, true, ◌≡◌, refl, map, All, arith,
}
use fastapi_viewsets.Events.Topics.{
  is_valid_topic, is_viewset_topic, every, is_key_char, is_space, split_custom_topic, split_colon,
  some_of, is_source_char,
}
use fastapi_viewsets.Events.Store.{LoggedEvent, MemoryEventStore, revs, since, collect, live_log}
use fastapi_viewsets.Events.Delivery.{Registry}
use fastapi_viewsets.Events.Delivery.Push.{FilterResult, is_false, passes_filters}
use fastapi_viewsets.Events.Authorizers.{
  Decision, refuses, abstains, ok, authorize_topic, Admits, authorize_topic-Admits,
  allow_authenticated,
}
use fastapi_viewsets.Events.Polling.{
  Raised, ResolvedTopic, PolledEvent, TopicAnswer, answered, Caller, admit, refused_at,
}
use fastapi_viewsets.Events.Polling.Answers.{Around, answer_with, since_answer, answer_all, poll}
use fastapi_viewsets.Events.Polling.Chained.{IsChain, passed, shown, content, since_answer-IsChain}
use fastapi_viewsets.Events.Polling.Covered.{IsNamed, goes_on}
use fastapi_viewsets.Events.Polling.Order.{poll-answers}

abbrev items : Text
items = text "/items"

abbrev secrets : Text
secrets = text "/secrets"

abbrev not_secrets : Text → Decision Raised
not_secrets topic = if topic == secrets then refuses else abstains

abbrev unscoped : Text → ResolvedTopic
unscoped topic = record { topic = topic; store_topic = topic; scope = none }

abbrev caller : Caller
caller = record {
  authorizers = not_secrets ∷ allow_authenticated (some true) ∷ [];
  resolve_topic = λ topic. ok (unscoped topic);
  peer = none;
}

abbrev event_at : ℕ → ℕ → LoggedEvent ℕ
event_at rev prev = record { rev = rev; prev = prev; name = text "e"; payload = rev; version = 1 }

abbrev store : MemoryEventStore ℕ
store =
    (
      items,
      record {
        rev = 12;
        log = event_at 10 0 ∷ event_at 11 10 ∷ event_at 12 11 ∷ [];
        log_expires_ms = 1000;
      },
    )
    ∷ []

abbrev eleven_hidden : LoggedEvent ℕ → List FilterResult
eleven_hidden e = if e.rev == 11 then is_false ∷ [] else []

abbrev around : Around ℕ
around = record {
  now_ms = λ topic. 500;
  filters = λ topic. eleven_hidden;
  others = λ topic topics. topics;
}

abbrev cursors : Dict Text (Option ℕ)
cursors = (secrets, none) ∷ (items, some 10) ∷ (text "bad topic", none) ∷ []

abbrev registry : Registry ℕ
registry = record { by_topic = []; by_peer = []; close_installed = []; next_ident = 0 }

caller-IsNamed : IsNamed caller
caller-IsNamed topic resolved e = ground arith

polled_items :
    (poll 10 caller around ((items, some 10) ∷ []) none registry store).2
    ≡ answered (
        (
          items,
          answer_with 12
              (some
                (record { rev = 12; prev = 10; event = text "e"; version = 1; payload = 12 } ∷ []))
              none,
        )
        ∷ [])
unfolding poll admit is_valid_topic authorize_topic allow_authenticated lookup insert revs since
    answer_all since_answer is_viewset_topic every is_key_char is_space collect live_log
    passes_filters
polled_items = refl

goes :
    goes_on {P = ℕ} (
      admit caller
        (map (λ c. c.0) cursors)
        (record { answers = []; admitted = []; registry = registry }))
    ≡ true
unfolding admit is_valid_topic authorize_topic allow_authenticated lookup insert refused_at
    is_viewset_topic every is_key_char is_space split_custom_topic split_colon some_of
    is_source_char
goes = refl

poll-answers_example :
    (answers : Dict Text (TopicAnswer ℕ)) × ((poll 10 caller around cursors none registry store).2
      ≡ answered answers)
    × (map (λ a. a.0) answers ≡ map (λ c. c.0) cursors)
poll-answers_example =
    poll-answers 10 caller around cursors none registry store caller-IsNamed refl goes

abbrev logged : List (LoggedEvent ℕ)
logged = event_at 11 10 ∷ event_at 12 11 ∷ []

since_answer-IsChain_example :
    (events : List (PolledEvent ℕ)) × (covered : ℕ) × (since_answer eleven_hidden 11 10 none
        (some logged)
      ≡ answer_with covered (some events) none)
    × IsChain 10 events
    × (map shown events ≡ map content (passed eleven_hidden logged))
    × (11 ≤ covered)
    × All (λ e. e.rev ≤ covered) logged
since_answer-IsChain_example = since_answer-IsChain eleven_hidden 11 10 none logged

admitted : authorize_topic caller.authorizers items ≡ ok tt
unfolding authorize_topic allow_authenticated
admitted = refl

authorize_topic-Admits_example : Admits items caller.authorizers
authorize_topic-Admits_example = authorize_topic-Admits caller.authorizers items admitted
