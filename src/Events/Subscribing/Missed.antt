-- ===== src/Events/Subscribing/Missed.antt =====
-- Subscribing and then polling: the rev that `subscribe` answers is a cursor that misses no event.
use fastapi_viewsets.Prelude.{
  ℕ, Text, lookup, list_eq, nat_eq, List, Option, some, true, ◌≡◌, arith, ap, sym, ◌∙◌, subst,
}
use fastapi_viewsets.Events.Topics.{is_valid_topic}
use fastapi_viewsets.Events.Store.{LoggedEvent, LogSettings, MemoryEventStore, rev_of, since}
use fastapi_viewsets.Events.Store.History.{Tracks}
use fastapi_viewsets.Events.Delivery.{Subscription, Registry, Result, ok, subscriptions_exceeded}
use fastapi_viewsets.Events.Authorizers.{Gated}
use fastapi_viewsets.Events.Polling.{ResolvedTopic, admission}
use fastapi_viewsets.Events.Publishing.{Event, publish_all}
use fastapi_viewsets.Events.Publishing.Unmissed.{sent, since-publish_all}
use fastapi_viewsets.Events.Subscribing.{
  Subscribed, subscribed, Call, answer_of, gated_by, subscribe,
}
use fastapi_viewsets.Events.Subscribing.Settled.{revs_one, subscribe-gated_by}

module _ {C P : Type 0} where
  rev-answer_of :
      (resolved : ResolvedTopic) (topics : MemoryEventStore P)
      (made : Registry C × Result (Subscription C)) {rev : ℕ} {scope : Option Text}
      → (answer_of resolved topics made).1 ≡ subscribed rev scope
      → rev ≡ rev_of (lookup resolved.store_topic topics)
  rev-answer_of resolved topics (r, ok s) e = ground (arith, revs_one resolved.store_topic topics)
  rev-answer_of resolved topics (r, subscriptions_exceeded n) e = absurd (ground arith)

  -- Where the store tracks the histories of its topics: a socket's call of `subscribe` for a valid topic
  -- answers a rev such that, after any calls of `publish` to any topics, what `since` answers for that
  -- rev, if it answers, is exactly what those calls recorded under the store topic that the gate
  -- admitted the socket to, in order.
  pub subscribe-publish_all :
      (call : Call C) (peer : ℕ) (topic : Text) (r : Registry C) (topics : MemoryEventStore P)
      (history : Text → List (LoggedEvent P)) (resolved : ResolvedTopic) (settings : LogSettings)
      (calls : List (ℕ × Text × Event P)) (now_ms : ℕ) {rev : ℕ} {scope : Option Text}
      {events : List (LoggedEvent P)}
      → call.caller.peer ≡ some peer
      → is_valid_topic topic ≡ true
      → admission call.caller topic ≡ Gated.ok resolved
      → Tracks topics history
      → (subscribe call topic r topics).1 ≡ subscribed rev scope
      → (since now_ms resolved.store_topic rev (publish_all settings calls topics).0).1
        ≡ some events
      → events ≡ sent resolved.store_topic calls (publish_all settings calls topics).1
  subscribe-publish_all call peer topic r topics history resolved settings calls now_ms {events} on
        valid admitted h answered found =
      let gated =
        ap (λ (done : Registry C × Subscribed). done.1)
          (ap (λ a. gated_by call peer topic topics a (call.meanwhile r)) (sym admitted)
            ∙ sym (subscribe-gated_by call peer topic r topics on valid))
        ∙ answered in
      let current = rev-answer_of resolved topics _ gated in
      since-publish_all settings calls topics history now_ms resolved.store_topic h (
        subst
          (λ cursor.
            (since now_ms resolved.store_topic cursor (publish_all settings calls topics).0).1
            ≡ some events)
          current found)
