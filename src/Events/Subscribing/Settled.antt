-- ===== src/Events/Subscribing/Settled.antt =====
-- What a call of `subscribe` of fastapi_viewsets/events/viewset.py leaves: the subscription it made, or none.
use fastapi_viewsets.Prelude.{
  ℕ, ◌≤◌, Text, lookup, lookup-insert, list_eq, nat_eq, beq_refl, length, if◌then◌else◌, [], ◌∷◌,
  none, some, Bool, true, ◌≡◌, refl, inner, Bool-cases, inl, inr, arith, subst, sym,
}
use fastapi_viewsets.Events.Topics.{is_valid_topic}
use fastapi_viewsets.Events.Store.{MemoryEventStore, rev_of, revs, revs_into}
use fastapi_viewsets.Events.Delivery
use fastapi_viewsets.Events.Delivery.{
  Subscription, Registry, Result, ok, subscriptions_exceeded, has, new_subscription,
}
use fastapi_viewsets.Events.Delivery.Push.{http_error, other_error, returned, is_refusal}
use fastapi_viewsets.Events.Delivery.Consistent.{IsConsistent}
use fastapi_viewsets.Events.Delivery.Calls.{subscribe-IsConsistent, unsubscribe-IsConsistent}
use fastapi_viewsets.Events.Delivery.Drops.{held, held-remove}
use fastapi_viewsets.Events.Delivery.Made.{IsMade, KeepsOthers, subscribe-IsMade}
use fastapi_viewsets.Events.Authorizers.{Gated, topic_refused, scope_missing, raised}
use fastapi_viewsets.Events.Polling.{
  ResolvedTopic, GateError, event_topic_refused, event_scope_missing, http_exception, Raised,
  admission, status_of,
}
use fastapi_viewsets.Events.Polling.Answers.{or_zero}
use fastapi_viewsets.Events.Subscribing.{
  Subscribed, subscribed, gate_error, exceeded, socket_missing, other_exception, Call, refused_by,
  answer_of, gated_by, subscribe_peer, subscribe,
}

-- A status that refuses a topic for good: 4xx other than 429.
abbrev pub refuses : GateError → Bool
refuses error = is_refusal (http_error (status_of error))

pub revs_one :
    {P : Type 0} (store_topic : Text) (topics : MemoryEventStore P)
    → or_zero (lookup store_topic (revs (store_topic ∷ []) topics))
      ≡ rev_of (lookup store_topic topics)
unfolding revs revs_into
revs_one store_topic topics = rw (lookup-insert, beq_refl store_topic) refl

module _ {C : Type 0} where
  -- `s` is a subscription to the topic that delivers the events of `resolved`.
  pub record Delivers (topic : Text) (resolved : ResolvedTopic) (s : Subscription C) : Type 0 where
    pub named : s.topic ≡ topic
    pub stored : s.store_topic ≡ some resolved.store_topic
    pub scoped : s.scope ≡ resolved.scope

  module _ {P : Type 0} (limit peer : ℕ) (topic : Text) (topics : MemoryEventStore P)
      (before after : Registry C) where
    -- What each outcome of a call says, past the gate's answer: the socket holds a subscription that
    -- delivers the admitted topic, and the answer has the current rev; or it holds none after a
    -- refusal for good and what it held after another error.
    abbrev pub IsSettled : Gated Raised ResolvedTopic → Subscribed → Type 0
    IsSettled admitted (subscribed rev scope) =
        (resolved : ResolvedTopic) × (s : Subscription C) × (admitted ≡ Gated.ok resolved)
        × (rev ≡ rev_of (lookup resolved.store_topic topics))
        × (scope ≡ resolved.scope)
        × Delivers topic resolved s
        × (held after peer topic ≡ some s)
    IsSettled admitted (gate_error error) =
        held after peer topic ≡ (if refuses error then none else held before peer topic)
    IsSettled admitted (exceeded n) =
        (n ≡ limit)
        × (limit ≤ length (inner peer before.by_peer))
        × (held before peer topic ≡ none)
        × (held after peer topic ≡ none)
    IsSettled admitted socket_missing = ⊥
    IsSettled admitted other_exception = held after peer topic ≡ held before peer topic

  refused_by-IsConsistent :
      (peer : ℕ) (topic : Text) (error : GateError) (r : Registry C)
      → IsConsistent r
      → IsConsistent (refused_by peer topic error r).0
  unfolding refused_by
  refused_by-IsConsistent peer topic error r h = elim (Bool-cases (refuses error)) [
    | inl gone ↦ rw gone (unsubscribe-IsConsistent peer topic r h)
    | inr stays ↦ rw stays h
  ]

  module _ {P : Type 0} where
    refused_by-IsSettled :
        (limit peer : ℕ) (topic : Text) (topics : MemoryEventStore P) (error : GateError)
        (r : Registry C) (admitted : Gated Raised ResolvedTopic)
        → IsSettled limit peer topic topics r
            (refused_by peer topic error r).0
            admitted
            (refused_by peer topic error r).1
          × KeepsOthers peer topic r (refused_by peer topic error r).0
    unfolding refused_by Delivery.unsubscribe
    refused_by-IsSettled limit peer topic topics error r admitted =
        elim (Bool-cases (refuses error)) [
          | inl gone ↦ rw gone (
            rw (held-remove peer topic r peer topic, beq_refl peer, beq_refl topic) refl,
            λ k t other. rw (held-remove peer topic r k t, other) refl,
          )
          | inr stays ↦ rw stays (refl, λ k t other. refl)
        ]

    answer_of-IsSettled :
        (limit peer : ℕ) (topic : Text) (topics : MemoryEventStore P) (resolved : ResolvedTopic)
        (new : Subscription C) (r : Registry C) (made : Registry C × Result (Subscription C))
        → Delivers topic resolved new
        → IsMade limit peer topic new r made.0 made.1 × KeepsOthers peer topic r made.0
        → IsSettled limit peer topic topics r
            (answer_of resolved topics made).0
            (Gated.ok resolved)
            (answer_of resolved topics made).1
          × KeepsOthers peer topic r (answer_of resolved topics made).0
    answer_of-IsSettled limit peer topic topics resolved new r (r', ok s) d m =
        ((resolved, new, refl, revs_one resolved.store_topic topics, refl, d, m.0.1), m.1)
    answer_of-IsSettled limit peer topic topics resolved new r (r', subscriptions_exceeded n) d m =
        m

    gated_by-IsSettled :
        (call : Call C) (peer : ℕ) (topic : Text) (topics : MemoryEventStore P)
        (admitted : Gated Raised ResolvedTopic) (r : Registry C)
        → call.is_open ≡ true
        → IsSettled call.limit peer topic topics r
            (gated_by call peer topic topics admitted r).0
            admitted
            (gated_by call peer topic topics admitted r).1
          × KeepsOthers peer topic r (gated_by call peer topic topics admitted r).0
    gated_by-IsSettled call peer topic topics (Gated.ok resolved) r open_ =
        let subscribed_to = λ (is_open : Bool).
          Delivery.subscribe call.limit is_open peer call.context topic (some resolved.store_topic)
            resolved.scope (has resolved.scope) call.now r in
        let new =
          new_subscription peer call.context topic (some resolved.store_topic) resolved.scope
            (has resolved.scope) call.now r in
        answer_of-IsSettled call.limit peer topic topics resolved new r (subscribed_to call.is_open)
          (record { named = refl; stored = refl; scoped = refl })
          (subst
            (λ is_open.
              IsMade call.limit peer topic new r (subscribed_to is_open).0 (subscribed_to is_open).1
              × KeepsOthers peer topic r (subscribed_to is_open).0)
            (sym open_)
            (subscribe-IsMade call.limit peer call.context topic (some resolved.store_topic)
              resolved.scope (has resolved.scope) call.now r))
    gated_by-IsSettled call peer topic topics topic_refused r open_ =
        refused_by-IsSettled call.limit peer topic topics event_topic_refused r _
    gated_by-IsSettled call peer topic topics scope_missing r open_ =
        refused_by-IsSettled call.limit peer topic topics event_scope_missing r _
    gated_by-IsSettled call peer topic topics (raised (http_error status)) r open_ =
        refused_by-IsSettled call.limit peer topic topics (http_exception status) r _
    gated_by-IsSettled call peer topic topics (raised (returned _)) r open_ =
        (refl, λ k t other. refl)
    gated_by-IsSettled call peer topic topics (raised other_error) r open_ =
        (refl, λ k t other. refl)

    answer_of-IsConsistent :
        (resolved : ResolvedTopic) (topics : MemoryEventStore P)
        (made : Registry C × Result (Subscription C))
        → IsConsistent made.0
        → IsConsistent (answer_of resolved topics made).0
    answer_of-IsConsistent resolved topics (r, ok s) h = h
    answer_of-IsConsistent resolved topics (r, subscriptions_exceeded n) h = h

    gated_by-IsConsistent :
        (call : Call C) (peer : ℕ) (topic : Text) (topics : MemoryEventStore P)
        (admitted : Gated Raised ResolvedTopic) (r : Registry C)
        → IsConsistent r
        → IsConsistent (gated_by call peer topic topics admitted r).0
    gated_by-IsConsistent call peer topic topics (Gated.ok resolved) r h =
        answer_of-IsConsistent resolved topics _ (
          subscribe-IsConsistent call.limit call.is_open peer call.context topic
            (some resolved.store_topic) resolved.scope (has resolved.scope) call.now r h)
    gated_by-IsConsistent call peer topic topics topic_refused r h =
        refused_by-IsConsistent peer topic event_topic_refused r h
    gated_by-IsConsistent call peer topic topics scope_missing r h =
        refused_by-IsConsistent peer topic event_scope_missing r h
    gated_by-IsConsistent call peer topic topics (raised (http_error status)) r h =
        refused_by-IsConsistent peer topic (http_exception status) r h
    gated_by-IsConsistent call peer topic topics (raised (returned _)) r h = h
    gated_by-IsConsistent call peer topic topics (raised other_error) r h = h

    pub subscribe-gated_by :
        (call : Call C) (peer : ℕ) (topic : Text) (r : Registry C) (topics : MemoryEventStore P)
        → call.caller.peer ≡ some peer
        → is_valid_topic topic ≡ true
        → subscribe call topic r topics
          ≡ gated_by call peer topic topics (admission call.caller topic) (call.meanwhile r)
    unfolding subscribe subscribe_peer
    subscribe-gated_by call peer topic r topics on valid = ground arith

    -- A call of an open socket for a valid topic, whatever the gate answers and other tasks do meanwhile:
    -- where it answers, the gate admitted the topic, the answer has the store topic's current rev and the
    -- scope key, and the socket holds a subscription that delivers that store topic; after a refusal for
    -- good it holds none, at the limit it held none before and holds none, and after any other error it
    -- holds what it did. Every other subscription stays, and the two indexes stay in agreement.
    pub subscribe-IsSettled :
        (call : Call C) (peer : ℕ) (topic : Text) (r : Registry C) (topics : MemoryEventStore P)
        → call.caller.peer ≡ some peer
        → call.is_open ≡ true
        → is_valid_topic topic ≡ true
        → IsConsistent (call.meanwhile r)
        → IsSettled call.limit peer topic topics
            (call.meanwhile r)
            (subscribe call topic r topics).0
            (admission call.caller topic)
            (subscribe call topic r topics).1
          × KeepsOthers peer topic (call.meanwhile r) (subscribe call topic r topics).0
          × IsConsistent (subscribe call topic r topics).0
    subscribe-IsSettled call peer topic r topics on open_ valid h =
        let admitted = admission call.caller topic in
        let settled = gated_by-IsSettled call peer topic topics admitted (call.meanwhile r) open_ in
        subst
          (λ made.
            IsSettled call.limit peer topic topics (call.meanwhile r) made.0 admitted made.1
            × KeepsOthers peer topic (call.meanwhile r) made.0
            × IsConsistent made.0)
          (sym (subscribe-gated_by call peer topic r topics on valid))
          (
            settled.0,
            settled.1,
            gated_by-IsConsistent call peer topic topics admitted (call.meanwhile r) h,
          )
