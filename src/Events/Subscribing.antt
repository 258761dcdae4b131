-- ===== src/Events/Subscribing.antt =====
-- `subscribe` and `unsubscribe` of fastapi_viewsets/events/viewset.py: the commands of a socket, over the
-- gate of a topic, the subscriptions of the process and the store. `C` is the type of contexts, `P` of
-- payloads.
pub mod Settled
pub mod Missed
pub mod Examples
use fastapi_viewsets.Prelude.{
  ℕ, Text, Dict, lookup, list_eq, nat_eq, if◌then◌else◌, List, [], ◌∷◌, Option, none, some, Bool,
}
use fastapi_viewsets.Events.Topics.{is_valid_topic}
use fastapi_viewsets.Events.Store.{MemoryEventStore, revs}
use fastapi_viewsets.Events.Delivery
use fastapi_viewsets.Events.Delivery.{
  Subscription, Registry, Result, ok, subscriptions_exceeded, has,
}
use fastapi_viewsets.Events.Delivery.Push.{http_error, is_refusal}
use fastapi_viewsets.Events.Authorizers.{Gated, topic_refused, scope_missing, raised}
use fastapi_viewsets.Events.Polling.{
  ResolvedTopic, GateError, event_topic_invalid, event_topic_refused, event_scope_missing,
  http_exception, Raised, Caller, admission, status_of,
}
use fastapi_viewsets.Events.Polling.Answers.{or_zero}

-- What `subscribe` comes to: its answer with the rev and the scope key, an error of the gate,
-- `EventSubscriptionsExceededError`, the `RuntimeError` of `_peer_of`, or another exception.
pub data Subscribed : Type 0 where
  subscribed : ℕ → Option Text → Subscribed
  gate_error : GateError → Subscribed
  exceeded : ℕ → Subscribed
  socket_missing other_exception : Subscribed

-- A call of `subscribe`: its request, its context, whether the socket is open, the clock and the setting
-- `viewsets_event_max_subscriptions` when the subscription is made, and what other tasks did to the
-- subscriptions while the gate ran.
pub record Call (C : Type 0) : Type 0 where
  pub caller : Caller
  pub context : C
  pub is_open : Bool
  pub now : ℕ
  pub limit : ℕ
  pub meanwhile : Registry C → Registry C

-- a refusal of the gate drops what the socket holds
unfoldable pub refused_by :
    {C : Type 0} → ℕ → Text → GateError → Registry C → Registry C × Subscribed
refused_by peer topic error r = (
  if is_refusal (http_error (status_of error)) then Delivery.unsubscribe peer topic r else r,
  gate_error error,
)

module _ {C P : Type 0} where
  -- `SubscribeAnswer(rev=revs.get(store_topic, 0), scope=...)`, where the subscription was made
  abbrev pub answer_of :
      ResolvedTopic
      → MemoryEventStore P
      → Registry C × Result (Subscription C)
      → Registry C × Subscribed
  answer_of resolved topics (r, subscriptions_exceeded limit) = (r, exceeded limit)
  answer_of resolved topics (r, ok s) = (
    r,
    subscribed (or_zero (lookup resolved.store_topic (revs (resolved.store_topic ∷ []) topics)))
        resolved.scope,
  )

  -- the part of `subscribe` after the gate
  abbrev pub gated_by :
      Call C
      → ℕ
      → Text
      → MemoryEventStore P
      → Gated Raised ResolvedTopic
      → Registry C
      → Registry C × Subscribed
  gated_by call peer topic topics (Gated.ok resolved) r = answer_of resolved topics (
      Delivery.subscribe call.limit call.is_open peer call.context topic (some resolved.store_topic)
        resolved.scope (has resolved.scope) call.now r)
  gated_by call peer topic topics topic_refused r = refused_by peer topic event_topic_refused r
  gated_by call peer topic topics scope_missing r = refused_by peer topic event_scope_missing r
  gated_by call peer topic topics (raised (http_error status)) r =
      refused_by peer topic (http_exception status) r
  gated_by call peer topic topics (raised other) r = (r, other_exception)

  -- `subscribe` of the socket `peer`
  unfoldable pub subscribe_peer :
      Call C → ℕ → Text → Registry C → MemoryEventStore P → Registry C × Subscribed
  unfolding admission refused_by
  subscribe_peer call peer topic r topics =
      if is_valid_topic topic
      then gated_by call peer topic topics (admission call.caller topic) (call.meanwhile r)
      else (r, gate_error event_topic_invalid)

  -- `subscribe`
  unfoldable pub subscribe :
      Call C → Text → Registry C → MemoryEventStore P → Registry C × Subscribed
  unfolding subscribe_peer
  subscribe call topic r topics = elim call.caller.peer [
    | none ↦ (r, socket_missing)
    | some peer ↦ subscribe_peer call peer topic r topics
  ]

-- `unsubscribe`: none is the `RuntimeError` of `_peer_of`
unfoldable pub unsubscribe : {C : Type 0} → Option ℕ → Text → Registry C → Option (Registry C)
unsubscribe none topic r = none
unsubscribe (some peer) topic r = some (Delivery.unsubscribe peer topic r)
