-- ===== src/Events/Subscribing/Examples.antt =====
-- Sockets that subscribe to a scoped topic, and what they find in its log.
use fastapi_viewsets.Prelude.{
  ℕ, Text, text, lookup, insert, list_eq, nat_eq, pair_eq, List, [], ◌∷◌, some, true, ◌≡◌, refl,
  inner, lookup_in, insert_in, erase_in, erase, arith,
}
use fastapi_viewsets.Events.Topics.{
  is_valid_topic, is_viewset_topic, every, is_key_char, is_space, topics_program,
}
use fastapi_viewsets.Events.Store.{
  LoggedEvent, LogSettings, MemoryEventStore, append, since, revs, collect, live_log, next_rev,
  trim, record_event,
}
use fastapi_viewsets.Events.Store.History.{Tracks}
use fastapi_viewsets.Events.Delivery
use fastapi_viewsets.Events.Delivery.{Subscription, Registry}
use fastapi_viewsets.Events.Delivery.Consistent.{IsConsistent}
use fastapi_viewsets.Events.Delivery.Made.{KeepsOthers}
use fastapi_viewsets.Events.Delivery.Push.{is_refusal}
use fastapi_viewsets.Events.Authorizers.{Gated, Decision, abstains, admits, authorize_topic}
use fastapi_viewsets.Events.Polling.{Raised, ResolvedTopic, Caller, admission}
use fastapi_viewsets.Events.Publishing.{Event, publish, publish_all}
use fastapi_viewsets.Events.Publishing.Unmissed.{sent}
use fastapi_viewsets.Events.Subscribing.{subscribed, Call, subscribe, subscribe_peer}
use fastapi_viewsets.Events.Subscribing.Settled.{IsSettled, subscribe-IsSettled}
use fastapi_viewsets.Events.Subscribing.Missed.{subscribe-publish_all}

abbrev items : Text
items = text "/items"

abbrev tenant_items : Text
tenant_items = text "@t:1"

abbrev resolved : ResolvedTopic
resolved = record { topic = items; store_topic = tenant_items; scope = some (text "1") }

abbrev abstain : Text → Decision Raised
abstain topic = abstains

abbrev admit_all : Text → Decision Raised
admit_all topic = admits

abbrev caller : Caller
caller = record {
  authorizers = abstain ∷ admit_all ∷ [];
  resolve_topic = λ topic. Gated.ok resolved;
  peer = some 5;
}

abbrev call : Call ℕ
call = record {
  caller = caller;
  context = 0;
  is_open = true;
  now = 100;
  limit = 2;
  meanwhile = λ r. r;
}

-- The gate refuses for good: 403, by an authorizer's silence.
abbrev refused_call : Call ℕ
refused_call = record call { caller = record caller { authorizers = abstain ∷ [] } }

abbrev empty : Registry ℕ
empty = record { by_topic = []; by_peer = []; close_installed = []; next_ident = 0 }

abbrev store : MemoryEventStore ℕ
store = []

abbrev settings : LogSettings
settings = record { log_size = 10; log_ttl_ms = 1000 }

abbrev created : ℕ → Event ℕ
created n = record { event_name = text "created"; event_version = 1; payload = n }

abbrev calls : List (ℕ × Text × Event ℕ)
calls =
    (7, tenant_items, created 1)
    ∷ (8, text "no topic", created 2)
    ∷ (8, text "@t:2", created 3)
    ∷ (8, tenant_items, created 4)
    ∷ []

abbrev event_at : ℕ → ℕ → ℕ → LoggedEvent ℕ
event_at rev prev payload = record {
  rev = rev;
  prev = prev;
  name = text "created";
  payload = payload;
  version = 1;
}

empty-IsConsistent : IsConsistent empty
unfolding lookup_in inner lookup
empty-IsConsistent = record {
  listed = λ st k t. refl;
  named = λ k t s h. ground arith;
  owned = λ k t s h. ground arith;
}

items_valid : is_valid_topic items ≡ true
unfolding is_valid_topic is_viewset_topic every is_key_char is_space
items_valid = refl

items_admitted : admission caller items ≡ Gated.ok resolved
unfolding admission authorize_topic
items_admitted = refl

items_answered : (subscribe call items empty store).1 ≡ subscribed 0 (some (text "1"))
unfolding subscribe subscribe_peer admission authorize_topic is_valid_topic is_viewset_topic every
    is_key_char is_space Delivery.subscribe Delivery.subscribe_new lookup_in inner lookup revs
    insert
items_answered = refl

-- The refusal drops the subscription that the socket held.
refused_drops :
    (subscribe refused_call items (subscribe call items empty store).0 store).0.by_peer ≡ []
unfolding subscribe subscribe_peer admission authorize_topic is_valid_topic is_viewset_topic every
    is_key_char is_space Delivery.subscribe Delivery.subscribe_new lookup_in inner lookup revs
    insert is_refusal Delivery.unsubscribe Delivery.remove Delivery.remove_held
    Delivery.drop_from_topic Delivery.install_close Delivery.store_subscription
    Delivery.store_topic_of insert_in erase_in erase
refused_drops = refl

published_since :
    (since 9 tenant_items 0 (publish_all settings calls store).0).1
    ≡ some (event_at 7 0 1 ∷ event_at 8 7 4 ∷ [])
unfolding publish_all publish topics_program since append collect live_log next_rev trim lookup
    insert record_event
published_since = refl

Tracks-store : Tracks store (λ t. [])
unfolding lookup
Tracks-store = record { at_topic = λ t. record { chained = refl; older = []; suffix = refl } }

subscribe-IsSettled_example :
    IsSettled 2 5 items store empty
      (subscribe call items empty store).0
      (admission caller items)
      (subscribe call items empty store).1
    × KeepsOthers 5 items empty (subscribe call items empty store).0
    × IsConsistent (subscribe call items empty store).0
subscribe-IsSettled_example =
    subscribe-IsSettled call 5 items empty store refl refl items_valid empty-IsConsistent

subscribe-publish_all_example :
    event_at 7 0 1 ∷ event_at 8 7 4 ∷ []
    ≡ sent tenant_items calls (publish_all settings calls store).1
subscribe-publish_all_example =
    subscribe-publish_all call 5 items empty store (λ t. []) resolved settings calls 9 refl
      items_valid items_admitted Tracks-store items_answered published_since
