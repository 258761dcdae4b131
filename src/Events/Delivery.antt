-- ===== src/Events/Delivery.antt =====
-- fastapi_viewsets/events/delivery.py: the subscriptions of a process, kept twice (`_by_topic` and
-- `_by_peer`). A peer stands for itself by its `id()`; `ident` is the identity of a `Subscription`
-- object, which Python's `is` compares. `C` is the type of contexts, `P` of payloads.
pub mod Consistent
pub mod Calls
pub mod Drops
pub mod Made
pub mod Filtered
pub mod Push
pub mod Examples
use fastapi_viewsets.Prelude.{
  ℕ, ◌+◌, Text, Dict, lookup, insert, list_eq, nat_eq, pair_eq, ◌==◌, length, leb, nat_beq,
  if◌then◌else◌, List, [], ◌∷◌, ◌++◌, Option, none, some, Bool, true, false, ◌&&◌, ◌||◌, not, map,
  inner, insert_in, erase_in, lookup_in, erase,
}

pub record Subscription (C : Type 0) : Type 0 where
  pub ident : ℕ
  pub peer : ℕ
  pub context : C
  pub topic : Text
  pub store_topic : Option Text
  pub scope : Option Text
  pub authorized_at : ℕ
  -- whether a `reauthorize` callable is held
  pub reauthorize : Bool

pub record Registry (C : Type 0) : Type 0 where
  pub by_topic : Dict Text (Dict (ℕ × Text) (Subscription C))
  pub by_peer : Dict ℕ (Dict Text (Subscription C))
  pub close_installed : Dict ℕ (Unit {0})
  -- the identity of the next object
  pub next_ident : ℕ

pub data Result {ℓ} (A : Type ℓ) : Type ℓ where
  ok : A → Result A
  -- `EventSubscriptionsExceededError`
  subscriptions_exceeded : ℕ → Result A

-- What `await subscription.reauthorize()` came to: a store topic, a refusal (`_is_refusal`), or
-- another exception.
pub data Reauthorization : Type 0 where
  answered : Text → Reauthorization
  refused failed : Reauthorization

abbrev pub has {ℓ} : {A : Type ℓ} → Option A → Bool
has none = false
has (some _) = true

module _ {C : Type 0} where
  -- `_store_topic_of`
  unfoldable pub store_topic_of : Subscription C → Text
  store_topic_of s = elim s.store_topic [ none ↦ s.topic | some t ↦ t ]

  -- `a is b`
  abbrev pub same_object : Subscription C → Subscription C → Bool
  same_object a b = nat_beq a.ident b.ident

  abbrev is_object : Option (Subscription C) → Subscription C → Bool
  is_object none s = false
  is_object (some held) s = same_object held s

  -- `_drop_from_topic`
  unfoldable pub drop_from_topic : ℕ → Subscription C → Registry C → Registry C
  drop_from_topic key s r =
      if is_object (lookup_in (store_topic_of s) (key, s.topic) r.by_topic) s
      then record r { by_topic = erase_in (store_topic_of s) (key, s.topic) r.by_topic }
      else r

  -- `expected is not None and subscription is not expected`, negated
  abbrev is_expected : Option (Subscription C) → Subscription C → Bool
  is_expected none s = true
  is_expected (some e) s = same_object s e

  -- `_remove` once the subscription that the socket holds is read
  unfoldable pub remove_held :
      Option (Subscription C)
      → ℕ
      → Text
      → Option (Subscription C)
      → Registry C
      → Registry C × Option (Subscription C)
  remove_held none key topic expected r = (r, none)
  remove_held (some s) key topic expected r =
      if is_expected expected s
      then (drop_from_topic key s (record r { by_peer = erase_in key topic r.by_peer }), some s)
      else (r, none)

  -- `_remove`
  unfoldable pub remove :
      ℕ → Text → Option (Subscription C) → Registry C → Registry C × Option (Subscription C)
  remove key topic expected r = remove_held (lookup_in key topic r.by_peer) key topic expected r

  abbrev drop_previous : ℕ → Option (Subscription C) → Registry C → Registry C
  drop_previous key none r = r
  drop_previous key (some previous) r = drop_from_topic key previous r

  -- the two writes at the end of `subscribe`, also made by `_reauthorize`
  unfoldable pub store_subscription : ℕ → Subscription C → Registry C → Registry C
  store_subscription key s r = record r {
    by_peer = insert_in key s.topic s r.by_peer;
    by_topic = insert_in (store_topic_of s) (key, s.topic) s r.by_topic;
  }

  unfoldable pub install_close : ℕ → Registry C → Registry C
  install_close key r = record r { close_installed = insert key tt r.close_installed }

  -- `subscribe` for the new object `s`, once `held.get(topic)` is read
  unfoldable pub subscribe_new :
      Option (Subscription C)
      → ℕ
      → Bool
      → Subscription C
      → Registry C
      → Registry C × Result (Subscription C)
  subscribe_new previous limit is_open s r =
      if not is_open
      then (r, ok s)
      else if not (has previous) && leb limit (length (inner s.peer r.by_peer))
      then (r, subscriptions_exceeded limit)
      else (
        install_close s.peer (store_subscription s.peer s (drop_previous s.peer previous r)),
        ok s,
      )

  abbrev pub new_subscription :
      ℕ → C → Text → Option Text → Option Text → Bool → ℕ → Registry C → Subscription C
  new_subscription peer context topic store_topic scope reauthorize now r = record {
    ident = r.next_ident;
    peer = peer;
    context = context;
    topic = topic;
    store_topic = store_topic;
    scope = scope;
    authorized_at = now;
    reauthorize = reauthorize;
  }

  -- `subscribe`: `limit` is `settings.viewsets_event_max_subscriptions`
  unfoldable pub subscribe :
      ℕ
      → Bool
      → ℕ
      → C
      → Text
      → Option Text
      → Option Text
      → Bool
      → ℕ
      → Registry C
      → Registry C × Result (Subscription C)
  subscribe limit is_open peer context topic store_topic scope reauthorize now r =
      subscribe_new (lookup_in peer topic r.by_peer) limit is_open
        (new_subscription peer context topic store_topic scope reauthorize now r)
        (record r { next_ident = r.next_ident + 1 })

  -- `unsubscribe`
  unfoldable pub unsubscribe : ℕ → Text → Registry C → Registry C
  unsubscribe peer topic r = (remove peer topic none r).0

  -- `topics_of`
  unfoldable pub topics_of : ℕ → Registry C → List Text
  topics_of peer r = map (λ e. e.0) (inner peer r.by_peer)

  -- `subscriptions`
  unfoldable pub subscriptions : Text → Registry C → List (Subscription C)
  subscriptions topic r = map (λ e. e.1) (inner topic r.by_topic)

  -- `for topic in ...: _remove(key, topic)`
  unfoldable pub remove_all : ℕ → List Text → Registry C → Registry C
  remove_all key [] r = r
  remove_all key (topic ∷ topics) r = remove_all key topics (remove key topic none r).0

  -- `drop_peer`
  unfoldable pub drop_peer : ℕ → Registry C → Registry C
  drop_peer peer r =
      remove_all peer (topics_of peer r)
        (record r { close_installed = erase peer r.close_installed })

  -- one round of the inner loop of `drop_subscriptions`
  unfoldable pub drop_one :
      (Subscription C → Bool) → ℕ → Text → Subscription C → Registry C × ℕ → Registry C × ℕ
  drop_one matches key topic s acc =
      if matches s
      then (
        (remove key topic (some s) acc.0).0,
        (if has (remove key topic (some s) acc.0).1 then acc.1 + 1 else acc.1),
      )
      else acc

  -- the inner loop
  unfoldable pub drop_held :
      (Subscription C → Bool) → ℕ → Dict Text (Subscription C) → Registry C × ℕ → Registry C × ℕ
  drop_held matches key [] acc = acc
  drop_held matches key ((topic, s) ∷ held) acc =
      drop_held matches key held (drop_one matches key topic s acc)

  -- the outer loop of `drop_subscriptions`, over the items as they were at its start
  unfoldable pub drop_peers :
      (Subscription C → Bool)
      → Dict ℕ (Dict Text (Subscription C))
      → Registry C × ℕ
      → Registry C × ℕ
  drop_peers matches [] acc = acc
  drop_peers matches ((key, held) ∷ peers) acc =
      drop_peers matches peers (drop_held matches key held acc)

  -- `drop_subscriptions`
  unfoldable pub drop_subscriptions : (Subscription C → Bool) → Registry C → Registry C × ℕ
  drop_subscriptions matches r = drop_peers matches r.by_peer (r, 0)

  -- `dataclasses.replace(subscription, authorized_at=now)`, stored if the socket still holds `s`
  unfoldable pub renew_held : Option (Subscription C) → Subscription C → ℕ → Registry C → Registry C
  renew_held none s now r = r
  renew_held (some held) s now r =
      if same_object held s
      then store_subscription s.peer (record s { authorized_at = now; ident = r.next_ident })
          (record r { next_ident = r.next_ident + 1 })
      else r

  -- `_reauthorize` after the await
  unfoldable pub reauthorized :
      Reauthorization → Subscription C → ℕ → Registry C → Registry C × Bool
  reauthorized refused s now r = ((remove s.peer s.topic (some s) r).0, false)
  reauthorized failed s now r = (r, false)
  reauthorized (answered store_topic) s now r =
      if store_topic == store_topic_of s
      then (renew_held (lookup_in s.peer s.topic r.by_peer) s now r, true)
      else ((remove s.peer s.topic (some s) r).0, false)
