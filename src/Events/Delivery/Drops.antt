-- ===== src/Events/Delivery/Drops.antt =====
-- What the removals remove: `unsubscribe`, `drop_peer` and `drop_subscriptions`.
use fastapi_viewsets.Prelude.{
  ℕ, ◌≡◌, refl, Text, list_eq, nat_eq, pair_eq, ◌==◌, beq-eq, beq_refl, if◌then◌else◌, List, [],
  ◌∷◌, Option, none, some, ◌&&◌, inner, lookup_in, lookup_in-erase_in, arith, ◌∙◌, contains,
  lookup_absent,
}
use fastapi_viewsets.Events.Delivery.{
  Subscription, Registry, remove_held, remove, topics_of, remove_all, drop_peer,
}
use fastapi_viewsets.Events.Delivery.Consistent.{IsConsistent}
use fastapi_viewsets.Events.Delivery.Calls.{by_peer-drop_from_topic, remove-IsConsistent}

module _ {C : Type 0} where
  -- What the socket `k` holds under the client topic `t`.
  abbrev pub held : Registry C → ℕ → Text → Option (Subscription C)
  held r k t = lookup_in k t r.by_peer

  held-remove_held :
      (found : Option (Subscription C)) (key : ℕ) (topic : Text) (r : Registry C) (k : ℕ) (t : Text)
      → held r key topic ≡ found
      → held (remove_held found key topic none r).0 k t
        ≡ (if (key == k) && (topic == t) then none else held r k t)
  unfolding remove_held
  held-remove_held none key topic r k t e = ground (arith, beq-eq key k, beq-eq topic t)
  held-remove_held (some s) key topic r k t e =
      rw by_peer-drop_from_topic (lookup_in-erase_in key k topic t r.by_peer)

  -- `_remove` without `expected` removes the socket's subscription to the topic and no other.
  pub held-remove :
      (key : ℕ) (topic : Text) (r : Registry C) (k : ℕ) (t : Text)
      → held (remove key topic none r).0 k t
        ≡ (if (key == k) && (topic == t) then none else held r k t)
  unfolding remove
  held-remove key topic r k t = held-remove_held (held r key topic) key topic r k t refl

  held-remove_all :
      (key : ℕ) (topics : List Text) (r : Registry C) (k : ℕ) (t : Text)
      → held (remove_all key topics r) k t
        ≡ (if (key == k) && contains t topics then none else held r k t)
  unfolding remove_all
  held-remove_all key [] r k t = ground arith
  held-remove_all key (x ∷ topics) r k t =
      held-remove_all key topics (remove key x none r).0 k t
      ∙ ground (arith, held-remove key x r k t)

  -- A closed socket holds nothing, and every other socket holds what it held.
  pub held-drop_peer :
      (peer : ℕ) (r : Registry C) (k : ℕ) (t : Text)
      → held (drop_peer peer r) k t ≡ (if peer == k then none else held r k t)
  unfolding drop_peer topics_of lookup_in
  held-drop_peer peer r k t =
      held-remove_all peer (topics_of peer r) _ k t
      ∙ ground (arith, beq-eq peer k, lookup_absent t (inner peer r.by_peer))

  remove_all-IsConsistent :
      (key : ℕ) (topics : List Text) (r : Registry C)
      → IsConsistent r
      → IsConsistent (remove_all key topics r)
  unfolding remove_all
  remove_all-IsConsistent key [] r h = h
  remove_all-IsConsistent key (x ∷ topics) r h =
      remove_all-IsConsistent key topics _ (remove-IsConsistent key x none r h)

  pub drop_peer-IsConsistent :
      (peer : ℕ) (r : Registry C) → IsConsistent r → IsConsistent (drop_peer peer r)
  unfolding drop_peer
  drop_peer-IsConsistent peer r h =
      remove_all-IsConsistent peer (topics_of peer r) _
        (record { listed = h.listed; named = h.named; owned = h.owned })

  -- After a socket closed, no store topic lists a subscription of it, if the two indexes agreed before.
  pub unlisted-drop_peer :
      (peer : ℕ) (r : Registry C) (st t : Text)
      → IsConsistent r
      → lookup_in st (peer, t) (drop_peer peer r).by_topic ≡ none
  unlisted-drop_peer peer r st t h = ground (
    arith,
    (drop_peer-IsConsistent peer r h).listed st peer t,
    held-drop_peer peer r peer t,
    beq_refl peer,
  )
