-- ===== src/Events/Delivery/Made.antt =====
-- What `subscribe` of fastapi_viewsets/events/delivery.py makes on an open socket.
use fastapi_viewsets.Prelude.{
  ℕ, ◌+◌, ◌≤◌, Text, list_eq, nat_eq, ◌==◌, beq_refl, length, leb, leb→le, if◌then◌else◌, Option,
  none, some, Bool, true, false, ◌&&◌, not, ◌≡◌, refl, inner, lookup_in-insert_in, Bool-cases, inl,
  inr, arith,
}
use fastapi_viewsets.Events.Delivery.{
  Subscription, Registry, Result, ok, subscriptions_exceeded, has, drop_previous,
  store_subscription, install_close, new_subscription, subscribe_new, subscribe,
}
use fastapi_viewsets.Events.Delivery.Calls.{by_peer-drop_from_topic}
use fastapi_viewsets.Events.Delivery.Drops.{held}

module _ {C : Type 0} where
  -- What a call makes for a socket and a topic: the new subscription, which the socket now holds, or the
  -- refusal at the limit, where it held none to the topic.
  abbrev pub IsMade :
      ℕ → ℕ → Text → Subscription C → Registry C → Registry C → Result (Subscription C) → Type 0
  IsMade limit peer topic new before after (ok s) = (s ≡ new) × (held after peer topic ≡ some new)
  IsMade limit peer topic new before after (subscriptions_exceeded n) =
      (n ≡ limit)
      × (limit ≤ length (inner peer before.by_peer))
      × (held before peer topic ≡ none)
      × (held after peer topic ≡ none)

  -- Subscriptions but that of the socket to the topic stay as they are.
  abbrev pub KeepsOthers : ℕ → Text → Registry C → Registry C → Type 0
  KeepsOthers peer topic before after =
      (k : ℕ) (t : Text) → ((peer == k) && (topic == t)) ≡ false → held after k t ≡ held before k t

  by_peer-drop_previous :
      (key : ℕ) (previous : Option (Subscription C)) (r : Registry C)
      → (drop_previous key previous r).by_peer ≡ r.by_peer
  by_peer-drop_previous key none r = refl
  by_peer-drop_previous key (some s) r = by_peer-drop_from_topic key s r

  held-stored :
      (previous : Option (Subscription C)) (s : Subscription C) (r : Registry C) (k : ℕ) (t : Text)
      → held
          (install_close s.peer (store_subscription s.peer s (drop_previous s.peer previous r)))
          k
          t
        ≡ (if (s.peer == k) && (s.topic == t) then some s else held r k t)
  unfolding install_close store_subscription
  held-stored previous s r k t =
      rw (by_peer-drop_previous s.peer previous r)
        (lookup_in-insert_in s.peer k s.topic t s r.by_peer)

  full_new :
      (previous : Option (Subscription C)) (n : ℕ) (limit : ℕ)
      → (not (has previous) && leb limit n) ≡ true
      → (previous ≡ none) × (limit ≤ n)
  full_new none n limit h = (refl, leb→le limit n h)
  full_new (some s) n limit h = absurd (ground arith)

  subscribe_new-IsMade :
      (previous : Option (Subscription C)) (limit : ℕ) (s : Subscription C) (r : Registry C)
      → held r s.peer s.topic ≡ previous
      → IsMade limit s.peer s.topic s r
          (subscribe_new previous limit true s r).0
          (subscribe_new previous limit true s r).1
        × KeepsOthers s.peer s.topic r (subscribe_new previous limit true s r).0
  unfolding subscribe_new
  subscribe_new-IsMade previous limit s r e =
      elim (Bool-cases (not (has previous) && leb limit (length (inner s.peer r.by_peer)))) [
        | inl full ↦
            let (new, over) = full_new previous (length (inner s.peer r.by_peer)) limit full in
            rw full ((refl, over, rw e new, rw e new), λ k t other. refl)
        | inr room ↦ rw room (
          (
            refl,
            rw (held-stored previous s r s.peer s.topic, beq_refl s.peer, beq_refl s.topic) refl,
          ),
          λ k t other. rw (held-stored previous s r k t, other) refl,
        )
      ]

  -- On an open socket, `subscribe` makes its subscription, in place of the one the socket held to the
  -- topic, or refuses a further one at the limit; every other subscription stays.
  pub subscribe-IsMade :
      (limit peer : ℕ) (context : C) (topic : Text) (store_topic scope : Option Text)
      (reauthorize : Bool) (now : ℕ) (r : Registry C)
      → IsMade limit peer topic
          (new_subscription peer context topic store_topic scope reauthorize now r)
          r
          (subscribe limit true peer context topic store_topic scope reauthorize now r).0
          (subscribe limit true peer context topic store_topic scope reauthorize now r).1
        × KeepsOthers peer topic r
            (subscribe limit true peer context topic store_topic scope reauthorize now r).0
  unfolding subscribe
  subscribe-IsMade limit peer context topic store_topic scope reauthorize now r =
      subscribe_new-IsMade (held r peer topic) limit
        (new_subscription peer context topic store_topic scope reauthorize now r)
        (record r { next_ident = r.next_ident + 1 }) refl
