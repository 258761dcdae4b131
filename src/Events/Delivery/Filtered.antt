-- ===== src/Events/Delivery/Filtered.antt =====
-- `drop_subscriptions` removes exactly subscriptions that match, and leaves none that does.
use fastapi_viewsets.Prelude.{
  ℕ, ◌≡◌, refl, Text, Dict, list_eq, nat_eq, ◌==◌, beq-eq, beq_refl, lookup, [], ◌∷◌, Option, none,
  some, Bool, true, false, ◌&&◌, erase_in, lookup_in, lookup_in-erase_in, Bool-cases, inl, inr,
  arith, ◌⊎◌, ◌∙◌, sym, subst, lookup_in-nil, lookup_in_here, lookup_in_there,
}
use fastapi_viewsets.Events.Delivery.{
  Subscription, Registry, same_object, remove_held, remove, drop_one, drop_held, drop_peers,
  drop_subscriptions,
}
use fastapi_viewsets.Events.Delivery.Consistent.{IsConsistent}
use fastapi_viewsets.Events.Delivery.Calls.{by_peer-drop_from_topic, remove-IsConsistent}
use fastapi_viewsets.Events.Delivery.Drops.{held}

module _ {C : Type 0} where
  -- Each socket and topic holds what it held before, or nothing.
  pub record Shrinks (r r' : Registry C) : Type 0 where
    at : (k : ℕ) (t : Text) → (held r' k t ≡ none) ⊎ (held r' k t ≡ held r k t)

  Shrinks-trans : (a b c : Registry C) → Shrinks a b → Shrinks b c → Shrinks a c
  Shrinks-trans a b c f g = record {
    at = λ k t. elim (g.at k t) [
      | inl gone ↦ inl gone
      | inr kept ↦ elim (f.at k t) [ inl gone ↦ inl (kept ∙ gone) | inr same ↦ inr (kept ∙ same) ]
    ];
  }

  Shrinks-refl : (r : Registry C) → Shrinks r r
  Shrinks-refl r = record { at = λ k t. inr refl }

  -- Whether the socket holds nothing or `s`.
  abbrev Holds : Registry C → ℕ → Text → Subscription C → Type 0
  Holds r k t s = (held r k t ≡ none) ⊎ (held r k t ≡ some s)

  Holds-later :
      (r r' : Registry C) (k : ℕ) (t : Text) (s : Subscription C)
      → Shrinks r r'
      → Holds r k t s
      → Holds r' k t s
  Holds-later r r' k t s f h = elim (f.at k t) [
    | inl gone ↦ inl gone
    | inr same ↦ elim h [ inl gone ↦ inl (same ∙ gone) | inr there ↦ inr (same ∙ there) ]
  ]

  gone_later :
      (r r' : Registry C) (k : ℕ) (t : Text) → Shrinks r r' → held r k t ≡ none → held r' k t ≡ none
  gone_later r r' k t f h = elim (f.at k t) [ inl gone ↦ gone | inr same ↦ same ∙ h ]

  remove_held-Shrinks :
      (found : Option (Subscription C)) (key : ℕ) (topic : Text) (e : Subscription C)
      (r : Registry C)
      → Shrinks r (remove_held found key topic (some e) r).0
  unfolding remove_held
  remove_held-Shrinks none key topic e r = Shrinks-refl r
  remove_held-Shrinks (some s) key topic e r = elim (Bool-cases (same_object s e)) [
    | inl same ↦ rw same (record {
      at = λ k t.
          rw (by_peer-drop_from_topic, lookup_in-erase_in)
            (elim (Bool-cases ((key == k) && (topic == t))) [
              | inl here ↦ inl (rw here)
              | inr other ↦ inr (rw other)
            ]);
    })
    | inr other ↦ rw other (Shrinks-refl r)
  ]

  remove-Shrinks :
      (key : ℕ) (topic : Text) (e : Subscription C) (r : Registry C)
      → Shrinks r (remove key topic (some e) r).0
  unfolding remove
  remove-Shrinks key topic e r = remove_held-Shrinks _ key topic e r

  remove_held_gone :
      (found : Option (Subscription C)) (key : ℕ) (topic : Text) (s : Subscription C)
      (r : Registry C)
      → held r key topic ≡ found
      → Holds r key topic s
      → held (remove_held found key topic (some s) r).0 key topic ≡ none
  unfolding remove_held
  remove_held_gone none key topic s r h c = h
  remove_held_gone (some x) key topic s r h c = ground (
    arith,
    by_peer-drop_from_topic key x (record r { by_peer = erase_in key topic r.by_peer }),
    lookup_in-erase_in key key topic topic r.by_peer,
    beq_refl topic,
  )

  remove_gone :
      (key : ℕ) (topic : Text) (s : Subscription C) (r : Registry C)
      → Holds r key topic s
      → held (remove key topic (some s) r).0 key topic ≡ none
  unfolding remove
  remove_gone key topic s r h = remove_held_gone _ key topic s r refl h

  module _ (matches : Subscription C → Bool) where
    drop_one-Shrinks :
        (key : ℕ) (x : Text) (s : Subscription C) (acc : Registry C × ℕ)
        → Shrinks acc.0 (drop_one matches key x s acc).0
    unfolding drop_one
    drop_one-Shrinks key x s acc = elim (Bool-cases (matches s)) [
      | inl hit ↦ rw hit (remove-Shrinks key x s acc.0)
      | inr miss ↦ rw miss (Shrinks-refl acc.0)
    ]

    drop_held-Shrinks :
        (key : ℕ) (items : Dict Text (Subscription C)) (acc : Registry C × ℕ)
        → Shrinks acc.0 (drop_held matches key items acc).0
    unfolding drop_held
    drop_held-Shrinks key [] acc = Shrinks-refl acc.0
    drop_held-Shrinks key ((x, s) ∷ items) acc =
        let next = drop_one matches key x s acc in
        Shrinks-trans acc.0 next.0 (drop_held matches key items next).0
          (drop_one-Shrinks key x s acc) (drop_held-Shrinks key items next)

    drop_peers-Shrinks :
        (peers : Dict ℕ (Dict Text (Subscription C))) (acc : Registry C × ℕ)
        → Shrinks acc.0 (drop_peers matches peers acc).0
    unfolding drop_peers
    drop_peers-Shrinks [] acc = Shrinks-refl acc.0
    drop_peers-Shrinks ((key, items) ∷ peers) acc =
        let next = drop_held matches key items acc in
        Shrinks-trans acc.0 next.0 (drop_peers matches peers next).0
          (drop_held-Shrinks key items acc) (drop_peers-Shrinks peers next)

    drop_one_gone :
        (key : ℕ) (x : Text) (s : Subscription C) (t : Text) (acc : Registry C × ℕ)
        → x ≡ t
        → matches s ≡ true
        → Holds acc.0 key t s
        → held (drop_one matches key x s acc).0 key t ≡ none
    unfolding drop_one
    drop_one_gone key x s t acc e hit h = rw (hit, e) (remove_gone key t s acc.0 h)

    -- The loop over a socket's subscriptions removes one that matches.
    drop_held_gone :
        (key : ℕ) (items : Dict Text (Subscription C)) (t : Text) (s : Subscription C)
        (acc : Registry C × ℕ)
        → lookup t items ≡ some s
        → matches s ≡ true
        → Holds acc.0 key t s
        → held (drop_held matches key items acc).0 key t ≡ none
    unfolding drop_held lookup
    drop_held_gone key [] t s acc found hit h = ground arith
    drop_held_gone key ((x, y) ∷ items) t s acc found hit h = elim (Bool-cases (x == t)) [
      | inl here ↦
          let it : y ≡ s = ground arith in
          gone_later (drop_one matches key x y acc).0 _ key t (drop_held-Shrinks key items _) (
            drop_one_gone key x y t acc (beq-eq x t here) (rw it hit)
              (subst (Holds acc.0 key t) (sym it) h))
      | inr other ↦
          drop_held_gone key items t s _ (rw other at found) hit
            (Holds-later acc.0 _ key t s (drop_one-Shrinks key x y acc) h)
    ]

    drop_peers_gone :
        (peers : Dict ℕ (Dict Text (Subscription C))) (k : ℕ) (t : Text) (s : Subscription C)
        (acc : Registry C × ℕ)
        → lookup_in k t peers ≡ some s
        → matches s ≡ true
        → Holds acc.0 k t s
        → held (drop_peers matches peers acc).0 k t ≡ none
    unfolding drop_peers
    drop_peers_gone [] k t s acc found hit h = absurd (lookup_in-nil k t found)
    drop_peers_gone ((key, items) ∷ peers) k t s acc found hit h = elim (Bool-cases (key == k)) [
      | inl here ↦
          let at_k : key ≡ k = beq-eq key k here in
          gone_later (drop_held matches key items acc).0 _ k t (drop_peers-Shrinks peers _) (
            rw at_k (
              drop_held_gone k items t s acc (sym (lookup_in_here key k t items peers here) ∙ found)
                hit h))
      | inr other ↦
          drop_peers_gone peers k t s _ (sym (lookup_in_there key k t items peers other) ∙ found)
            hit (Holds-later acc.0 _ k t s (drop_held-Shrinks key items acc) h)
    ]

    -- What a socket still holds after `drop_subscriptions(where)` it held before, and `where` is
    -- false of it.
    pub held-drop_subscriptions :
        (r : Registry C) (k : ℕ) (t : Text) {s : Subscription C}
        → held (drop_subscriptions matches r).0 k t ≡ some s
        → (matches s ≡ false) × (held r k t ≡ some s)
    unfolding drop_subscriptions
    held-drop_subscriptions r k t {s} h =
        let before : held r k t ≡ some s = elim ((drop_peers-Shrinks r.by_peer (r, 0)).at k t) [
          | inl gone ↦ cc
          | inr same ↦ sym same ∙ h
        ] in
        elim (Bool-cases (matches s)) [
          | inl hit ↦ cc (drop_peers_gone r.by_peer k t s (r, 0) before hit (inr before))
          | inr miss ↦ (miss, before)
        ]

    drop_one-IsConsistent :
        (key : ℕ) (x : Text) (s : Subscription C) (acc : Registry C × ℕ)
        → IsConsistent acc.0
        → IsConsistent (drop_one matches key x s acc).0
    unfolding drop_one
    drop_one-IsConsistent key x s acc h = elim (Bool-cases (matches s)) [
      | inl hit ↦ rw hit (remove-IsConsistent key x (some s) acc.0 h)
      | inr miss ↦ rw miss h
    ]

    drop_held-IsConsistent :
        (key : ℕ) (items : Dict Text (Subscription C)) (acc : Registry C × ℕ)
        → IsConsistent acc.0
        → IsConsistent (drop_held matches key items acc).0
    unfolding drop_held
    drop_held-IsConsistent key [] acc h = h
    drop_held-IsConsistent key ((x, s) ∷ items) acc h =
        drop_held-IsConsistent key items _ (drop_one-IsConsistent key x s acc h)

    drop_peers-IsConsistent :
        (peers : Dict ℕ (Dict Text (Subscription C))) (acc : Registry C × ℕ)
        → IsConsistent acc.0
        → IsConsistent (drop_peers matches peers acc).0
    unfolding drop_peers
    drop_peers-IsConsistent [] acc h = h
    drop_peers-IsConsistent ((key, items) ∷ peers) acc h =
        drop_peers-IsConsistent peers _ (drop_held-IsConsistent key items acc h)

    -- After `drop_subscriptions`, each store topic lists exactly the held subscriptions that it delivers to,
    -- if it did before.
    pub drop_subscriptions-IsConsistent :
        (r : Registry C) → IsConsistent r → IsConsistent (drop_subscriptions matches r).0
    unfolding drop_subscriptions
    drop_subscriptions-IsConsistent r h = drop_peers-IsConsistent r.by_peer (r, 0) h
