-- ===== src/Events/Delivery/Calls.antt =====
-- Every call keeps the two indexes in agreement; what `subscribe` and `unsubscribe` change.
use fastapi_viewsets.Prelude.{
  ℕ, ◌≡◌, refl, Text, list_eq, nat_eq, pair_eq, ◌==◌, beq-eq, length, leb, Option, none, some, Bool,
  true, false, not, ◌&&◌, inner, erase_in, lookup_in, lookup_in-insert_in, Bool-cases, inl, inr,
  arith, ◌∙◌, ap,
}
use fastapi_viewsets.Events.Delivery.{
  Subscription, Registry, Reauthorization, answered, refused, failed, store_topic_of, same_object,
  is_expected, has, drop_from_topic, remove_held, remove, drop_previous, store_subscription,
  install_close, subscribe_new, subscribe, unsubscribe, renew_held, reauthorized,
}
use fastapi_viewsets.Events.Delivery.Consistent.{
  IsConsistent, IsUnlisted, drop_from_topic-IsUnlisted, absent-IsUnlisted, erased-IsConsistent,
  stored-IsConsistent,
}

module _ {C : Type 0} where
  pub by_peer-drop_from_topic :
      (key : ℕ) (s : Subscription C) (r : Registry C)
      → (drop_from_topic key s r).by_peer ≡ r.by_peer
  unfolding drop_from_topic
  by_peer-drop_from_topic key s r = ground arith

  drop_after_erase :
      (key : ℕ) (topic : Text) (s : Subscription C) (r : Registry C)
      → drop_from_topic key s (record r { by_peer = erase_in key topic r.by_peer })
        ≡ record (drop_from_topic key s r) {
          by_peer = erase_in key topic (drop_from_topic key s r).by_peer;
        }
  unfolding drop_from_topic
  drop_after_erase key topic s r = ground arith

  remove_held-IsConsistent :
      (found : Option (Subscription C)) (key : ℕ) (topic : Text)
      (expected : Option (Subscription C)) (r : Registry C)
      → IsConsistent r
      → lookup_in key topic r.by_peer ≡ found
      → IsConsistent (remove_held found key topic expected r).0
  unfolding remove_held
  remove_held-IsConsistent none key topic expected r h e = h
  remove_held-IsConsistent (some s) key topic expected r h e =
      elim (Bool-cases (is_expected expected s)) [
        | inl meant ↦
            rw (meant, drop_after_erase)
              (erased-IsConsistent key topic (drop_from_topic key s r)
                (drop_from_topic-IsUnlisted key topic s r h e))
        | inr other ↦ rw other h
      ]

  pub remove-IsConsistent :
      (key : ℕ) (topic : Text) (expected : Option (Subscription C)) (r : Registry C)
      → IsConsistent r
      → IsConsistent (remove key topic expected r).0
  unfolding remove
  remove-IsConsistent key topic expected r h =
      remove_held-IsConsistent (lookup_in key topic r.by_peer) key topic expected r h refl

  next_ident-IsConsistent :
      (r : Registry C) (n : ℕ) → IsConsistent r → IsConsistent (record r { next_ident = n })
  next_ident-IsConsistent r n h = record { listed = h.listed; named = h.named; owned = h.owned }

  install_close-IsConsistent :
      (key : ℕ) (r : Registry C) → IsConsistent r → IsConsistent (install_close key r)
  unfolding install_close
  install_close-IsConsistent key r h = record {
    listed = h.listed;
    named = h.named;
    owned = h.owned;
  }

  drop_previous-IsUnlisted :
      (previous : Option (Subscription C)) (key : ℕ) (topic : Text) (r : Registry C)
      → IsConsistent r
      → lookup_in key topic r.by_peer ≡ previous
      → IsUnlisted key topic (drop_previous key previous r)
  drop_previous-IsUnlisted none key topic r h e = absent-IsUnlisted key topic r h e
  drop_previous-IsUnlisted (some s) key topic r h e = drop_from_topic-IsUnlisted key topic s r h e

  subscribe_new-IsConsistent :
      (previous : Option (Subscription C)) (limit : ℕ) (is_open : Bool) (s : Subscription C)
      (r : Registry C)
      → IsConsistent r
      → lookup_in s.peer s.topic r.by_peer ≡ previous
      → IsConsistent (subscribe_new previous limit is_open s r).0
  unfolding subscribe_new
  subscribe_new-IsConsistent previous limit false s r h e = h
  subscribe_new-IsConsistent previous limit true s r h e =
      elim (Bool-cases (not (has previous) && leb limit (length (inner s.peer r.by_peer)))) [
        | inl full ↦ rw full h
        | inr room ↦ rw room (
            install_close-IsConsistent s.peer _
              (stored-IsConsistent s _ (drop_previous-IsUnlisted previous s.peer s.topic r h e)))
      ]

  -- `subscribe` keeps the two indexes in agreement, whatever it answers.
  -- After `subscribe`, whether it stores, replaces, refuses or finds the socket closed, each store topic
  -- lists exactly the held subscriptions that it delivers to, if it did before.
  pub subscribe-IsConsistent :
      (limit : ℕ) (is_open : Bool) (peer : ℕ) (context : C) (topic : Text)
      (store_topic scope : Option Text) (reauthorize : Bool) (now : ℕ) (r : Registry C)
      → IsConsistent r
      → IsConsistent
          (subscribe limit is_open peer context topic store_topic scope reauthorize now r).0
  unfolding subscribe
  subscribe-IsConsistent limit is_open peer context topic store_topic scope reauthorize now r h =
      subscribe_new-IsConsistent _ limit is_open _ _ (next_ident-IsConsistent r _ h) refl

  pub unsubscribe-IsConsistent :
      (peer : ℕ) (topic : Text) (r : Registry C)
      → IsConsistent r
      → IsConsistent (unsubscribe peer topic r)
  unfolding unsubscribe
  unsubscribe-IsConsistent peer topic r h = remove-IsConsistent peer topic none r h

  -- Objects with the identity of `s` that the socket holds are `s`.
  abbrev pub IsIdentity : Subscription C → Registry C → Type 0
  IsIdentity s r =
      (held : Subscription C)
      → lookup_in s.peer s.topic r.by_peer ≡ some held
      → same_object held s ≡ true
      → held ≡ s

  abbrev renewed : Subscription C → ℕ → Registry C → Subscription C
  renewed s now r = record s { authorized_at = now; ident = r.next_ident }

  store_topic-renewed :
      (s : Subscription C) (now : ℕ) (r : Registry C)
      → store_topic_of (renewed s now r) ≡ store_topic_of s
  unfolding store_topic_of
  store_topic-renewed s now r = refl

  overwritten-IsConsistent :
      (s : Subscription C) (now n : ℕ) (r : Registry C)
      → IsConsistent r
      → lookup_in s.peer s.topic r.by_peer ≡ some s
      → IsConsistent (store_subscription s.peer (renewed s now r) (record r { next_ident = n }))
  unfolding store_subscription
  overwritten-IsConsistent s now n r h e =
      let s' = renewed s now r in
      record {
        listed = λ st k t. ground (
          arith,
          lookup_in-insert_in (store_topic_of s') st (s.peer, s.topic) (k, t) s' r.by_topic,
          lookup_in-insert_in s.peer k s.topic t s' r.by_peer,
          h.listed st k t,
          store_topic-renewed s now r,
          beq-eq s.peer k,
          beq-eq s.topic t,
        );
        named = λ k t x held. ground (
          arith,
          lookup_in-insert_in s.peer k s.topic t s' r.by_peer,
          beq-eq s.topic t,
          h.named k t x,
        );
        owned = λ k t x held. ground (
          arith,
          lookup_in-insert_in s.peer k s.topic t s' r.by_peer,
          beq-eq s.peer k,
          h.owned k t x,
        );
      }

  renew_held-IsConsistent :
      (found : Option (Subscription C)) (s : Subscription C) (now : ℕ) (r : Registry C)
      → IsConsistent r
      → IsIdentity s r
      → lookup_in s.peer s.topic r.by_peer ≡ found
      → IsConsistent (renew_held found s now r)
  unfolding renew_held
  renew_held-IsConsistent none s now r h same e = h
  renew_held-IsConsistent (some held) s now r h same e = elim (Bool-cases (same_object held s)) [
    | inl it ↦ rw it (overwritten-IsConsistent s now _ r h (e ∙ ap some (same held e it)))
    | inr other ↦ rw other h
  ]

  -- A reauthorization keeps the two indexes in agreement, whatever it answers.
  -- After a reauthorization, whatever it answered, each store topic lists exactly the held
  -- subscriptions that it delivers to, if it did before, where the object of the identity of `s` that
  -- the socket may hold is `s`.
  pub reauthorized-IsConsistent :
      (answer : Reauthorization) (s : Subscription C) (now : ℕ) (r : Registry C)
      → IsConsistent r
      → IsIdentity s r
      → IsConsistent (reauthorized answer s now r).0
  unfolding reauthorized
  reauthorized-IsConsistent refused s now r h same = remove-IsConsistent s.peer s.topic (some s) r h
  reauthorized-IsConsistent failed s now r h same = h
  reauthorized-IsConsistent (answered st) s now r h same =
      elim (Bool-cases (st == store_topic_of s)) [
        | inl kept ↦ rw kept (renew_held-IsConsistent _ s now r h same refl)
        | inr moved ↦ rw moved (remove-IsConsistent s.peer s.topic (some s) r h)
      ]
