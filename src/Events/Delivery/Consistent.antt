-- ===== src/Events/Delivery/Consistent.antt =====
-- The two indexes of the subscriptions agree, whatever is called.
use fastapi_viewsets.Prelude.{
  ℕ, ◌≡◌, Text, list_eq, nat_eq, pair_eq, ◌==◌, beq-eq, beq_refl, if◌then◌else◌, Option, none, some,
  true, erase_in, lookup_in, lookup_in-insert_in, lookup_in-erase_in, ◌&&◌, arith,
}
use fastapi_viewsets.Events.Delivery.{
  Subscription, Registry, store_topic_of, is_object, drop_from_topic, store_subscription,
}

module _ {C : Type 0} where
  -- What `_by_topic` holds under `st` for a socket's subscription.
  abbrev pub listing : Text → Option (Subscription C) → Option (Subscription C)
  listing st none = none
  listing st (some s) = if store_topic_of s == st then some s else none

  pub record IsConsistent (r : Registry C) : Type 0 where
    -- a store topic lists exactly the subscriptions whose events it delivers
    pub listed :
        (st : Text) (k : ℕ) (t : Text)
        → lookup_in st (k, t) r.by_topic ≡ listing st (lookup_in k t r.by_peer)
    -- a subscription is held under its own socket and client topic
    pub named :
        (k : ℕ) (t : Text) (s : Subscription C) → lookup_in k t r.by_peer ≡ some s → s.topic ≡ t
    pub owned :
        (k : ℕ) (t : Text) (s : Subscription C) → lookup_in k t r.by_peer ≡ some s → s.peer ≡ k

  -- `r` where no store topic lists the subscription of `key` to `topic`.
  pub record IsUnlisted (key : ℕ) (topic : Text) (r : Registry C) : Type 0 where
    pub cleared :
        (st : Text) (k : ℕ) (t : Text)
        → lookup_in st (k, t) r.by_topic
          ≡ (if (key == k) && (topic == t) then none else listing st (lookup_in k t r.by_peer))
    pub named :
        (k : ℕ) (t : Text) (s : Subscription C) → lookup_in k t r.by_peer ≡ some s → s.topic ≡ t
    pub owned :
        (k : ℕ) (t : Text) (s : Subscription C) → lookup_in k t r.by_peer ≡ some s → s.peer ≡ k

  pub drop_from_topic-IsUnlisted :
      (key : ℕ) (topic : Text) (s : Subscription C) (r : Registry C)
      → IsConsistent r
      → lookup_in key topic r.by_peer ≡ some s
      → IsUnlisted key topic (drop_from_topic key s r)
  unfolding drop_from_topic
  drop_from_topic-IsUnlisted key topic s r h held =
      let topical : s.topic ≡ topic = h.named key topic s held in
      let there : is_object (lookup_in (store_topic_of s) (key, s.topic) r.by_topic) s ≡ true =
        ground (arith, h.listed (store_topic_of s) key topic, beq_refl (store_topic_of s)) in
      rw there (record {
        cleared = λ st k t. ground (
          arith,
          lookup_in-erase_in (store_topic_of s) st (key, s.topic) (k, t) r.by_topic,
          h.listed st k t,
          beq-eq key k,
          beq-eq topic t,
        );
        named = h.named;
        owned = h.owned;
      })

  pub absent-IsUnlisted :
      (key : ℕ) (topic : Text) (r : Registry C)
      → IsConsistent r
      → lookup_in key topic r.by_peer ≡ none
      → IsUnlisted key topic r
  absent-IsUnlisted key topic r h new = record {
    cleared = λ st k t. ground (arith, h.listed st k t, beq-eq key k, beq-eq topic t);
    named = h.named;
    owned = h.owned;
  }

  pub erased-IsConsistent :
      (key : ℕ) (topic : Text) (r : Registry C)
      → IsUnlisted key topic r
      → IsConsistent (record r { by_peer = erase_in key topic r.by_peer })
  erased-IsConsistent key topic r h = record {
    listed = λ st k t. rw lookup_in-erase_in (ground (arith, h.cleared st k t));
    named =
        λ k t s held. h.named k t s (ground (arith, lookup_in-erase_in key k topic t r.by_peer));
    owned =
        λ k t s held. h.owned k t s (ground (arith, lookup_in-erase_in key k topic t r.by_peer));
  }

  pub stored-IsConsistent :
      (s : Subscription C) (r : Registry C)
      → IsUnlisted s.peer s.topic r
      → IsConsistent (store_subscription s.peer s r)
  unfolding store_subscription
  stored-IsConsistent s r h = record {
    listed = λ st k t. ground (
      arith,
      lookup_in-insert_in (store_topic_of s) st (s.peer, s.topic) (k, t) s r.by_topic,
      lookup_in-insert_in s.peer k s.topic t s r.by_peer,
      h.cleared st k t,
    );
    named = λ k t s' held. ground (
      arith,
      lookup_in-insert_in s.peer k s.topic t s r.by_peer,
      beq-eq s.topic t,
      h.named k t s',
    );
    owned = λ k t s' held. ground (
      arith,
      lookup_in-insert_in s.peer k s.topic t s r.by_peer,
      beq-eq s.peer k,
      h.owned k t s',
    );
  }
