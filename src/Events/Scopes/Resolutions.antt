-- ===== src/Events/Scopes/Resolutions.antt =====
-- The store topics that `resolve_topic` of fastapi_viewsets/events/scopes.py answers.
use fastapi_viewsets.Prelude.{
  Text, Dict, lookup, insert, list_eq, nat_eq, Equality, ◌==◌, [], ◌∷◌, All, Option, none, some,
  ◌≡◌, refl, subst, arith, Bool-cases, inl, inr,
}
use fastapi_viewsets.Events.Topics.{
  Checked, scope_key_text, scoped_topic, split_scoped_topic, is_viewset_topic, some_of, is_key_char,
}
use fastapi_viewsets.Events.Topics
use fastapi_viewsets.Events.Topics.Forms.{split_scoped-scoped_topic}
use fastapi_viewsets.Events.Authorizers.{Gated, ok, topic_refused, scope_missing, raised}
use fastapi_viewsets.Events.Polling.{ResolvedTopic}
use fastapi_viewsets.Events.Scopes.{
  ScopeError, Match, from_cache, unscoped, stored, gated, cached_or, matched, resolve_topic,
}

-- What a resolved topic is stored under: itself where it is unscoped, else its scope's topic for its key.
abbrev pub IsStored : Option Text → Text → Text → Type 0
IsStored none topic store_topic = store_topic ≡ topic
IsStored (some key) topic store_topic =
    (name : Text) × (split_scoped_topic store_topic ≡ some (name, key))

module _ {E : Type 0} where
  abbrev pub IsSplit : Gated (ScopeError E) (Text × Text) → Type 0
  IsSplit (ok (store_topic, key)) =
      (name : Text) × (split_scoped_topic store_topic ≡ some (name, key))
  IsSplit other = Unit

  abbrev pub IsResolved : Text → Gated (ScopeError E) ResolvedTopic → Type 0
  IsResolved topic (ok resolved) =
      (resolved.topic ≡ topic) × IsStored resolved.scope topic resolved.store_topic
  IsResolved topic other = Unit

  -- The gate answers valid keys only, as `resolve_scope` checks them.
  abbrev pub IsChecked : Gated (ScopeError E) Text → Type 0
  IsChecked (ok key) = scope_key_text (Topics.str key) ≡ Topics.ok key
  IsChecked other = Unit

  from_cache-IsResolved :
      (topic : Text) (entry : Gated (ScopeError E) (Text × Text))
      → IsSplit entry
      → IsResolved topic (from_cache topic entry)
  from_cache-IsResolved topic (ok (store_topic, key)) split = (refl, split)
  from_cache-IsResolved topic topic_refused split = tt
  from_cache-IsResolved topic scope_missing split = tt
  from_cache-IsResolved topic (raised error) split = tt

module _ {K E : Type 0} where
  -- The cache keeps scoped store topics only.
  abbrev pub IsFaithful : Dict K (Gated (ScopeError E) (Text × Text)) → Type 0
  IsFaithful cache = All (λ entry. IsSplit entry.1) cache

module _ {K E : Type 0} ⦃keys : Equality K⦄ where
  insert-IsFaithful :
      (k : K) (entry : Gated (ScopeError E) (Text × Text))
      (cache : Dict K (Gated (ScopeError E) (Text × Text)))
      → IsSplit entry
      → IsFaithful cache
      → IsFaithful (insert k entry cache)
  unfolding insert
  insert-IsFaithful k entry [] split faithful = (split, tt)
  insert-IsFaithful k entry ((j, other) ∷ cache) split faithful = elim (Bool-cases (j == k)) [
    | inl same ↦ rw same (split, faithful.1)
    | inr apart ↦ rw apart (faithful.0, insert-IsFaithful k entry cache split faithful.1)
  ]

  lookup-IsSplit :
      (k : K) (entry : Gated (ScopeError E) (Text × Text))
      (cache : Dict K (Gated (ScopeError E) (Text × Text)))
      → IsFaithful cache
      → lookup k cache ≡ some entry
      → IsSplit entry
  unfolding lookup
  lookup-IsSplit k entry [] faithful found = absurd (ground (arith, found))
  lookup-IsSplit k entry ((j, other) ∷ cache) faithful found = elim (Bool-cases (j == k)) [
    | inl same ↦
        let there : other ≡ entry = ground (arith, rw same at found) in
        subst IsSplit there faithful.0
    | inr apart ↦ lookup-IsSplit k entry cache faithful.1 (rw apart at found)
  ]

  -- A cache that is faithful, with a topic resolved from it.
  abbrev pub IsGood :
      Text
      → Dict K (Gated (ScopeError E) (Text × Text)) × Gated (ScopeError E) ResolvedTopic
      → Type 0
  IsGood topic result = IsFaithful result.0 × IsResolved topic result.1

  stored-IsGood :
      (topic name : Text) (cache_key : K) (key : Text) (built : Checked Text)
      (cache : Dict K (Gated (ScopeError E) (Text × Text)))
      → scope_key_text (Topics.str key) ≡ Topics.ok key
      → scoped_topic name (Topics.str key) ≡ built
      → IsFaithful cache
      → IsGood topic (stored topic cache_key key built cache)
  stored-IsGood topic name cache_key key (Topics.ok store_topic) cache valid built faithful =
      let split : (name' : Text) × (split_scoped_topic store_topic ≡ some (name', key)) =
        (name, split_scoped-scoped_topic name (Topics.str key) valid built) in
      (insert-IsFaithful cache_key (ok (store_topic, key)) cache split faithful, (refl, split))
  stored-IsGood topic name cache_key key Topics.value_error cache valid built faithful =
      (faithful, tt)
  stored-IsGood topic name cache_key key Topics.type_error cache valid built faithful =
      (faithful, tt)

  gated-IsGood :
      (topic name : Text) (cache_key : K) (gate : Gated (ScopeError E) Text)
      (cache : Dict K (Gated (ScopeError E) (Text × Text)))
      → IsChecked gate
      → IsFaithful cache
      → IsGood topic (gated topic name cache_key gate cache)
  gated-IsGood topic name cache_key (ok key) cache valid faithful =
      stored-IsGood topic name cache_key key (scoped_topic name (Topics.str key)) cache valid refl
        faithful
  gated-IsGood topic name cache_key topic_refused cache valid faithful =
      (insert-IsFaithful cache_key topic_refused cache tt faithful, tt)
  gated-IsGood topic name cache_key scope_missing cache valid faithful =
      (insert-IsFaithful cache_key scope_missing cache tt faithful, tt)
  gated-IsGood topic name cache_key (raised error) cache valid faithful =
      (insert-IsFaithful cache_key (raised error) cache tt faithful, tt)

  cached_or-IsGood :
      (topic name : Text) (cache_key : K) (found : Option (Gated (ScopeError E) (Text × Text)))
      (gate : Gated (ScopeError E) Text) (cache : Dict K (Gated (ScopeError E) (Text × Text)))
      → lookup cache_key cache ≡ found
      → IsChecked gate
      → IsFaithful cache
      → IsGood topic (cached_or topic name cache_key found gate cache)
  cached_or-IsGood topic name cache_key (some entry) gate cache e valid faithful = (
    faithful,
    from_cache-IsResolved topic entry (lookup-IsSplit cache_key entry cache faithful e),
  )
  cached_or-IsGood topic name cache_key none gate cache e valid faithful =
      gated-IsGood topic name cache_key gate cache valid faithful

  matched-IsGood :
      (topic : Text) (found : Option (Match K)) (gate : Gated (ScopeError E) Text)
      (cache : Dict K (Gated (ScopeError E) (Text × Text)))
      → IsChecked gate
      → IsFaithful cache
      → IsGood topic (matched topic found gate cache)
  matched-IsGood topic none gate cache valid faithful = (faithful, (refl, refl))
  matched-IsGood topic (some found) gate cache valid faithful = at found.scope
    where
      at :
          (scope : Option Text)
          → IsGood topic (elim scope [
            | none ↦ (cache, unscoped topic)
            | some name ↦
                cached_or topic name found.cache_key (lookup found.cache_key cache) gate cache
          ])
      at none = (faithful, (refl, refl))
      at (some name) =
          cached_or-IsGood topic name found.cache_key (lookup found.cache_key cache) gate cache refl
            valid faithful

  -- A topic that is resolved, from the cache or by the gate, is the topic asked for; unscoped it is its own
  -- store topic, and scoped its store topic is a scope's, of the key that it answers, so that one store topic
  -- has one key. The cache keeps that; where the gate answers keys that `resolve_scope` has checked.
  pub resolve_topic-IsGood :
      (topic : Text) (found : Option (Match K)) (gate : Gated (ScopeError E) Text)
      (cache : Dict K (Gated (ScopeError E) (Text × Text)))
      → IsChecked gate
      → IsFaithful cache
      → IsGood topic (resolve_topic topic found gate cache)
  unfolding resolve_topic
  resolve_topic-IsGood topic found gate cache valid faithful =
      elim (Bool-cases (is_viewset_topic topic)) [
        | inl viewsets ↦ rw viewsets (matched-IsGood topic found gate cache valid faithful)
        | inr custom ↦ rw custom (faithful, (refl, refl))
      ]
