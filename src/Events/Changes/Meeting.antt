-- ===== src/Events/Changes/Meeting.antt =====
-- A scoped write and a scoped read meet at one store topic: `_scoped_write_topic` of
-- fastapi_viewsets/events/changes.py and `resolve_topic` of fastapi_viewsets/events/scopes.py.
use fastapi_viewsets.Prelude.{
  Text, lookup, list_eq, nat_eq, Equality, beq_refl, if◌then◌else◌, [], Option, none, some, true,
  ◌≡◌, ◌↔◌, ap, ◌∙◌, sym, arith,
}
use fastapi_viewsets.Events.Topics.{
  Checked, ScopeKey, scope_key_text, scoped_topic, is_viewset_topic, split_scoped_topic,
}
use fastapi_viewsets.Events.Topics
use fastapi_viewsets.Events.Topics.Forms.{split_scoped-scoped_topic}
use fastapi_viewsets.Events.Authorizers.{Gated, ok}
use fastapi_viewsets.Events.Polling.{ResolvedTopic}
use fastapi_viewsets.Events.Scopes.{ScopeError, resolve_scope, stored, resolve_topic}
use fastapi_viewsets.Events.Changes.{
  Entry, named, checked, then_, keyed_topic, or_resolved, as_some, carried_topic, resolved_topic,
  scoped_write_topic,
}
use fastapi_viewsets.Middleware.Chain.{Outcome, returned}

-- A write under a key of its scope: the key came with the context, or the resolver answers it.
pub data WritesUnder {E : Type 0} (name key : Text)
    : Option (Outcome (ScopeError E) Entry) → Outcome E (Option ScopeKey) → Type 0 where
  carried :
      {resolver : Outcome E (Option ScopeKey)}
      → WritesUnder name key (some (returned (named name key))) resolver
  resolved :
      {resolver : Outcome E (Option ScopeKey)}
      → resolve_scope resolver ≡ returned (some key)
      → WritesUnder name key none resolver

module _ {E : Type 0} where
  checked_topic_ok :
      (built : Checked Text) (store_topic : Text)
      → then_ (checked {E = E} built) (λ t. returned (some t)) ≡ returned (some store_topic)
      → built ≡ Topics.ok store_topic
  checked_topic_ok (Topics.ok topic) store_topic h = ground (arith, h)
  checked_topic_ok Topics.value_error store_topic h = ground (arith, h)
  checked_topic_ok Topics.type_error store_topic h = ground (arith, h)

  carried_some :
      (name : Text) (built : Checked Text) (resolver : Outcome E (Option ScopeKey))
      (store_topic : Text)
      → then_ (as_some {E = E} built) (or_resolved name resolver) ≡ returned (some store_topic)
      → built ≡ Topics.ok store_topic
  carried_some name (Topics.ok topic) resolver store_topic h = ground (arith, h)
  carried_some name Topics.value_error resolver store_topic h = ground (arith, h)
  carried_some name Topics.type_error resolver store_topic h = ground (arith, h)

  written :
      (name key : Text) (entry : Option (Outcome (ScopeError E) Entry))
      (resolver : Outcome E (Option ScopeKey)) (store_topic : Text)
      → WritesUnder name key entry resolver
      → scoped_write_topic name true entry resolver ≡ returned (some store_topic)
      → scoped_topic name (Topics.str key) ≡ Topics.ok store_topic
  unfolding scoped_write_topic carried_topic resolved_topic
  written name key entry resolver store_topic carried h =
      carried_some name (scoped_topic name (Topics.str key)) resolver store_topic (
        sym (
          ap
            (λ b.
              then_
                (if b then as_some {E = E} (scoped_topic name (Topics.str key)) else returned none)
                (or_resolved name resolver))
            (beq_refl name))
        ∙ h)
  written name key entry resolver store_topic (resolved e) h =
      checked_topic_ok (scoped_topic name (Topics.str key)) store_topic
        (sym (ap (λ k. then_ k (keyed_topic name)) e) ∙ h)

-- A topic read under a key of a scope.
abbrev pub reading : Text → Text → Text → ResolvedTopic
reading topic store_topic key = record {
  topic = topic;
  store_topic = store_topic;
  scope = some key;
}

abbrev store_of : {E : Type 0} → Gated E ResolvedTopic → Text
store_of (ok r) = r.store_topic
store_of other = []

abbrev pair : Text → Text → Option (Text × Text)
pair name key = some (name, key)

same_pair : (name key key' : Text) → pair name key ≡ pair name key' → key ≡ key'
same_pair name key key' h = ground (arith, h)

same_topic : (a b : Text) → Topics.ok a ≡ Topics.ok b → a ≡ b
same_topic a b h = ground (arith, h)

module _ {K E : Type 0} ⦃keys : Equality K⦄ where
  stored_ok :
      (topic : Text) (cache_key : K) (key : Text) (built : Checked Text) (store_topic : Text)
      → (stored {E = E} topic cache_key key built []).1 ≡ ok (reading topic store_topic key)
      → built ≡ Topics.ok store_topic
  stored_ok topic cache_key key (Topics.ok found) store_topic h = ap (λ g. Topics.ok (store_of g)) h
  stored_ok topic cache_key key Topics.value_error store_topic h = absurd (ground (arith, h))
  stored_ok topic cache_key key Topics.type_error store_topic h = absurd (ground (arith, h))

  -- What a write under a key publishes is what a caller reads whose gate answers the same key, and no caller
  -- whose gate answers another key of the scope: the two store topics are one exactly where the keys are. The
  -- write finds its key in the context or by the resolver, both keys are texts a scope takes as they are, the
  -- topic is a viewset's with that scope, nothing is cached yet, and both sides answer a store topic.
  pub scoped_write_topic-reading :
      (topic name key key' store_topic store_topic' : Text) (cache_key : K)
      (entry : Option (Outcome (ScopeError E) Entry)) (resolver : Outcome E (Option ScopeKey))
      → WritesUnder name key entry resolver
      → scope_key_text (Topics.str key) ≡ Topics.ok key
      → scope_key_text (Topics.str key') ≡ Topics.ok key'
      → scoped_write_topic name true entry resolver ≡ returned (some store_topic)
      → is_viewset_topic topic ≡ true
      → (resolve_topic {E = E} topic
          (some (record { scope = some name; cache_key = cache_key }))
          (ok key')
          []).1
        ≡ ok (reading topic store_topic' key')
      → (store_topic ≡ store_topic') ↔ (key ≡ key')
  unfolding resolve_topic lookup
  scoped_write_topic-reading topic name key key' store_topic store_topic' cache_key entry resolver
        under valid valid' writes viewset reads =
      let wrote = written name key entry resolver store_topic under writes in
      let read =
        stored_ok topic cache_key key' (scoped_topic name (Topics.str key')) store_topic'
          (rw viewset at reads) in
      (
        λ same. same_pair name key key' (
            sym (split_scoped-scoped_topic name (Topics.str key) valid wrote)
            ∙ ap split_scoped_topic same
            ∙ split_scoped-scoped_topic name (Topics.str key') valid' read),
        λ same.
            same_topic store_topic store_topic'
              (sym wrote ∙ ap (λ k. scoped_topic name (Topics.str k)) same ∙ read),
      )
