-- ===== src/Events/Changes/Called.antt =====
-- What every execution of `ChangeEvents` comes to: `execute` of fastapi_viewsets/events/changes.py.
use fastapi_viewsets.Prelude.{
  Text, Dict, lookup, list_eq, nat_eq, if◌then◌else◌, List, [], ◌∷◌, Option, none, some, Bool, true,
  false, ◌≡◌, refl, ◌⊎◌, inl, inr,
}
use fastapi_viewsets.Events.Scopes.{ScopeError}
use fastapi_viewsets.Events.Changes.{
  Op, created, updated, deleted, ops, Options, Execution, options_for, replaced_for,
  resolve_write_topic,
}
use fastapi_viewsets.Events.Changes.Records.{pk_field_for, Shaped, changes_for}
use fastapi_viewsets.Events.Changes.Publishing.{
  after_publish, publish_changes, acted, checked_act, act, with_topic, with_options, with_op,
  execute,
}
use fastapi_viewsets.Events.Changes.Traces.{
  Owns, Publishes, IsSilent, no_write, disabled, replaced, no_topic, unread_options, unread_topic,
  no_pk_field, ran, ran_with, noted_run, sent_with, noted_publish, Came, silent, refused, failed,
  unread, published, lost,
}
use fastapi_viewsets.Events.Changes.Noted.{forget, forget-execute}
use fastapi_viewsets.Middleware.Chain.{Outcome, returned, raised, Step}

module _ {S E K : Type 0} (call_next : Step S (ScopeError E) (Shaped (Dict Text K)))
    (publish : Text → Op → List K → Step S (ScopeError E) (Unit {0})) where
  silent-Came :
      (x : Execution E) (pk : Shaped K) (s : S)
      (call : S × Outcome (ScopeError E) (Shaped (Dict Text K)))
      → IsSilent x
      → call_next s ≡ call
      → Came call_next publish x pk s (ran_with call_next publish [] call)
  silent-Came x pk s (s', outcome) quiet called = silent quiet called refl

  after_publish-Came :
      (x : Execution E) (pk : Shaped K) (op : Op) (topic : Text) (s s' : S)
      (body : Shaped (Dict Text K)) (pks : List K) (end : S × Outcome (ScopeError E) (Unit {0}))
      → Publishes x op topic
      → call_next s ≡ (s', returned body)
      → changes_for {E = E} op x.action x.pk_field_names pk body ≡ returned pks
      → publish topic op pks s' ≡ end
      → Came call_next publish x pk s (
          after_publish
            (noted_run call_next publish)
            (noted_publish call_next publish)
            body
            (sent_with call_next publish topic op pks (ran (returned body) ∷ []) end))
  after_publish-Came x pk op topic s s' body pks (s'', returned tt) own called read end =
      published own called read end refl
  after_publish-Came x pk op topic s s' body pks (s'', raised error) own called read end =
      lost own called read end refl

  publish_changes-Came :
      (x : Execution E) (pk : Shaped K) (op : Op) (topic : Text) (s s' : S)
      (body : Shaped (Dict Text K)) (found : Outcome (ScopeError E) (List K))
      → Publishes x op topic
      → call_next s ≡ (s', returned body)
      → changes_for op x.action x.pk_field_names pk body ≡ found
      → Came call_next publish x pk s (
          publish_changes
            (noted_run call_next publish)
            (noted_publish call_next publish)
            topic
            op
            body
            found
            (s', ran (returned body) ∷ []))
  publish_changes-Came x pk op topic s s' body (raised error) own called e =
      unread own called e refl
  publish_changes-Came x pk op topic s s' body (returned pks) own called e =
      after_publish-Came x pk op topic s s' body pks (publish topic op pks s') own called e refl

  acted-Came :
      (x : Execution E) (pk : Shaped K) (op : Op) (topic : Text) (s : S)
      (call : S × Outcome (ScopeError E) (Shaped (Dict Text K)))
      → Publishes x op topic
      → call_next s ≡ call
      → Came call_next publish x pk s (
          acted
            (noted_run call_next publish)
            (noted_publish call_next publish)
            x
            pk
            topic
            op
            (ran_with call_next publish [] call))
  acted-Came x pk op topic s (s', raised error) own called = failed own called refl
  acted-Came x pk op topic s (s', returned body) own called =
      publish_changes-Came x pk op topic s s' body
        (changes_for op x.action x.pk_field_names pk body) own called refl

  checked_act-Came :
      (x : Execution E) (pk : Shaped K) (op : Op) (topic : Text) (s : S)
      (field : Outcome (ScopeError E) Text)
      → Publishes x op topic
      → (op ≡ created) ⊎ (op ≡ updated)
      → pk_field_for x.pk_field_names ≡ field
      → Came call_next publish x pk s (
          checked_act
            (noted_run call_next publish)
            (noted_publish call_next publish)
            x
            pk
            topic
            op
            field
            (s, []))
  checked_act-Came x pk op topic s (raised error) own reads e =
      refused (no_pk_field own reads e) refl
  checked_act-Came x pk op topic s (returned field) own reads e =
      acted-Came x pk op topic s (call_next s) own refl

  act-Came :
      (x : Execution E) (pk : Shaped K) (op : Op) (topic : Text) (s : S)
      → Publishes x op topic
      → Came call_next publish x pk s (
          act (noted_run call_next publish) (noted_publish call_next publish) x pk topic op (s, []))
  act-Came x pk deleted topic s own = acted-Came x pk deleted topic s (call_next s) own refl
  act-Came x pk created topic s own =
      checked_act-Came x pk created topic s (pk_field_for x.pk_field_names) own (inl refl) refl
  act-Came x pk updated topic s own =
      checked_act-Came x pk updated topic s (pk_field_for x.pk_field_names) own (inr refl) refl

  with_topic-Came :
      (x : Execution E) (pk : Shaped K) (op : Op) (given : Options E) (s : S)
      (found : Outcome (ScopeError E) (Option Text))
      → Owns x op given
      → resolve_write_topic given x ≡ found
      → Came call_next publish x pk s (
          with_topic
            (noted_run call_next publish)
            (noted_publish call_next publish)
            x
            pk
            op
            found
            (s, []))
  with_topic-Came x pk op given s (raised error) own e = refused (unread_topic own e) refl
  with_topic-Came x pk op given s (returned none) own e =
      silent-Came x pk s (call_next s) (no_topic own e) refl
  with_topic-Came x pk op given s (returned (some topic)) own e =
      act-Came x pk op topic s (record { given = given; owns = own; has_topic = e })

  owned-Came :
      (x : Execution E) (pk : Shaped K) (op : Op) (given : Options E) (s : S) (other : Bool)
      → lookup x.action ops ≡ some op
      → options_for x.config ≡ returned (some given)
      → replaced_for x.self_key x.injected ≡ other
      → Came call_next publish x pk s (
          if other
          then noted_run call_next publish (s, [])
          else with_topic
              (noted_run call_next publish)
              (noted_publish call_next publish)
              x
              pk
              op
              (resolve_write_topic given x)
              (s, []))
  owned-Came x pk op given s true write own e =
      silent-Came x pk s (call_next s) (replaced own e) refl
  owned-Came x pk op given s false write own e =
      with_topic-Came x pk op given s (resolve_write_topic given x)
        (record { is_write = write; is_enabled = own; is_own = e }) refl

  with_options-Came :
      (x : Execution E) (pk : Shaped K) (op : Op) (s : S)
      (found : Outcome (ScopeError E) (Option (Options E)))
      → lookup x.action ops ≡ some op
      → options_for x.config ≡ found
      → Came call_next publish x pk s (
          with_options
            (noted_run call_next publish)
            (noted_publish call_next publish)
            x
            pk
            op
            found
            (s, []))
  with_options-Came x pk op s (raised error) write e = refused (unread_options write e) refl
  with_options-Came x pk op s (returned none) write e =
      silent-Came x pk s (call_next s) (disabled e) refl
  with_options-Came x pk op s (returned (some given)) write e =
      owned-Came x pk op given s (replaced_for x.self_key x.injected) write e refl

  with_op-Came :
      (x : Execution E) (pk : Shaped K) (s : S) (found : Option Op)
      → lookup x.action ops ≡ found
      → Came call_next publish x pk s (
          with_op
            (noted_run call_next publish)
            (noted_publish call_next publish)
            x
            pk
            found
            (s, []))
  with_op-Came x pk s none e = silent-Came x pk s (call_next s) (no_write e) refl
  with_op-Came x pk s (some op) e = with_options-Came x pk op s (options_for x.config) e refl

  -- The calls that `execute` makes, in their order, and what it comes to, which noting them leaves as it is.
  -- Where the action is no write, or the plugin is disabled, replaced or without a topic, the rest of the
  -- chain runs once, nothing is published, and the execution comes to what the rest came to. Where the
  -- options, the topic or the field of the pk of a create or an update cannot be read, nothing runs and that
  -- error is raised. Any other write runs once; where it raises, nothing is published; where it returns, the
  -- pks that `changes_for` reads of it are published once, after it, to the topic found before it, and the
  -- execution returns what it returned; an error of `changes_for` or of `publish` is raised in place of that.
  pub execute-Came :
      (x : Execution E) (pk : Shaped K) (s : S)
      → Came call_next publish x pk s
          (execute (noted_run call_next publish) (noted_publish call_next publish) x pk (s, []))
        × (forget call_next publish
              (execute (noted_run call_next publish) (noted_publish call_next publish) x pk (s, []))
            ≡ execute call_next publish x pk s)
  unfolding execute
  execute-Came x pk s =
      (with_op-Came x pk s (lookup x.action ops) refl, forget-execute call_next publish x pk s)
