-- ===== src/Events/Changes/Traces.antt =====
-- The calls that `execute` of `ChangeEvents` makes, in their order: fastapi_viewsets/events/changes.py.
use fastapi_viewsets.Prelude.{
  Text, Dict, lookup, list_eq, nat_eq, List, [], ◌∷◌, ◌++◌, none, some, true, false, ◌≡◌, ◌⊎◌,
}
use fastapi_viewsets.Events.Scopes.{ScopeError}
use fastapi_viewsets.Events.Changes.{
  Op, created, updated, ops, Options, Execution, options_for, replaced_for, resolve_write_topic,
}
use fastapi_viewsets.Events.Changes.Records.{pk_field_for, Shaped, changes_for}
use fastapi_viewsets.Middleware.Chain.{Outcome, returned, raised, Step}

-- A write action for which this instance is enabled and not replaced.
pub record Owns {E : Type 0} (x : Execution E) (op : Op) (given : Options E) : Type 0 where
  pub is_write : lookup x.action ops ≡ some op
  pub is_enabled : options_for x.config ≡ returned (some given)
  pub is_own : replaced_for x.self_key x.injected ≡ false

-- An execution that publishes: one with a topic, too.
pub record Publishes {E : Type 0} (x : Execution E) (op : Op) (topic : Text) : Type 0 where
  pub given : Options E
  pub owns : Owns x op given
  pub has_topic : resolve_write_topic given x ≡ returned (some topic)

-- An execution that publishes nothing.
pub data IsSilent {E : Type 0} (x : Execution E) : Type 0 where
  no_write : lookup x.action ops ≡ none → IsSilent x
  disabled : options_for x.config ≡ returned none → IsSilent x
  replaced :
      {given : Options E}
      → options_for x.config ≡ returned (some given)
      → replaced_for x.self_key x.injected ≡ true
      → IsSilent x
  no_topic :
      {op : Op} {given : Options E}
      → Owns x op given
      → resolve_write_topic given x ≡ returned none
      → IsSilent x

-- An execution that is refused with an error before the action runs.
pub data Refuses {E : Type 0} (x : Execution E) (error : ScopeError E) : Type 0 where
  unread_options :
      {op : Op}
      → lookup x.action ops ≡ some op
      → options_for x.config ≡ raised error
      → Refuses x error
  unread_topic :
      {op : Op} {given : Options E}
      → Owns x op given
      → resolve_write_topic given x ≡ raised error
      → Refuses x error
  no_pk_field :
      {op : Op} {topic : Text}
      → Publishes x op topic
      → (op ≡ created) ⊎ (op ≡ updated)
      → pk_field_for x.pk_field_names ≡ raised error
      → Refuses x error

module _ {S E K : Type 0} (call_next : Step S (ScopeError E) (Shaped (Dict Text K)))
    (publish : Text → Op → List K → Step S (ScopeError E) (Unit {0})) where
  -- A call of the rest of the chain, or of `publish`, and what it came to.
  pub data Mark : Type 0 where
    ran : Outcome (ScopeError E) (Shaped (Dict Text K)) → Mark
    sent : Text → Op → List K → Outcome (ScopeError E) (Unit {0}) → Mark

  abbrev pub Traced : Type 0
  Traced = S × List Mark

  abbrev pub ran_with :
      List Mark
      → S × Outcome (ScopeError E) (Shaped (Dict Text K))
      → Traced × Outcome (ScopeError E) (Shaped (Dict Text K))
  ran_with marks (s, outcome) = ((s, marks ++ ran outcome ∷ []), outcome)

  -- the rest of the chain, noting that it ran
  abbrev pub noted_run : Step Traced (ScopeError E) (Shaped (Dict Text K))
  noted_run (s, marks) = ran_with marks (call_next s)

  abbrev pub sent_with :
      Text
      → Op
      → List K
      → List Mark
      → S × Outcome (ScopeError E) (Unit {0})
      → Traced × Outcome (ScopeError E) (Unit {0})
  sent_with topic op pks marks (s, outcome) =
      ((s, marks ++ sent topic op pks outcome ∷ []), outcome)

  -- `publish`, noting what it was called with
  abbrev pub noted_publish : Text → Op → List K → Step Traced (ScopeError E) (Unit {0})
  noted_publish topic op pks (s, marks) = sent_with topic op pks marks (publish topic op pks s)

  -- An execution at the state `s`, by the calls it made and what it came to.
  pub data Came (x : Execution E) (pk : Shaped K) (s : S)
      (result : Traced × Outcome (ScopeError E) (Shaped (Dict Text K))) : Type 0 where
    silent :
        {s' : S} {outcome : Outcome (ScopeError E) (Shaped (Dict Text K))}
        → IsSilent x
        → call_next s ≡ (s', outcome)
        → result ≡ ((s', ran outcome ∷ []), outcome)
        → Came x pk s result
    refused :
        {error : ScopeError E}
        → Refuses x error
        → result ≡ ((s, []), raised error)
        → Came x pk s result
    failed :
        {op : Op} {topic : Text} {s' : S} {error : ScopeError E}
        → Publishes x op topic
        → call_next s ≡ (s', raised error)
        → result ≡ ((s', ran (raised error) ∷ []), raised error)
        → Came x pk s result
    unread :
        {op : Op} {topic : Text} {s' : S} {body : Shaped (Dict Text K)} {error : ScopeError E}
        → Publishes x op topic
        → call_next s ≡ (s', returned body)
        → changes_for op x.action x.pk_field_names pk body ≡ raised error
        → result ≡ ((s', ran (returned body) ∷ []), raised error)
        → Came x pk s result
    published :
        {op : Op} {topic : Text} {s' s'' : S} {body : Shaped (Dict Text K)} {pks : List K}
        → Publishes x op topic
        → call_next s ≡ (s', returned body)
        → changes_for {E = E} op x.action x.pk_field_names pk body ≡ returned pks
        → publish topic op pks s' ≡ (s'', returned tt)
        → result
          ≡ ((s'', ran (returned body) ∷ sent topic op pks (returned tt) ∷ []), returned body)
        → Came x pk s result
    lost :
        {op : Op} {topic : Text} {s' s'' : S} {body : Shaped (Dict Text K)} {pks : List K}
        {error : ScopeError E}
        → Publishes x op topic
        → call_next s ≡ (s', returned body)
        → changes_for {E = E} op x.action x.pk_field_names pk body ≡ returned pks
        → publish topic op pks s' ≡ (s'', raised error)
        → result
          ≡ ((s'', ran (returned body) ∷ sent topic op pks (raised error) ∷ []), raised error)
        → Came x pk s result
