-- ===== src/Events/Changes/Publishing.antt =====
-- When a write publishes: `execute` of `ChangeEvents` of fastapi_viewsets/events/changes.py.
use fastapi_viewsets.Prelude.{
  Text, Dict, lookup, list_eq, nat_eq, if◌then◌else◌, List, Option, none, some,
}
use fastapi_viewsets.Events.Scopes.{ScopeError}
use fastapi_viewsets.Events.Changes.{
  Op, created, updated, deleted, ops, Options, Execution, options_for, replaced_for,
  resolve_write_topic,
}
use fastapi_viewsets.Events.Changes.Records.{pk_field_for, Shaped, changes_for}
use fastapi_viewsets.Middleware.Chain.{Outcome, returned, raised, Step}

module _ {S E K : Type 0} (call_next : Step S (ScopeError E) (Shaped (Dict Text K)))
    (publish : Text → Op → List K → Step S (ScopeError E) (Unit {0})) where
  abbrev pub Call : Type 0
  Call = S × Outcome (ScopeError E) (Shaped (Dict Text K))

  -- the result, once `publish` has come to an end
  abbrev pub after_publish : Shaped (Dict Text K) → S × Outcome (ScopeError E) (Unit {0}) → Call
  after_publish result (s, returned _) = (s, returned result)
  after_publish result (s, raised error) = (s, raised error)

  abbrev pub publish_changes :
      Text → Op → Shaped (Dict Text K) → Outcome (ScopeError E) (List K) → S → Call
  publish_changes topic op result (raised error) s = (s, raised error)
  publish_changes topic op result (returned pks) s = after_publish result (publish topic op pks s)

  abbrev pub acted : Execution E → Shaped K → Text → Op → Call → Call
  acted x pk topic op (s, raised error) = (s, raised error)
  acted x pk topic op (s, returned result) =
      publish_changes topic op result (changes_for op x.action x.pk_field_names pk result) s

  abbrev pub checked_act :
      Execution E → Shaped K → Text → Op → Outcome (ScopeError E) Text → S → Call
  checked_act x pk topic op (raised error) s = (s, raised error)
  checked_act x pk topic op (returned field) s = acted x pk topic op (call_next s)

  -- `if op != "deleted": self.pk_field_for(execution)`
  abbrev pub act : Execution E → Shaped K → Text → Op → S → Call
  act x pk topic deleted s = acted x pk topic deleted (call_next s)
  act x pk topic created s = checked_act x pk topic created (pk_field_for x.pk_field_names) s
  act x pk topic updated s = checked_act x pk topic updated (pk_field_for x.pk_field_names) s

  abbrev pub with_topic :
      Execution E → Shaped K → Op → Outcome (ScopeError E) (Option Text) → S → Call
  with_topic x pk op (raised error) s = (s, raised error)
  with_topic x pk op (returned none) s = call_next s
  with_topic x pk op (returned (some topic)) s = act x pk topic op s

  abbrev pub with_options :
      Execution E → Shaped K → Op → Outcome (ScopeError E) (Option (Options E)) → S → Call
  with_options x pk op (raised error) s = (s, raised error)
  with_options x pk op (returned none) s = call_next s
  with_options x pk op (returned (some given)) s =
      if replaced_for x.self_key x.injected
      then call_next s
      else with_topic x pk op (resolve_write_topic given x) s

  abbrev pub with_op : Execution E → Shaped K → Option Op → S → Call
  with_op x pk none s = call_next s
  with_op x pk (some op) s = with_options x pk op (options_for x.config) s

  -- `execute`
  unfoldable pub execute : Execution E → Shaped K → Step S (ScopeError E) (Shaped (Dict Text K))
  unfolding options_for replaced_for resolve_write_topic pk_field_for changes_for
  execute x pk s = with_op x pk (lookup x.action ops) s
