-- ===== src/Events/Changes/Noted.antt =====
-- Noting the calls of `execute` changes nothing that it does: fastapi_viewsets/events/changes.py.
use fastapi_viewsets.Prelude.{
  Text, Dict, lookup, list_eq, nat_eq, if◌then◌else◌, List, [], Option, none, some, Bool, true,
  false, ◌≡◌, refl,
}
use fastapi_viewsets.Events.Scopes.{ScopeError}
use fastapi_viewsets.Events.Changes.{
  Op, created, updated, deleted, ops, Options, Execution, options_for, replaced_for,
  resolve_write_topic,
}
use fastapi_viewsets.Events.Changes.Records.{pk_field_for, Shaped, changes_for}
use fastapi_viewsets.Events.Changes.Publishing.{
  after_publish, publish_changes, acted, checked_act, act, with_topic, with_options, with_op,
  execute,
}
use fastapi_viewsets.Events.Changes.Traces.{
  Mark, Traced, ran_with, noted_run, sent_with, noted_publish,
}
use fastapi_viewsets.Middleware.Chain.{Outcome, returned, raised, Step}

module _ {S E K : Type 0} (call_next : Step S (ScopeError E) (Shaped (Dict Text K)))
    (publish : Text → Op → List K → Step S (ScopeError E) (Unit {0})) where
  abbrev CallEnd : Type 0
  CallEnd = Outcome (ScopeError E) (Shaped (Dict Text K))

  -- What is left of a run when its marks are forgotten.
  abbrev pub forget : Traced call_next publish × CallEnd → S × CallEnd
  forget ((s, marks), outcome) = (s, outcome)

  abbrev noting_run : Step (Traced call_next publish) (ScopeError E) (Shaped (Dict Text K))
  noting_run = noted_run call_next publish

  abbrev noting_publish :
      Text → Op → List K → Step (Traced call_next publish) (ScopeError E) (Unit {0})
  noting_publish = noted_publish call_next publish

  forget-ran :
      (marks : List (Mark call_next publish)) (call : S × CallEnd)
      → forget (ran_with call_next publish marks call) ≡ call
  forget-ran marks (s, outcome) = refl

  forget-after_publish :
      (topic : Text) (op : Op) (pks : List K) (body : Shaped (Dict Text K))
      (marks : List (Mark call_next publish)) (end : S × Outcome (ScopeError E) (Unit {0}))
      → forget (
          after_publish noting_run noting_publish body
            (sent_with call_next publish topic op pks marks end))
        ≡ after_publish call_next publish body end
  forget-after_publish topic op pks body marks (s, returned tt) = refl
  forget-after_publish topic op pks body marks (s, raised error) = refl

  forget-publish_changes :
      (topic : Text) (op : Op) (body : Shaped (Dict Text K))
      (found : Outcome (ScopeError E) (List K)) (s : S) (marks : List (Mark call_next publish))
      → forget (publish_changes noting_run noting_publish topic op body found (s, marks))
        ≡ publish_changes call_next publish topic op body found s
  forget-publish_changes topic op body (raised error) s marks = refl
  forget-publish_changes topic op body (returned pks) s marks =
      forget-after_publish topic op pks body marks (publish topic op pks s)

  forget-acted :
      (x : Execution E) (pk : Shaped K) (topic : Text) (op : Op) (call : S × CallEnd)
      → forget (acted noting_run noting_publish x pk topic op (ran_with call_next publish [] call))
        ≡ acted call_next publish x pk topic op call
  forget-acted x pk topic op (s, raised error) = refl
  forget-acted x pk topic op (s, returned body) =
      forget-publish_changes topic op body (changes_for op x.action x.pk_field_names pk body) s _

  forget-checked_act :
      (x : Execution E) (pk : Shaped K) (topic : Text) (op : Op)
      (field : Outcome (ScopeError E) Text) (s : S)
      → forget (checked_act noting_run noting_publish x pk topic op field (s, []))
        ≡ checked_act call_next publish x pk topic op field s
  forget-checked_act x pk topic op (raised error) s = refl
  forget-checked_act x pk topic op (returned field) s = forget-acted x pk topic op (call_next s)

  forget-act :
      (x : Execution E) (pk : Shaped K) (topic : Text) (op : Op) (s : S)
      → forget (act noting_run noting_publish x pk topic op (s, []))
        ≡ act call_next publish x pk topic op s
  forget-act x pk topic deleted s = forget-acted x pk topic deleted (call_next s)
  forget-act x pk topic created s =
      forget-checked_act x pk topic created (pk_field_for x.pk_field_names) s
  forget-act x pk topic updated s =
      forget-checked_act x pk topic updated (pk_field_for x.pk_field_names) s

  forget-with_topic :
      (x : Execution E) (pk : Shaped K) (op : Op) (found : Outcome (ScopeError E) (Option Text))
      (s : S)
      → forget (with_topic noting_run noting_publish x pk op found (s, []))
        ≡ with_topic call_next publish x pk op found s
  forget-with_topic x pk op (raised error) s = refl
  forget-with_topic x pk op (returned none) s = forget-ran [] (call_next s)
  forget-with_topic x pk op (returned (some topic)) s = forget-act x pk topic op s

  forget-owned :
      (x : Execution E) (pk : Shaped K) (op : Op) (given : Options E) (s : S) (other : Bool)
      → forget (
          if other
          then noting_run (s, [])
          else with_topic noting_run noting_publish x pk op (resolve_write_topic given x) (s, []))
        ≡ (if other
            then call_next s
            else with_topic call_next publish x pk op (resolve_write_topic given x) s)
  forget-owned x pk op given s true = forget-ran [] (call_next s)
  forget-owned x pk op given s false = forget-with_topic x pk op (resolve_write_topic given x) s

  forget-with_options :
      (x : Execution E) (pk : Shaped K) (op : Op)
      (found : Outcome (ScopeError E) (Option (Options E))) (s : S)
      → forget (with_options noting_run noting_publish x pk op found (s, []))
        ≡ with_options call_next publish x pk op found s
  forget-with_options x pk op (raised error) s = refl
  forget-with_options x pk op (returned none) s = forget-ran [] (call_next s)
  forget-with_options x pk op (returned (some given)) s =
      forget-owned x pk op given s (replaced_for x.self_key x.injected)

  forget-with_op :
      (x : Execution E) (pk : Shaped K) (found : Option Op) (s : S)
      → forget (with_op noting_run noting_publish x pk found (s, []))
        ≡ with_op call_next publish x pk found s
  forget-with_op x pk none s = forget-ran [] (call_next s)
  forget-with_op x pk (some op) s = forget-with_options x pk op (options_for x.config) s

  pub forget-execute :
      (x : Execution E) (pk : Shaped K) (s : S)
      → forget (execute noting_run noting_publish x pk (s, [])) ≡ execute call_next publish x pk s
  unfolding execute
  forget-execute x pk s = forget-with_op x pk (lookup x.action ops) s
