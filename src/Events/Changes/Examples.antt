-- ===== src/Events/Changes/Examples.antt =====
-- Gates, resolved topics and writes of a viewset scoped by tenant.
use fastapi_viewsets.Prelude.{
  ℕ, Text, text, Dict, lookup, list_eq, nat_eq, List, [], ◌∷◌, ◌++◌, Option, none, some, Bool, true,
  false, ◌≡◌, ◌↔◌, refl,
}
use fastapi_viewsets.Events.Topics.{
  ScopeKey, str, scope_key_text, scoped_topic, is_viewset_topic, every, some_of, is_key_char,
  is_scope_char, is_space, scope_name, is_valid_topic, validate_topic,
}
use fastapi_viewsets.Events.Topics
use fastapi_viewsets.Events.Authorizers.{Gated, ok}
use fastapi_viewsets.Events.Scopes.{ScopeError, resolve_scope, Gate, gate_run, Match, resolve_topic}
use fastapi_viewsets.Events.Scopes.Gates.{KeepsGate, gate_run-IsAnswered}
use fastapi_viewsets.Events.Scopes.Resolutions.{IsGood, resolve_topic-IsGood}
use fastapi_viewsets.Events.Changes.{
  write_topic, config_from, disabled, resolved_topic, Op, updated, Execution, enabled, named,
  scoped_write_topic, carried_topic, path_below_root, options_for, resolve_write_topic,
  replaced_for, topic_for,
}
use fastapi_viewsets.Events.Changes.Records.{Shaped, changes_for, many, one, pk_field_for, read_pks}
use fastapi_viewsets.Events.Changes.Publishing.{execute}
use fastapi_viewsets.Events.Changes.Traces.{Came, noted_run, noted_publish, ran, sent}
use fastapi_viewsets.Events.Changes.Noted.{forget}
use fastapi_viewsets.Events.Changes.Called.{execute-Came}
use fastapi_viewsets.Events.Changes.Meeting.{carried, reading, scoped_write_topic-reading}
use fastapi_viewsets.Middleware.Chain.{Outcome, returned, Step, Layer, run_command_chain}

below_root : path_below_root (text "/api") (text "/api/music") ≡ text "/music"
unfolding path_below_root
below_root = refl

beside_root : path_below_root (text "/api") (text "/apis/music") ≡ text "/apis/music"
unfolding path_below_root
beside_root = refl

abbrev tenant : Text
tenant = text "t1"

abbrev of_tenant : ℕ → Outcome ℕ (Option ScopeKey)
of_tenant w = returned (some (str tenant))

-- A middleware that counts its calls.
abbrev counting : Layer (Gate ℕ) (ScopeError ℕ) (Option ℕ)
counting call_next s = call_next s

counting-KeepsGate : KeepsGate of_tenant counting
counting-KeepsGate call_next keep s h = keep s h

abbrev admits_all : Outcome (ScopeError ℕ) Bool
admits_all = returned true

answers_tenant : gate_run admits_all [] (counting ∷ []) of_tenant 0 ≡ ok tenant
unfolding gate_run run_command_chain scope_key_text is_key_char is_space resolve_scope some_of every
answers_tenant = refl

gate_run-IsAnswered_example :
    (admits_all ≡ returned true)
    × ((w : ℕ) × (resolve_scope (of_tenant w) ≡ returned (some tenant)))
gate_run-IsAnswered_example =
    gate_run-IsAnswered of_tenant admits_all [] (counting ∷ []) 0 tenant (counting-KeepsGate, tt)
      answers_tenant

abbrev items : Text
items = text "/items"

abbrev found : Option (Match ℕ)
found = some (record { scope = some (text "tenant"); cache_key = 1 })

abbrev gate : Gated (ScopeError ℕ) Text
gate = ok tenant

valid : scope_key_text (str tenant) ≡ Topics.ok tenant
unfolding scope_key_text is_key_char is_space some_of every
valid = refl

resolve_topic-IsGood_example : IsGood items (resolve_topic items found gate [])
resolve_topic-IsGood_example = resolve_topic-IsGood items found gate [] valid tt

abbrev stored_items : Text
stored_items = text "@tenant:t1"

writes :
    scoped_write_topic {E = ℕ}
      (text "tenant")
      true
      (some (returned (named (text "tenant") tenant)))
      (of_tenant 0)
    ≡ returned (some stored_items)
unfolding scoped_write_topic carried_topic scoped_topic scope_name scope_key_text is_key_char
    is_space is_scope_char some_of every
writes = refl

is_items : is_viewset_topic items ≡ true
unfolding is_viewset_topic every is_key_char is_space some_of
is_items = refl

reads :
    (resolve_topic {E = ℕ} items found (ok tenant) []).1 ≡ ok (reading items stored_items tenant)
unfolding resolve_topic is_viewset_topic lookup scoped_topic scope_name scope_key_text is_key_char
    is_space is_scope_char every some_of
reads = refl

scoped_write_topic-reading_example : (stored_items ≡ stored_items) ↔ (tenant ≡ tenant)
scoped_write_topic-reading_example =
    scoped_write_topic-reading {E = ℕ} items (text "tenant") tenant tenant stored_items stored_items
      1 (some (returned (named (text "tenant") tenant))) (of_tenant 0) carried valid valid writes
      is_items reads

-- An update of the item 7 at an unscoped viewset.
abbrev execution : Execution ℕ
execution = record {
  action = text "update";
  is_top_level = true;
  config = enabled;
  routed = some items;
  base_path = none;
  scope = none;
  hook = none;
  carried = none;
  resolver = returned none;
  pk_field_names = none ∷ some (text "id") ∷ [];
  self_key = 1;
  injected = [];
}

abbrev Log : Type 0
Log = List (Text × List ℕ)

abbrev updating : Step Log (ScopeError ℕ) (Shaped (Dict Text ℕ))
updating s = (s, returned (one ((text "id", 7) ∷ [])))

abbrev publishing : Text → Op → List ℕ → Step Log (ScopeError ℕ) (Unit {0})
publishing topic op pks s = (s ++ (topic, pks) ∷ [], returned tt)

execute-Came_example :
    Came updating publishing execution (one 7) [] (
      execute
        (noted_run updating publishing)
        (noted_publish updating publishing)
        execution
        (one 7)
        ([], []))
    × (forget updating publishing (
          execute
            (noted_run updating publishing)
            (noted_publish updating publishing)
            execution
            (one 7)
            ([], []))
        ≡ execute updating publishing execution (one 7) [])
execute-Came_example = execute-Came updating publishing execution (one 7) []

published_after :
    execute
      (noted_run updating publishing)
      (noted_publish updating publishing)
      execution
      (one 7)
      ([], [])
    ≡ (
      (
        ((items, 7 ∷ []) ∷ []),
        ran (returned (one ((text "id", 7) ∷ []))) ∷ sent items updated (7 ∷ []) (returned tt) ∷ [],
      ),
      returned (one ((text "id", 7) ∷ [])),
    )
unfolding execute lookup options_for replaced_for resolve_write_topic validate_topic is_valid_topic
    is_viewset_topic every is_key_char is_space topic_for some_of pk_field_for changes_for read_pks
published_after = refl

-- A worker publishes under a carried key only, and never asks the resolver.
worker_without_key :
    write_topic true (record execution { scope = some (text "tenant"); resolver = of_tenant 0 })
    ≡ returned none
unfolding write_topic carried_topic
worker_without_key = refl

web_process :
    write_topic false (record execution { scope = some (text "tenant"); resolver = of_tenant 0 })
    ≡ returned (some stored_items)
unfolding write_topic scoped_write_topic carried_topic resolved_topic resolve_scope scoped_topic
    scope_name scope_key_text is_key_char is_space is_scope_char some_of every
web_process = refl

own_config_first : config_from {E = ℕ} (some disabled) (some enabled) ≡ disabled
unfolding config_from
own_config_first = refl

bulk_pks :
    changes_for {E = ℕ} {K = ℕ} updated
      (text "bulk_update")
      (some (text "id") ∷ [])
      (one 0)
      (many (((text "id", 4) ∷ []) ∷ ((text "id", 5) ∷ []) ∷ []))
    ≡ returned (4 ∷ 5 ∷ [])
unfolding changes_for lookup
bulk_pks = refl
