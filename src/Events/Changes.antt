-- ===== src/Events/Changes.antt =====
-- fastapi_viewsets/events/changes.py: the event that `ChangeEvents` publishes after a write action, and its
-- topic. `E` is the type of exceptions that the code it calls raises.
pub mod Records
pub mod Publishing
pub mod Traces
pub mod Noted
pub mod Called
pub mod Meeting
pub mod Examples
use fastapi_viewsets.Prelude.{
  ℕ, zero, suc, Text, text, Dict, lookup, list_eq, nat_eq, nat_beq, option_eq, ◌==◌, if◌then◌else◌,
  contains, List, [], ◌∷◌, ◌++◌, Option, none, some, Bool, true, false, ◌&&◌, ◌||◌, not, map,
  length, drop,
}
use fastapi_viewsets.Events.Topics.{
  Checked, ScopeKey, scoped_topic, validate_topic, validate_published_topic,
}
use fastapi_viewsets.Events.Topics
use fastapi_viewsets.Events.Scopes.{ScopeError, value_error, type_error, other_error, resolve_scope}
use fastapi_viewsets.Middleware.Chain.{Outcome, returned, raised, Step}

pub data Op : Type 0 where
  created updated deleted : Op

-- `_OPS`
abbrev pub ops : Dict Text Op
ops =
    (text "create", created)
    ∷ (text "bulk_create", created)
    ∷ (text "update", updated)
    ∷ (text "partial_update", updated)
    ∷ (text "bulk_update", updated)
    ∷ (text "bulk_partial_update", updated)
    ∷ (text "destroy", deleted)
    ∷ (text "bulk_destroy", deleted)
    ∷ []

abbrev pub starts_with : Text → Text → Bool
starts_with path [] = true
starts_with [] (c ∷ prefix) = false
starts_with (d ∷ path) (c ∷ prefix) = nat_beq d c && starts_with path prefix

-- `path[len(root_path) : len(root_path) + 1] in ("", "/")`, of the rest of the path
abbrev pub ends_segment : Text → Bool
ends_segment [] = true
ends_segment (c ∷ rest) = nat_beq c b'/'

-- `_path_below_root`
unfoldable pub path_below_root : Text → Text → Text
path_below_root root_path path =
    if not (root_path == [])
      && (starts_with path root_path && ends_segment (drop (length root_path) path))
    then drop (length root_path) path
    else path

-- The value configured for the plugin; `options` is a dict, with whether it has the key `topic`.
pub data Config (E : Type 0) : Type 0 where
  not_configured enabled disabled unreadable unknown_option : Config E
  options : (has_topic : Bool) → Option (Outcome (ScopeError E) Text) → Config E

-- `config_from`
unfoldable pub config_from : {E : Type 0} → Option (Config E) → Option (Config E) → Config E
config_from (some own) of_class = own
config_from none (some config) = config
config_from none none = not_configured

-- The options of a call; a topic is a text, or what its callable comes to.
pub record Options (E : Type 0) : Type 0 where
  pub has_topic : Bool
  pub topic : Option (Outcome (ScopeError E) Text)

-- The entry of `SCOPE_CONTEXT_KEY`: absent, or what awaiting it comes to: None, a name with a key, or another.
pub data Entry : Type 0 where
  nothing : Entry
  named : Text → Text → Entry
  other_entry : Entry

-- What `execute` reads of an execution. `hook` is a subclass's `topic_for`; `resolver` what the scope's
-- resolver answers.
pub record Execution (E : Type 0) : Type 0 where
  pub action : Text
  pub is_top_level : Bool
  pub config : Config E
  pub routed : Option Text
  pub base_path : Option Text
  pub scope : Option Text
  pub hook : Option (Outcome (ScopeError E) Text)
  pub carried : Option (Outcome (ScopeError E) Entry)
  pub resolver : Outcome E (Option ScopeKey)
  pub pk_field_names : List (Option Text)
  -- this instance, and the instances that configure the action
  pub self_key : ℕ
  pub injected : List ℕ

-- `replaced_for`: `injected` are the instances that configure the action
unfoldable pub replaced_for : ℕ → List ℕ → Bool
replaced_for self [] = false
replaced_for self (key ∷ injected) = not (contains self (key ∷ injected))

abbrev pub routed_or : Option Text → Option Text → Option Text
routed_or none base_path = base_path
routed_or (some routed) base_path = some routed

module _ {E : Type 0} where
  -- `options_for`; none where the plugin is disabled
  unfoldable pub options_for : Config E → Outcome (ScopeError E) (Option (Options E))
  options_for not_configured = returned (some (record { has_topic = false; topic = none }))
  options_for enabled = returned (some (record { has_topic = false; topic = none }))
  options_for disabled = returned none
  options_for unreadable = raised type_error
  options_for unknown_option = raised type_error
  options_for (options has_topic topic) =
      returned (some (record { has_topic = has_topic; topic = topic }))

  abbrev pub checked : Checked Text → Outcome (ScopeError E) Text
  checked (Topics.ok topic) = returned topic
  checked Topics.value_error = raised value_error
  checked Topics.type_error = raised type_error

  abbrev pub then_ :
      {A B : Type 0}
      → Outcome (ScopeError E) A
      → (A → Outcome (ScopeError E) B)
      → Outcome (ScopeError E) B
  then_ (returned a) f = f a
  then_ (raised error) f = raised error

  abbrev pub or_base_path : Option Text → Outcome (ScopeError E) Text
  or_base_path none = raised type_error
  or_base_path (some base_path) = returned base_path

  abbrev pub or_routed : Option Text → Option Text → Outcome (ScopeError E) Text
  or_routed none base_path = or_base_path base_path
  or_routed (some routed) base_path = returned routed

  abbrev pub or_configured :
      Option (Outcome (ScopeError E) Text) → Execution E → Outcome (ScopeError E) Text
  or_configured (some topic) x = topic
  or_configured none x = or_routed (if x.is_top_level then x.routed else none) x.base_path

  abbrev pub own_topic :
      Option (Outcome (ScopeError E) Text) → Options E → Execution E → Outcome (ScopeError E) Text
  own_topic (some hook) given x = hook
  own_topic none given x = or_configured given.topic x

  -- `topic_for`, a subclass's where there is one
  unfoldable pub topic_for : Options E → Execution E → Outcome (ScopeError E) Text
  topic_for given x = own_topic x.hook given x

  abbrev pub as_some : Checked Text → Outcome (ScopeError E) (Option (Option Text))
  as_some topic = then_ (checked topic) (λ t. returned (some (some t)))

  abbrev pub entry_topic : Text → Entry → Outcome (ScopeError E) (Option (Option Text))
  entry_topic name nothing = returned (some none)
  entry_topic name (named name' key) =
      if name' == name then as_some (scoped_topic name (Topics.str key)) else returned none
  entry_topic name other_entry = returned none

  -- `_carried_topic`; none for `_NOT_CARRIED`
  unfoldable pub carried_topic :
      Text → Option (Outcome (ScopeError E) Entry) → Outcome (ScopeError E) (Option (Option Text))
  carried_topic name none = returned none
  carried_topic name (some carried) = then_ carried (entry_topic name)

  abbrev pub keyed_topic : Text → Option Text → Outcome (ScopeError E) (Option Text)
  keyed_topic name none = returned none
  keyed_topic name (some key) =
      then_ (checked (scoped_topic name (Topics.str key))) (λ t. returned (some t))

  -- the store topic of the resolver's key
  unfoldable pub resolved_topic :
      Text → Outcome E (Option ScopeKey) → Outcome (ScopeError E) (Option Text)
  resolved_topic name resolver = then_ (resolve_scope resolver) (keyed_topic name)

  abbrev pub or_resolved :
      Text
      → Outcome E (Option ScopeKey)
      → Option (Option Text)
      → Outcome (ScopeError E) (Option Text)
  or_resolved name resolver none = resolved_topic name resolver
  or_resolved name resolver (some topic) = returned topic

  -- `_scoped_write_topic`
  unfoldable pub scoped_write_topic :
      Text
      → Bool
      → Option (Outcome (ScopeError E) Entry)
      → Outcome E (Option ScopeKey)
      → Outcome (ScopeError E) (Option Text)
  unfolding carried_topic resolved_topic
  scoped_write_topic name carries carried resolver =
      if carries
      then then_ (carried_topic name carried) (or_resolved name resolver)
      else resolved_topic name resolver

  abbrev pub hooked :
      Option (Outcome (ScopeError E) Text)
      → Text
      → Execution E
      → Outcome (ScopeError E) (Option Text)
  hooked (some hook) name x =
      then_ hook
        (λ topic. then_ (checked (validate_published_topic topic)) (λ t. returned (some t)))
  hooked none name x = scoped_write_topic name x.is_top_level x.carried x.resolver

  abbrev pub scoped_or :
      Option Text → Options E → Execution E → Outcome (ScopeError E) (Option Text)
  scoped_or none given x =
      then_ (topic_for given x)
        (λ topic. then_ (checked (validate_topic topic)) (λ t. returned (some t)))
  scoped_or (some name) given x =
      if given.has_topic then raised type_error else hooked x.hook name x

  -- `_resolve_topic`
  unfoldable pub resolve_write_topic :
      Options E → Execution E → Outcome (ScopeError E) (Option Text)
  unfolding topic_for scoped_write_topic
  resolve_write_topic given x = scoped_or x.scope given x

  abbrev pub only_carried : Option (Option Text) → Outcome (ScopeError E) (Option Text)
  only_carried none = returned none
  only_carried (some topic) = returned topic

  -- `write_topic`; `in_worker` is whether an executor runs the call
  unfoldable pub write_topic : Bool → Execution E → Outcome (ScopeError E) (Option Text)
  unfolding scoped_write_topic
  write_topic in_worker x = elim x.scope [
    | none ↦ returned (routed_or x.routed x.base_path)
    | some name ↦
        if in_worker
        then then_ (carried_topic name x.carried) only_carried
        else scoped_write_topic name true x.carried x.resolver
  ]
