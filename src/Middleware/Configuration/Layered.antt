-- ===== src/Middleware/Configuration/Layered.antt =====
-- Which layer's configuration an action gets, and which middleware a configuration injects:
-- fastapi_viewsets/action_configuration.py.
use fastapi_viewsets.Prelude.{
  ℕ, Text, lookup, list_eq, nat_eq, if◌then◌else◌, contains, IsKeyed, update, lookup-update,
  or_else, filter, List, [], ◌∷◌, Option, none, some, Bool, true, false, ◌||◌, map, ◌≡◌, refl, ap,
  ◌∙◌, Bool-cases, inl, inr,
}
use fastapi_viewsets.Middleware.Configuration.{
  Identifier, processor, middleware_class, middleware, identifier_eq, Setting, resolve_config_value,
  Configuration, candidate_method_names, Layers, merge_methods, resolve_action_configuration,
  configuration_for, extended, add_extra, extra_middlewares_for,
}

module _ {V : Type 0} where
  -- Each layer holds a key once.
  pub record IsLayered (layers : Layers V) : Type 0 where
    pub of_class_once : IsKeyed layers.of_class
    pub of_method_once : (name : Text) → IsKeyed (layers.of_method name)

  -- The value of a key in the last of the layers that has it.
  abbrev pub last_of :
      (Text → Configuration V) → List Text → Identifier → Option (Setting V) → Option (Setting V)
  last_of of_method [] key found = found
  last_of of_method (candidate ∷ candidates) key found =
      last_of of_method candidates key (or_else (lookup key (of_method candidate)) found)

  lookup-merge_methods :
      (of_method : Text → Configuration V) (candidates : List Text) (merged : Configuration V)
      (key : Identifier)
      → ((name : Text) → IsKeyed (of_method name))
      → lookup key (merge_methods of_method candidates merged)
        ≡ last_of of_method candidates key (lookup key merged)
  unfolding merge_methods
  lookup-merge_methods of_method [] merged key h = refl
  lookup-merge_methods of_method (candidate ∷ candidates) merged key h =
      lookup-merge_methods of_method candidates (update merged (of_method candidate)) key h
      ∙ ap (last_of of_method candidates key)
          (lookup-update key merged (of_method candidate) (h candidate))

  -- A key's configuration at an action is the last one of the settings', the class's, the action method's
  -- and its `perform_*` method's, resolved for the action, where the class's and each method's configuration
  -- hold a key once.
  pub configuration_for-resolve_action_configuration :
      (layers : Layers V) (action_name : Text) (key : Identifier)
      → IsLayered layers
      → configuration_for (resolve_action_configuration layers action_name) (some action_name) key
        ≡ resolve_config_value
            (last_of layers.of_method (candidate_method_names action_name) key (
              or_else
                (lookup key layers.of_class)
                (lookup key layers.default_action_configuration)))
            (some action_name)
  unfolding configuration_for resolve_action_configuration
  configuration_for-resolve_action_configuration layers action_name key h =
      ap (λ found. resolve_config_value found (some action_name))
        (lookup-merge_methods layers.of_method (candidate_method_names action_name)
            (update layers.default_action_configuration layers.of_class) key h.of_method_once
          ∙ ap (last_of layers.of_method (candidate_method_names action_name) key) (
              lookup-update key layers.default_action_configuration layers.of_class
                h.of_class_once))

-- Whether a key names a middleware class that has no global instance.
abbrev pub is_missing : List ℕ → Identifier → Bool
is_missing global_types (processor p) = false
is_missing global_types (middleware_class c) = if contains c global_types then false else true
is_missing global_types (middleware i c) = false

abbrev pub is_instance : Identifier → Bool
is_instance (processor p) = false
is_instance (middleware_class c) = false
is_instance (middleware i c) = true

abbrev pub any_of : (Identifier → Bool) → List Identifier → Bool
any_of p [] = false
any_of p (key ∷ keys) = p key || any_of p keys

add_extra_lem :
    (global_types : List ℕ) (identifier : Identifier) (keys : List Identifier)
    (rest : Option (List Identifier))
    → rest
      ≡ (if any_of (is_missing global_types) keys then none else some (filter is_instance keys))
    → add_extra global_types identifier rest ≡ (
        if any_of (is_missing global_types) (identifier ∷ keys)
        then none
        else some (filter is_instance (identifier ∷ keys)))
add_extra_lem global_types (processor p) keys rest h = h
add_extra_lem global_types (middleware_class c) keys rest h =
    elim (Bool-cases (contains c global_types)) [
      | inl known ↦ rw known h
      | inr unknown ↦ rw unknown refl
    ]
add_extra_lem global_types (middleware i c) keys rest h =
    elim (Bool-cases (any_of (is_missing global_types) keys)) [
      | inl missing ↦ rw missing (ap (extended (middleware i c)) (rw missing at h))
      | inr found ↦ rw found (ap (extended (middleware i c)) (rw found at h))
    ]

-- A configuration injects the middleware instances among its keys, in their order, and is refused exactly
-- where a key is a middleware class without a global instance.
pub extra_middlewares_for-filter :
    {V : Type 0} (global_types : List ℕ) (configuration : Configuration V)
    → let keys = map (λ entry. entry.0) configuration in
      extra_middlewares_for global_types configuration
      ≡ (if any_of (is_missing global_types) keys then none else some (filter is_instance keys))
unfolding extra_middlewares_for
extra_middlewares_for-filter global_types [] = refl
extra_middlewares_for-filter global_types ((identifier, value) ∷ configuration) =
    add_extra_lem global_types identifier (map (λ entry. entry.0) configuration)
      (extra_middlewares_for global_types configuration)
      (extra_middlewares_for-filter global_types configuration)
