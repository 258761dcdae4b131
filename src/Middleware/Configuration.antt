-- ===== src/Middleware/Configuration.antt =====
-- fastapi_viewsets/action_configuration.py: the configuration of an action, merged from the settings, the
-- viewset's class and the action's methods, with `ByAction` and `Context.configuration_for` of
-- fastapi_viewsets/context/__init__.py. `V` is the type of configured values.
pub mod Layered
pub mod Examples
use fastapi_viewsets.Prelude.{
  ℕ, Text, text, Dict, lookup, list_eq, nat_eq, nat_beq, Equality, ◌==◌, if◌then◌else◌, contains,
  update, or_else, List, [], ◌∷◌, Option, none, some, Bool, true, false, ◌&&◌, ◌≡◌, ◌↔◌, arith,
}

-- A configuration's key: a context processor, a `Middleware` class, or an instance of one.
pub data Identifier : Type 0 where
  processor : ℕ → Identifier
  middleware_class : ℕ → Identifier
  middleware : ℕ → ℕ → Identifier

abbrev pub identifier_beq : Identifier → Identifier → Bool
identifier_beq (processor a) (processor b) = nat_beq a b
identifier_beq (middleware_class a) (middleware_class b) = nat_beq a b
identifier_beq (middleware a c) (middleware b d) = nat_beq a b && nat_beq c d
identifier_beq _ _ = false

pub identifier_beq_iff : (a b : Identifier) → (identifier_beq a b ≡ true) ↔ (a ≡ b)
identifier_beq_iff (processor a) (processor b) = ground arith
identifier_beq_iff (processor a) (middleware_class b) = ground arith
identifier_beq_iff (processor a) (middleware b d) = ground arith
identifier_beq_iff (middleware_class a) (processor b) = ground arith
identifier_beq_iff (middleware_class a) (middleware_class b) = ground arith
identifier_beq_iff (middleware_class a) (middleware b d) = ground arith
identifier_beq_iff (middleware a c) (processor b) = ground arith
identifier_beq_iff (middleware a c) (middleware_class b) = ground arith
identifier_beq_iff (middleware a c) (middleware b d) = ground arith

instance abbrev pub identifier_eq : Equality Identifier
identifier_eq = record { same = identifier_beq; same_iff = identifier_beq_iff }

-- A configured value, or one that varies by action, `ByAction(default, **by_action)`.
pub data Setting (V : Type 0) : Type 0 where
  plain : V → Setting V
  by_action : Option V → Dict Text V → Setting V

-- `_PERFORM_METHOD_BY_ACTION`
abbrev pub perform_method_by_action : Dict Text Text
perform_method_by_action =
    (text "create", text "perform_create")
    ∷ (text "bulk_create", text "perform_bulk_create")
    ∷ (text "list_items", text "perform_list")
    ∷ (text "retrieve", text "perform_retrieve")
    ∷ (text "update", text "perform_update")
    ∷ (text "partial_update", text "perform_update")
    ∷ (text "bulk_update", text "perform_bulk_update")
    ∷ (text "bulk_partial_update", text "perform_bulk_update")
    ∷ (text "destroy", text "perform_destroy")
    ∷ (text "bulk_destroy", text "perform_bulk_destroy")
    ∷ (text "lookup", text "perform_lookup")
    ∷ []

module _ {V : Type 0} where
  -- `ByAction.resolve`
  abbrev pub resolve : Option V → Dict Text V → Option Text → Option V
  resolve default values none = default
  resolve default values (some action_name) = or_else (lookup action_name values) default

  -- `_resolve_config_value`
  unfoldable pub resolve_config_value : Option (Setting V) → Option Text → Option V
  resolve_config_value none action_name = none
  resolve_config_value (some (plain value)) action_name = some value
  resolve_config_value (some (by_action default values)) action_name =
      resolve default values action_name

abbrev pub Configuration : Type 0 → Type 0
Configuration V = Dict Identifier (Setting V)

abbrev pub with_perform : Text → Option Text → List Text
with_perform action_name none = action_name ∷ []
with_perform action_name (some perform_name) = action_name ∷ perform_name ∷ []

-- `_candidate_method_names`
unfoldable pub candidate_method_names : Text → List Text
candidate_method_names action_name =
    with_perform action_name (lookup action_name perform_method_by_action)

-- What carries configuration: the settings, the class, and each of its methods by name.
pub record Layers (V : Type 0) : Type 0 where
  pub default_action_configuration : Configuration V
  pub of_class : Configuration V
  pub of_method : Text → Configuration V

abbrev pub extended : Identifier → Option (List Identifier) → Option (List Identifier)
extended identifier none = none
extended identifier (some extras) = some (identifier ∷ extras)

-- one turn of the loop of `extra_middlewares_for`; none for its `ValueError`
abbrev pub add_extra : List ℕ → Identifier → Option (List Identifier) → Option (List Identifier)
add_extra global_types (processor p) rest = rest
add_extra global_types (middleware_class c) rest = if contains c global_types then rest else none
add_extra global_types (middleware i c) rest = extended (middleware i c) rest

module _ {V : Type 0} where
  -- the loop over the candidates; an empty configuration changes nothing
  unfoldable pub merge_methods :
      (Text → Configuration V) → List Text → Configuration V → Configuration V
  merge_methods of_method [] merged = merged
  merge_methods of_method (candidate ∷ candidates) merged =
      merge_methods of_method candidates (update merged (of_method candidate))

  -- `resolve_action_configuration`
  unfoldable pub resolve_action_configuration : Layers V → Text → Configuration V
  unfolding candidate_method_names merge_methods
  resolve_action_configuration layers action_name =
      merge_methods layers.of_method (candidate_method_names action_name)
        (update layers.default_action_configuration layers.of_class)

  -- `Context.configuration_for`
  unfoldable pub configuration_for : Configuration V → Option Text → Identifier → Option V
  unfolding resolve_config_value
  configuration_for configuration action_name identifier =
      resolve_config_value (lookup identifier configuration) action_name

  -- `extra_middlewares_for`
  unfoldable pub extra_middlewares_for : List ℕ → Configuration V → Option (List Identifier)
  extra_middlewares_for global_types [] = some []
  extra_middlewares_for global_types ((identifier, value) ∷ configuration) =
      add_extra global_types identifier (extra_middlewares_for global_types configuration)
