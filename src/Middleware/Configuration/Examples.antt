-- ===== src/Middleware/Configuration/Examples.antt =====
-- The configuration of an action on concrete layers.
use fastapi_viewsets.Prelude.{
  ℕ, Text, text, lookup, list_eq, nat_eq, ◌==◌, if◌then◌else◌, or_else, filter, update, insert,
  IsKeyed, lookup-nil, Bool-cases, inl, inr, [], ◌∷◌, some, map, ◌≡◌, refl,
}
use fastapi_viewsets.Middleware.Configuration.{
  processor, middleware_class, middleware, identifier_eq, plain, by_action, Configuration, Layers,
  resolve_action_configuration, configuration_for, extra_middlewares_for, resolve_config_value,
  candidate_method_names,
}
use fastapi_viewsets.Middleware.Configuration.Layered.{
  IsLayered, last_of, configuration_for-resolve_action_configuration, is_instance,
  extra_middlewares_for-filter,
}

abbrev of_create : Text → Configuration ℕ
of_create name = if name == text "perform_create" then (middleware_class 1, plain 9) ∷ [] else []

abbrev layers : Layers ℕ
layers = record {
  default_action_configuration = (middleware_class 1, plain 1) ∷ (processor 0, plain 2) ∷ [];
  of_class = (middleware_class 1, by_action (some 5) ((text "lookup", 6) ∷ [])) ∷ [];
  of_method = of_create;
}

of_method_wins :
    configuration_for
      (resolve_action_configuration layers (text "create"))
      (some (text "create"))
      (middleware_class 1)
    ≡ some 9
unfolding configuration_for resolve_action_configuration lookup update insert
of_method_wins = refl

varies_by_action :
    configuration_for
      (resolve_action_configuration layers (text "lookup"))
      (some (text "lookup"))
      (middleware_class 1)
    ≡ some 6
unfolding configuration_for resolve_action_configuration lookup update insert
varies_by_action = refl

of_create-once : (name : Text) → IsKeyed (of_create name)
of_create-once name = elim (Bool-cases (name == text "perform_create")) [
  | inl hit ↦ rw hit (lookup-nil (middleware_class 1), tt)
  | inr miss ↦ rw miss tt
]

layers-IsLayered : IsLayered layers
layers-IsLayered = record {
  of_class_once = (lookup-nil (middleware_class 1), tt);
  of_method_once = of_create-once;
}

configuration_for-resolve_action_configuration_example :
    configuration_for
      (resolve_action_configuration layers (text "create"))
      (some (text "create"))
      (middleware_class 1)
    ≡ resolve_config_value
        (last_of of_create (candidate_method_names (text "create")) (middleware_class 1) (
          or_else
            (lookup (middleware_class 1) layers.of_class)
            (lookup (middleware_class 1) layers.default_action_configuration)))
        (some (text "create"))
configuration_for-resolve_action_configuration_example =
    configuration_for-resolve_action_configuration layers (text "create") (middleware_class 1)
      layers-IsLayered

abbrev injected : Configuration ℕ
injected = (middleware 4 7, plain 1) ∷ (middleware_class 1, plain 2) ∷ (processor 0, plain 3) ∷ []

extra_middlewares_for-filter_example :
    extra_middlewares_for (1 ∷ []) injected
    ≡ some (filter is_instance (map (λ entry. entry.0) injected))
extra_middlewares_for-filter_example = extra_middlewares_for-filter (1 ∷ []) injected
