-- ===== src/Events/Scopes/Names/Examples.antt =====
-- Classes that declare one scope name.
use fastapi_viewsets.Prelude.{
  ℕ, text, lookup, insert, list_eq, nat_eq, ◌==◌, if◌then◌else◌, List, [], ◌∷◌, some, ◌≡◌, refl,
}
use fastapi_viewsets.Events.Topics.{
  value_error, scope_name, some_of, every, is_scope_char, is_key_char, is_space,
}
use fastapi_viewsets.SubViewsets.{mounted_under, search_all, visit, visit_one}
use fastapi_viewsets.Events.Scopes.Names.{
  EventScope, Classes, EventScopes, is_reloaded, is_local, mount_related, extends_any,
  related_to_any, event_scope,
}
use fastapi_viewsets.Events.Scopes.Names.Links.{Family}
use fastapi_viewsets.Events.Scopes.Names.Families.{
  Declaration, declare_all, nothing_declared, declare_all-Family,
}

-- Class 1 mounts class 2; class 3 extends class 1; class 4 stands alone.
abbrev mro : ℕ → List ℕ
mro cls = if cls == 3 then 3 ∷ 1 ∷ [] else cls ∷ []

abbrev mounts : ℕ → List ℕ
mounts cls = if cls == 1 then 2 ∷ [] else []

abbrev classes : Classes
classes = record {
  module_of = λ cls. text "app";
  qualname_of = λ cls. cls ∷ [];
  mro = mro;
  mounts = mounts;
}

abbrev declaration : ℕ → Declaration ℕ
declaration cls = record { mounts = mounts; resolver = 0; name = some (text "tenant"); cls = cls }

abbrev declarations : List (Declaration ℕ)
declarations = declaration 1 ∷ declaration 2 ∷ declaration 3 ∷ declaration 4 ∷ []

abbrev declared : EventScopes ℕ
declared = declare_all 5 classes declarations nothing_declared

abbrev tenant : EventScope ℕ
tenant = record { name = text "tenant"; resolver = 0 }

-- A mounted class and a subclass share the name; the fourth class does not.
declared_run :
    (lookup 2 declared.scopes ≡ some tenant)
    × (lookup 3 declared.scopes ≡ some tenant)
    × ((event_scope 5 classes 0 (some (text "tenant")) 4 declared).1 ≡ value_error)
unfolding declare_all event_scope is_reloaded extends_any related_to_any is_local mount_related
    mounted_under search_all visit visit_one lookup insert scope_name some_of every is_scope_char
    is_key_char is_space
declared_run = (refl, refl, refl)

declare_all-Family_example : Family classes 2 3
declare_all-Family_example =
    declare_all-Family 5 classes declarations 2 3 tenant tenant
      (λ c m k. k, (λ c m k. k, (λ c m k. k, (λ c m k. k, tt)))) declared_run.0 declared_run.1 refl
