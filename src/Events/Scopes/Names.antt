-- ===== src/Events/Scopes/Names.antt =====
-- The declared scopes of fastapi_viewsets/events/scopes.py: `event_scope`, `scope_of`, `reset_event_scopes`. A
-- class stands for itself by a number; `R` is the type of resolvers.
pub mod Links
pub mod Families
pub mod Examples
use fastapi_viewsets.Prelude.{
  ℕ, Text, text, Dict, lookup, insert, list_eq, nat_eq, ◌==◌, nat_beq, contains, if◌then◌else◌,
  List, [], ◌∷◌, ◌++◌, Option, none, some, Bool, true, false, ◌&&◌, ◌||◌, not,
}
use fastapi_viewsets.Events.Topics.{
  Checked, ok, value_error, type_error, ScopeKey, scope_name, scoped_topic,
}
use fastapi_viewsets.SubViewsets.{mounted_under}

-- `EventScope`
pub record EventScope (R : Type 0) : Type 0 where
  pub name : Text
  pub resolver : R

-- `EventScope.topic`
unfoldable pub topic : {R : Type 0} → EventScope R → ScopeKey → Checked Text
topic scope key = scoped_topic scope.name key

-- What Python knows of the classes: the module and the qualified name of each, its MRO, which starts with
-- itself, and the classes mounted on it.
pub record Classes : Type 0 where
  pub module_of : ℕ → Text
  pub qualname_of : ℕ → Text
  pub mro : ℕ → List ℕ
  pub mounts : ℕ → List ℕ

-- `_names` and `_sharers`, and the `__event_scope__` of each class that sets one
pub record EventScopes (R : Type 0) : Type 0 where
  pub names : Dict Text ℕ
  pub sharers : Dict Text (List ℕ)
  pub scopes : Dict ℕ (EventScope R)

extend_part : ℕ → List Text → List Text
extend_part c [] = (c ∷ []) ∷ []
extend_part c (part ∷ parts) = (c ∷ part) ∷ parts

-- `qualname.split(".")`
split_dots : Text → List Text
unfolding extend_part
split_dots [] = [] ∷ []
split_dots (c ∷ cs) =
    let rest = split_dots cs in if nat_beq c b'.' then [] ∷ rest else extend_part c rest

-- `other in set(mounted_under(cls))`; the walk takes `fuel` rounds at most
abbrev pub is_in : ℕ → Option (List ℕ) → Bool
is_in other none = false
is_in other (some found) = contains other found

abbrev pub or_nobody : Option (List ℕ) → List ℕ
or_nobody none = []
or_nobody (some sharers) = sharers

-- `cls.__event_scope__ = EventScope(scope_name, resolver)`
abbrev pub scoped : {R : Type 0} → ℕ → Text → R → EventScopes R → EventScopes R × Checked (Unit {0})
scoped cls name resolver s =
    (record s { scopes = insert cls (record { name = name; resolver = resolver }) s.scopes }, ok tt)

module _ (classes : Classes) where
  -- `issubclass(cls, other)`
  abbrev pub is_subclass : ℕ → ℕ → Bool
  is_subclass cls other = contains other (classes.mro cls)

  -- `_is_local`
  unfoldable pub is_local : ℕ → Bool
  unfolding split_dots
  is_local cls = contains (text "<locals>") (split_dots (classes.qualname_of cls))

  -- `_reloaded`
  unfoldable pub is_reloaded : ℕ → ℕ → Bool
  unfolding is_local
  is_reloaded cls holder =
      not (cls == holder)
      && (classes.module_of cls == classes.module_of holder
          && classes.qualname_of cls == classes.qualname_of holder)
      && not (is_local cls)

  -- `any(issubclass(cls, other) for other in sharers)`
  unfoldable pub extends_any : ℕ → List ℕ → Bool
  extends_any cls [] = false
  extends_any cls (other ∷ others) = is_subclass cls other || extends_any cls others

  -- `name if name is not None else f"{cls.__module__}.{cls.__qualname__}"`
  abbrev pub or_path : Option Text → ℕ → Text
  or_path none cls = classes.module_of cls ++ b'.' ∷ classes.qualname_of cls
  or_path (some name) cls = name

module _ (fuel : ℕ) (classes : Classes) where
  -- `_mount_related`
  unfoldable pub mount_related : ℕ → ℕ → Bool
  mount_related cls other =
      is_in other (mounted_under classes.mounts fuel cls)
      || is_in cls (mounted_under classes.mounts fuel other)

  -- `any(_mount_related(cls, other) for other in ...)`
  unfoldable pub related_to_any : ℕ → List ℕ → Bool
  unfolding mount_related
  related_to_any cls [] = false
  related_to_any cls (other ∷ others) = mount_related cls other || related_to_any cls others

  module _ {R : Type 0} where
    -- a class that is not the holder, nor extends it, with the sharers as `setdefault` reads them
    abbrev pub shared_by :
        ℕ → Text → R → ℕ → List ℕ → EventScopes R → EventScopes R × Checked (Unit {0})
    shared_by cls name resolver holder sharers s =
        if extends_any classes cls sharers
        then scoped cls name resolver (record s { sharers = insert name sharers s.sharers })
        else (if related_to_any cls (holder ∷ sharers)
            then scoped cls name resolver
                (record s { sharers = insert name (sharers ++ cls ∷ []) s.sharers })
            else (record s { sharers = insert name sharers s.sharers }, value_error))

    -- the branches of the decorator, by the class that holds the name
    abbrev pub declared_at :
        Option ℕ → ℕ → Text → R → EventScopes R → EventScopes R × Checked (Unit {0})
    declared_at none cls name resolver s =
        scoped cls name resolver (record s { names = insert name cls s.names })
    declared_at (some holder) cls name resolver s =
        if is_reloaded classes cls holder
        then scoped cls name resolver (record s { names = insert name cls s.names })
        else (if cls == holder || is_subclass classes cls holder
            then scoped cls name resolver s
            else shared_by cls name resolver holder (or_nobody (lookup name s.sharers)) s)

    -- the decorator once the name is checked
    abbrev pub declared : Checked Text → ℕ → R → EventScopes R → EventScopes R × Checked (Unit {0})
    declared value_error cls resolver s = (s, value_error)
    declared type_error cls resolver s = (s, type_error)
    declared (ok name) cls resolver s = declared_at (lookup name s.names) cls name resolver s
        -- `event_scope`

    unfoldable pub event_scope :
        R → Option Text → ℕ → EventScopes R → EventScopes R × Checked (Unit {0})
    unfolding is_reloaded extends_any related_to_any
    event_scope resolver name cls s =
        declared (scope_name (or_path classes name cls)) cls resolver s

module _ {R : Type 0} (classes : Classes) where
  abbrev pub first_scope : List ℕ → EventScopes R → Option (EventScope R)
  first_scope [] s = none
  first_scope (cls ∷ mro) s = elim (lookup cls s.scopes) [
    | none ↦ first_scope mro s
    | some scope ↦ some scope
  ]

  -- `scope_of`: the attribute of the first class of the MRO that sets it
  unfoldable pub scope_of : ℕ → EventScopes R → Option (EventScope R)
  scope_of cls s = first_scope (classes.mro cls) s

-- `reset_event_scopes`: the classes keep their scopes
unfoldable pub reset_event_scopes : {R : Type 0} → EventScopes R → EventScopes R
reset_event_scopes s = record s { names = []; sharers = [] }
