-- ===== src/Events/Changes/Records.antt =====
-- The records that an action changed, by their pks: `changes_for` of fastapi_viewsets/events/changes.py.
use fastapi_viewsets.Prelude.{
  Text, text, Dict, lookup, list_eq, nat_eq, option_eq, contains, List, [], ◌∷◌, Option, none, some,
  Bool, true, false,
}
use fastapi_viewsets.Events.Scopes.{ScopeError, type_error}
use fastapi_viewsets.Events.Changes.{Op, created, updated, deleted, then_}
use fastapi_viewsets.Middleware.Chain.{Outcome, returned, raised}

-- `_BULK_ACTIONS`
abbrev pub bulk_actions : List Text
bulk_actions =
    text "bulk_create" ∷ text "bulk_update" ∷ text "bulk_partial_update" ∷ text "bulk_destroy" ∷ []

module _ {E : Type 0} where
  -- `pk_field_for`: the first of the names that is there
  unfoldable pub pk_field_for : List (Option Text) → Outcome (ScopeError E) Text
  pk_field_for [] = raised type_error
  pk_field_for (none ∷ names) = pk_field_for names
  pk_field_for (some name ∷ names) = returned name

-- The pk argument of a call, or the body of its result: one, or a list.
pub data Shaped (A : Type 0) : Type 0 where
  one : A → Shaped A
  many : List A → Shaped A

module _ {E : Type 0} where
  -- `pk if bulk else [pk]` and its like, read as a list; a list where one value is due is not modelled
  abbrev pub listed : {A : Type 0} → Bool → Shaped A → Outcome (ScopeError E) (List A)
  listed true (many items) = returned items
  listed true (one a) = raised type_error
  listed false (one a) = returned (a ∷ [])
  listed false (many items) = raised type_error

module _ {E K : Type 0} where
  abbrev pub pk_at : Option K → Outcome (ScopeError E) K
  pk_at none = raised type_error
  pk_at (some pk) = returned pk

  -- `_read_pk` of each record
  unfoldable pub read_pks : Text → List (Dict Text K) → Outcome (ScopeError E) (List K)
  read_pks field [] = returned []
  read_pks field (record_ ∷ records) =
      then_ (pk_at (lookup field record_))
        (λ pk. then_ (read_pks field records) (λ pks. returned (pk ∷ pks)))

  -- `changes_for`
  unfoldable pub changes_for :
      Op
      → Text
      → List (Option Text)
      → Shaped K
      → Shaped (Dict Text K)
      → Outcome (ScopeError E) (List K)
  unfolding read_pks pk_field_for
  changes_for deleted action names pk body = listed (contains action bulk_actions) pk
  changes_for created action names pk body =
      then_ (pk_field_for names)
        (λ field. then_ (listed (contains action bulk_actions) body) (read_pks field))
  changes_for updated action names pk body =
      then_ (pk_field_for names)
        (λ field. then_ (listed (contains action bulk_actions) body) (read_pks field))
