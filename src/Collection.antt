-- ===== src/Collection.antt =====
-- fastapi_viewsets/collection_viewset.py over a sequence of pydantic models: `CollectionViewSet` with a list
-- as its container. A model is the record of its fields.
pub mod Items
pub mod Keys
pub mod Examples
use fastapi_viewsets.Prelude.{
  ℕ, zero, suc, ◌+◌, Text, Dict, lookup, insert, list_eq, nat_eq, Equality, ◌==◌, ltb, nat_beq,
  if◌then◌else◌, List, [], ◌∷◌, ◌++◌, Option, none, some, Bool, true, false, not, ◌≡◌, ◌↔◌, refl,
  arith, ap, list_beq, list_beq_sound, beq_refl, beq-eq,
}
use fastapi_viewsets.Listing.Values.{Value, null, pos, negsuc, str, Record, read}

-- `==` of two values
abbrev pub value_beq : Value → Value → Bool
value_beq null null = true
value_beq (pos a) (pos b) = nat_beq a b
value_beq (negsuc a) (negsuc b) = nat_beq a b
value_beq (str a) (str b) = a == b
value_beq _ _ = false

-- `CollectionViewSet`: its container, whether that is mutable, and the fields that its model marks
-- `autoinc_int`
pub record CollectionViewSet : Type 0 where
  pub container : List Record
  pub pk_field : Text
  pub is_mutable : Bool
  pub autoinc : List Text

-- The model of a request: its fields, and the names of those that it states.
pub record Data : Type 0 where
  pub fields : Record
  pub stated : List Text

-- What an operation answers: `NotFoundError` and `ReadOnlyCollectionError` are its errors.
pub data Answer (A : Type 0) : Type 0 where
  ok : A → Answer A
  not_found : Value → Answer A
  read_only : Answer A

-- `_get_pk`
abbrev pub get_pk : Text → Record → Value
get_pk pk_field item = read item pk_field

-- `_apply_partial`
unfoldable pub apply_partial : Record → Record → List Text → Record
apply_partial item fields [] = item
apply_partial item fields (name ∷ names) =
    apply_partial (insert name (read fields name) item) fields names

-- the item as an update leaves it
unfoldable pub updated : Record → Data → Bool → Record
unfolding apply_partial
updated item data_ partial =
    if partial then apply_partial item data_.fields data_.stated else data_.fields

-- the loop that `container_retrieve` runs
unfoldable pub find : Text → Value → List Record → Option Record
find pk_field pk [] = none
find pk_field pk (item ∷ items) =
    let rest = find pk_field pk items in
    if value_beq (get_pk pk_field item) pk then some item else rest

-- the loop of `_update_sequence`
unfoldable pub update_items : Text → Value → Data → Bool → List Record → List Record
unfolding updated
update_items pk_field pk data_ partial [] = []
update_items pk_field pk data_ partial (item ∷ items) =
    let rest = update_items pk_field pk data_ partial items in
    if value_beq (get_pk pk_field item) pk then updated item data_ partial ∷ items else item ∷ rest

-- the loop of `_delete_sequence`
unfoldable pub delete_items : Text → Value → List Record → List Record
delete_items pk_field pk [] = []
delete_items pk_field pk (item ∷ items) =
    let rest = delete_items pk_field pk items in
    if value_beq (get_pk pk_field item) pk then items else item ∷ rest

abbrev pub found_or : {A : Type 0} → Value → Option A → Answer A
found_or pk none = not_found pk
found_or pk (some a) = ok a

-- `container_list`
unfoldable pub container_list : CollectionViewSet → List Record
container_list c = c.container

-- `container_retrieve`
unfoldable pub container_retrieve : Value → CollectionViewSet → Answer Record
unfolding find
container_retrieve pk c = found_or pk (find c.pk_field pk c.container)

abbrev pub with_items : List Record → CollectionViewSet → CollectionViewSet
with_items items c = record c { container = items }

abbrev pub update_found :
    Option Record → Value → Data → Bool → CollectionViewSet → CollectionViewSet × Answer Record
update_found none pk data_ partial c = (c, not_found pk)
update_found (some item) pk data_ partial c = (
  with_items (update_items c.pk_field pk data_ partial c.container) c,
  ok (updated item data_ partial),
)

-- `container_update`
unfoldable pub container_update :
    Value → Data → Bool → CollectionViewSet → CollectionViewSet × Answer Record
unfolding update_items find
container_update pk data_ partial c =
    if c.is_mutable
    then update_found (find c.pk_field pk c.container) pk data_ partial c
    else (c, read_only)

abbrev pub delete_found :
    Option Record → Value → CollectionViewSet → CollectionViewSet × Answer (Unit {0})
delete_found none pk c = (c, not_found pk)
delete_found (some item) pk c = (with_items (delete_items c.pk_field pk c.container) c, ok tt)

-- `container_delete`
unfoldable pub container_delete : Value → CollectionViewSet → CollectionViewSet × Answer (Unit {0})
unfolding delete_items find
container_delete pk c =
    if c.is_mutable then delete_found (find c.pk_field pk c.container) pk c else (c, read_only)

-- `bool(value)`
abbrev pub truthy : Value → Bool
truthy null = false
truthy (pos zero) = false
truthy (pos (suc n)) = true
truthy (negsuc n) = true
truthy (str []) = false
truthy (str (c ∷ cs)) = true

abbrev pub larger : ℕ → Value → ℕ
larger max_val (pos n) = if ltb max_val n then n else max_val
larger max_val _ = max_val

-- the loop that finds the largest value of a field in the container
unfoldable pub max_val : Text → ℕ → List Record → ℕ
max_val field largest [] = largest
max_val field largest (item ∷ items) = max_val field (larger largest (read item field)) items

-- `_handle_autoinc`
unfoldable pub handle_autoinc : List Text → List Record → Record → Record
unfolding max_val
handle_autoinc [] items fields = fields
handle_autoinc (name ∷ names) items fields = handle_autoinc names items (
    if truthy (read fields name)
    then fields
    else insert name (pos (max_val name 0 items + 1)) fields)

-- `container_add`
unfoldable pub container_add : Record → CollectionViewSet → CollectionViewSet × Answer Record
unfolding handle_autoinc
container_add fields c =
    let added = handle_autoinc c.autoinc c.container fields in
    if c.is_mutable then (with_items (c.container ++ added ∷ []) c, ok added) else (c, read_only)

abbrev and_added :
    CollectionViewSet × Answer Record
    → CollectionViewSet × Answer (List Record)
    → CollectionViewSet × Answer (List Record)
and_added (c, not_found pk) rest = (c, not_found pk)
and_added (c, read_only) rest = (c, read_only)
and_added (c, ok item) (c', ok items) = (c', ok (item ∷ items))
and_added (c, ok item) (c', not_found pk) = (c', not_found pk)
and_added (c, ok item) (c', read_only) = (c', read_only)

-- `perform_bulk_create`: the items added before an error stay
unfoldable pub perform_bulk_create :
    List Record → CollectionViewSet → CollectionViewSet × Answer (List Record)
unfolding container_add
perform_bulk_create [] c = (c, ok [])
perform_bulk_create (fields ∷ rest) c =
    let added = container_add fields c in and_added added (perform_bulk_create rest added.0)
