-- ===== src/Collection/Examples.antt =====
-- A collection through some operations.
use fastapi_viewsets.Prelude.{
  ℕ, Text, text, lookup, insert, list_eq, nat_eq, [], ◌∷◌, true, ◌≡◌, refl, if◌then◌else◌,
}
use fastapi_viewsets.Listing.Values.{null, pos, Record, read}
use fastapi_viewsets.Listing.Rows.{HasUniqueKeys}
use fastapi_viewsets.Collection.{
  CollectionViewSet, Data, ok, value_beq, updated, apply_partial, container_retrieve,
  container_update, container_add, max_val,
}
use fastapi_viewsets.Collection.Items.{container_update-retrieve}
use fastapi_viewsets.Collection.Keys.{container_add-HasUniqueKeys}

abbrev id : Text
id = text "id"

abbrev name : Text
name = text "name"

abbrev item : ℕ → ℕ → Record
item n v = (id, pos n) ∷ (name, pos v) ∷ []

abbrev viewset : CollectionViewSet
viewset = record {
  container = item 4 40 ∷ item 2 20 ∷ [];
  pk_field = id;
  is_mutable = true;
  autoinc = id ∷ [];
}

unique : HasUniqueKeys id viewset.container
unfolding read lookup
unique = (((λ e. cc), tt), (tt, tt))

there : container_retrieve (pos 2) viewset ≡ ok (item 2 20)
unfolding container_retrieve read lookup
there = refl

-- the third item gets the key 5
adds_run : (container_add ((id, null) ∷ (name, pos 7) ∷ []) viewset).1 ≡ ok (item 5 7)
unfolding container_add max_val read lookup insert
adds_run = refl

abbrev renaming : Data
renaming = record { fields = (name, pos 21) ∷ []; stated = name ∷ [] }

kept : read (updated (item 2 20) renaming true) id ≡ pos 2
unfolding updated apply_partial read lookup insert
kept = refl

container_update-retrieve_example :
    ((container_update (pos 2) renaming true viewset).1 ≡ ok (updated (item 2 20) renaming true))
    × (container_retrieve (pos 4) (container_update (pos 2) renaming true viewset).0 ≡ (
        if value_beq (pos 2) (pos 4)
        then ok (updated (item 2 20) renaming true)
        else container_retrieve (pos 4) viewset))
container_update-retrieve_example =
    container_update-retrieve viewset (pos 2) (pos 4) renaming true (item 2 20) refl there kept

container_add-HasUniqueKeys_example :
    HasUniqueKeys id (container_add ((id, null) ∷ (name, pos 7) ∷ []) viewset).0.container
unfolding read lookup
container_add-HasUniqueKeys_example =
    container_add-HasUniqueKeys viewset ((id, null) ∷ (name, pos 7) ∷ []) refl refl unique
