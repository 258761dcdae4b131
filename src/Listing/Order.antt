-- ===== src/Listing/Order.antt =====
-- fastapi_viewsets/cursor.py: the ordering keys, the comparison in sort order and the predicate of a
-- cursor; and `sort_list` of fastapi_viewsets/mixins.py.
use fastapi_viewsets.Prelude.{
  Text, list_eq, nat_eq, ◌==◌, if◌then◌else◌, List, [], ◌∷◌, ◌++◌, Option, none, some, Bool, true,
  false, not,
}
use fastapi_viewsets.Listing.Values.{
  Value, null, Ordering, less, equal, greater, compare_values, lex, Record, read,
}

-- `CursorKeys`: (field name, descending)
abbrev pub CursorKeys : Type 0
CursorKeys = List (Text × Bool)

-- `-order`
abbrev pub opposite : Ordering → Ordering
opposite less = greater
opposite equal = equal
opposite greater = less

abbrev directed : Bool → Ordering → Ordering
directed descending order = if descending then opposite order else order

-- the comparison of two values that are not None; incomparable values compare equal, whatever the
-- direction
abbrev compare_present : Bool → Option Ordering → Ordering
compare_present descending none = equal
compare_present descending (some order) = directed descending order

-- `compare_in_order`
unfoldable pub compare_in_order : Value → Value → Bool → Bool → Ordering
compare_in_order null null descending nulls_first = directed descending equal
compare_in_order null right descending nulls_first =
    directed descending (if nulls_first then less else greater)
compare_in_order left null descending nulls_first =
    directed descending (if nulls_first then greater else less)
compare_in_order left right descending nulls_first =
    compare_present descending (compare_values left right)

abbrev pub has_key : Text → CursorKeys → Bool
has_key name [] = false
has_key name ((key, _) ∷ keys) = if key == name then true else has_key name keys

-- `cursor_keys`
unfoldable pub cursor_keys : CursorKeys → Text → CursorKeys
cursor_keys sort pk_field = if has_key pk_field sort then sort else sort ++ (pk_field, false) ∷ []

-- `compare` of `sort_list`: the first key that tells the rows apart decides
unfoldable pub compare_rows : CursorKeys → Bool → Record → Record → Ordering
compare_rows [] nulls_first a b = equal
compare_rows ((name, descending) ∷ keys) nulls_first a b =
    lex (compare_in_order (read a name) (read b name) descending nulls_first)
      (compare_rows keys nulls_first a b)

-- `CursorPredicate`
pub record CursorPredicate : Type 0 where
  pub keys : CursorKeys
  pub position : Record
  pub backwards : Bool
  pub inclusive : Bool
  pub nulls_first : Bool

abbrev pub past : Bool → Ordering → Bool
past true less = true
past true _ = false
past false greater = true
past false _ = false

-- the loop of `CursorPredicate.matches`
unfoldable pub matches_keys : CursorKeys → CursorPredicate → Record → Bool
matches_keys [] p row = p.inclusive
matches_keys ((name, descending) ∷ keys) p row =
    let rest = matches_keys keys p row in
    elim (compare_in_order (read row name) (read p.position name) descending p.nulls_first) [
      | less ↦ past p.backwards less
      | equal ↦ rest
      | greater ↦ past p.backwards greater
    ]

-- `CursorPredicate.matches`
unfoldable pub matches : CursorPredicate → Record → Bool
unfolding matches_keys
matches p row = matches_keys p.keys p row

-- `position_of`: the values as they are; `_jsonable` changes no value of this model
unfoldable pub position_of : Record → CursorKeys → Record
position_of row [] = []
position_of row ((name, _) ∷ keys) = (name, read row name) ∷ position_of row keys

-- `wants_greater`
unfoldable pub wants_greater : Bool → Bool → Bool
wants_greater descending backwards = if backwards then descending else not descending

-- Python's stable `sorted(records, key=cmp_to_key(compare))`, as insertion from the right.
module _ {A : Type 0} (order : A → A → Ordering) where
  unfoldable pub insert_row : A → List A → List A
  insert_row x [] = x ∷ []
  insert_row x (y ∷ ys) =
      let rest = insert_row x ys in elim (order x y) [ greater ↦ y ∷ rest | _ ↦ x ∷ y ∷ ys ]

  unfoldable pub sorted : List A → List A
  unfolding insert_row
  sorted [] = []
  sorted (x ∷ xs) = insert_row x (sorted xs)

-- `sort_list`
unfoldable pub sort_list : CursorKeys → Bool → List Record → List Record
unfolding sorted
sort_list sort nulls_first records = sorted (compare_rows sort nulls_first) records
