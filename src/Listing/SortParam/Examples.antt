-- ===== src/Listing/SortParam/Examples.antt =====
-- The sort parameter at concrete texts.
use fastapi_viewsets.Prelude.{Text, text, [], ◌∷◌, Option, some, ◌≡◌, refl}
use fastapi_viewsets.Listing.SortParam.{
  SortState, Model, ok, asc, desc, empty_entry, bad_direction, unknown_field, parse_sort_param,
  check_declared_sort,
}
use fastapi_viewsets.Listing.SortParam.Checks.{parse_sort_param-check_declared_sort}

abbrev model : Option Model
model = some (record { fields = text "title" ∷ text "a:b" ∷ []; computed_fields = text "age" ∷ [] })

abbrev sort_csv : Text
sort_csv = text "title:desc, age,a:b:asc"

abbrev state : SortState
state =
    record { column_name = text "title"; direction = desc }
    ∷ record { column_name = text "age"; direction = asc }
    ∷ record { column_name = text "a:b"; direction = asc }
    ∷ []

passes : check_declared_sort sort_csv model ≡ ok state
unfolding check_declared_sort
passes = refl

-- An entry with another direction is skipped in a request and refused in a declaration.
skipped :
    parse_sort_param (some (text "title:up,age:desc"))
    ≡ record { column_name = text "age"; direction = desc } ∷ []
unfolding parse_sort_param
skipped = refl

refused : check_declared_sort (text "title:up,age:desc") model ≡ bad_direction (text "title")
unfolding check_declared_sort
refused = refl

unknown : check_declared_sort (text "title,name") model ≡ unknown_field (text "name")
unfolding check_declared_sort
unknown = refl

trailing : check_declared_sort (text "title,") model ≡ empty_entry
unfolding check_declared_sort
trailing = refl

parse_sort_param-check_declared_sort_example : parse_sort_param (some sort_csv) ≡ state
parse_sort_param-check_declared_sort_example =
    parse_sort_param-check_declared_sort sort_csv model state passes
