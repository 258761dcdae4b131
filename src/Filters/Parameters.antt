-- ===== src/Filters/Parameters.antt =====
-- fastapi_viewsets/filters/declaration.py: the query parameters of a filter declaration, and the filters that
-- a request's values ask for.
use fastapi_viewsets.Prelude.{
  Text, text, Dict, insert, list_eq, nat_eq, ◌==◌, if◌then◌else◌, contains, List, [], ◌∷◌, ◌++◌,
  Option, none, some, Bool, true, false, ◌&&◌, ◌||◌, not,
}
use fastapi_viewsets.Filters.{Operator, operator_for, Operand, Filter, is_none, truthy}

-- `_LIST_LOOKUPS`
abbrev pub list_lookups : List Text
list_lookups = text "in" ∷ text "overlaps" ∷ []

-- `SPEC_ATTRIBUTE`: a parameter's field and operator
abbrev pub Spec : Type 0
Spec = Dict Text (Text × Text)

pub data Made : Type 0 where
  model : Spec → Made
  filter_error : Made

-- the parameter's name
abbrev pub parameter_of : Text → Text → Text
parameter_of field name = if name == text "exact" then field else field ++ (text "__" ++ name)

abbrev pub is_known : Option Operator → Bool
is_known none = false
is_known (some _) = true

-- the inner loop of `make_filter_model`
unfoldable pub add_lookups : Text → List Text → Spec → (Spec → Made) → Made
unfolding operator_for
add_lookups field [] spec go_on = go_on spec
add_lookups field (name ∷ names) spec go_on =
    let rest =
      add_lookups field names (insert (parameter_of field name) (field, name) spec) go_on in
    if is_known (operator_for name) then rest else filter_error

-- the outer loop, over the fields of the model
unfoldable pub add_fields : List Text → Dict Text (List Text) → Spec → Made
unfolding add_lookups
add_fields fields [] spec = model spec
add_fields fields ((field, names) ∷ declaration) spec =
    let rest = add_lookups field names spec (add_fields fields declaration) in
    if contains field fields then rest else filter_error

-- `make_filter_model`
unfoldable pub make_filter_model : List Text → Dict Text (List Text) → Made
unfolding add_fields
make_filter_model fields declaration = add_fields fields declaration []

abbrev pub added : Option Operator → Text → Operand → Option (List Filter) → Option (List Filter)
added none field value rest = none
added (some operator) field value none = none
added (some operator) field value (some rest) =
    some (record { operator = operator; field = field; value = value } ∷ rest)

abbrev pub is_skipped : Text → Operand → Bool
is_skipped name value = is_none value || (contains name list_lookups && not (truthy value))

-- `filters_from`; `values` answers `getattr(fltr, parameter, None)`, none for a `KeyError`
unfoldable pub filters_from : Spec → (Text → Operand) → Option (List Filter)
unfolding operator_for
filters_from [] values = some []
filters_from ((parameter, (field, name)) ∷ spec) values =
    let rest = filters_from spec values in
    if is_skipped name (values parameter)
    then rest
    else added (operator_for name) field (values parameter) rest
