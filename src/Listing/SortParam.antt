-- ===== src/Listing/SortParam.antt =====
-- The `sort` parameter and a declared `default_sort`: `parse_sort_param` and `check_declared_sort` of
-- fastapi_viewsets/mixins.py. A text is the list of its code points.
pub mod Checks
pub mod Examples
use fastapi_viewsets.Prelude.{
  ℕ, suc, Text, text, list_eq, nat_eq, ◌==◌, nat_beq, if◌then◌else◌, List, [], ◌∷◌, Option, none,
  some, Bool, true, false, not, ◌&&◌, ◌||◌, contains, map, reverse, ◌≡◌, refl, arith, ap, sym, ◌∙◌,
  length, All, ◌≢◌, subst,
}
use fastapi_viewsets.Events.Topics.{is_space}

pub data SortDirection : Type 0 where
  asc desc : SortDirection

pub record SortStateColumn : Type 0 where
  pub column_name : Text
  pub direction : SortDirection

abbrev pub SortState : Type 0
SortState = List SortStateColumn

-- What is read of a pydantic model: the names of `model_fields` and of `model_computed_fields`.
pub record Model : Type 0 where
  pub fields : List Text
  pub computed_fields : List Text

-- A sort order, or the `ValueError` with what its message names.
pub data Declared : Type 0 where
  ok : SortState → Declared
  empty_entry : Declared
  bad_direction unknown_field : Text → Declared

-- `sort_csv.split(",")`
abbrev pub extend_part : ℕ → List Text → List Text
extend_part c [] = (c ∷ []) ∷ []
extend_part c (part ∷ parts) = (c ∷ part) ∷ parts

unfoldable pub split_comma : Text → List Text
split_comma [] = [] ∷ []
split_comma (c ∷ cs) =
    let rest = split_comma cs in if nat_beq c b',' then [] ∷ rest else extend_part c rest

-- `param.lstrip()`
unfoldable pub lstrip_param : Text → Text
unfolding is_space
lstrip_param [] = []
lstrip_param (c ∷ cs) = let rest = lstrip_param cs in if is_space c then rest else c ∷ cs

-- `param.strip()`
unfoldable pub strip_param : Text → Text
unfolding lstrip_param
strip_param param = reverse (lstrip_param (reverse (lstrip_param param)))

-- The parts of a text before and after its last `:`; none without one.
unfoldable pub rpartition : Text → Option (Text × Text)
rpartition [] = none
rpartition (c ∷ cs) = elim (rpartition cs) [
  | none ↦ if nat_beq c b':' then some ([], cs) else none
  | some (before, after) ↦ some (c ∷ before, after)
]

-- The column and the raw direction of an entry.
abbrev pub or_entry : Text → Text × Text → Text × Text
or_entry param ([], raw_direction) = (param, text "asc")
or_entry param (c ∷ cs, raw_direction) = (c ∷ cs, raw_direction)

unfoldable pub column_of : Text → Text × Text
unfolding rpartition
column_of param = elim (rpartition param) [
  | none ↦ (param, text "asc")
  | some parts ↦ or_entry param parts
]

-- `SortDirection(raw_direction)`, none where it raises
unfoldable pub sort_direction : Text → Option SortDirection
sort_direction raw_direction =
    if raw_direction == text "asc"
    then some asc
    else (if raw_direction == text "desc" then some desc else none)

abbrev pub append_column : Text → Option SortDirection → SortState → SortState
append_column column none result = result
append_column column (some direction) result =
    record { column_name = column; direction = direction } ∷ result

-- One turn of the loop of `parse_sort_param`, with the columns of the later entries
unfoldable pub add_param : Text → SortState → SortState
unfolding column_of sort_direction
add_param [] result = result
add_param (c ∷ cs) result =
    let (column, raw_direction) = column_of (c ∷ cs) in
    append_column column (sort_direction raw_direction) result

unfoldable pub parse_params : List Text → SortState
unfolding strip_param add_param
parse_params [] = []
parse_params (param ∷ params) = add_param (strip_param param) (parse_params params)

unfoldable pub parse_sort_param : Option Text → SortState
unfolding parse_params split_comma
parse_sort_param none = []
parse_sort_param (some []) = []
parse_sort_param (some (c ∷ cs)) = parse_params (split_comma (c ∷ cs))

-- `all(entries)`
abbrev pub all_given : List Text → Bool
all_given [] = true
all_given (entry ∷ entries) = not (entry == []) && all_given entries

-- Whether the check of the columns lets one pass; without a pydantic model it lets all.
unfoldable pub is_declared : Option Model → Text → Bool
is_declared none column = true
is_declared (some model) column =
    contains column model.fields || contains column model.computed_fields

abbrev pub prepended : SortStateColumn → Declared → Declared
prepended column (ok result) = ok (column ∷ result)
prepended column error = error

-- One turn of the loop of `check_declared_sort`, with the answer of the later turns
abbrev pub add_declared : Option Model → Text → Option SortDirection → Declared → Declared
add_declared model column none rest = bad_direction column
add_declared model column (some direction) rest =
    if is_declared model column
    then prepended (record { column_name = column; direction = direction }) rest
    else unknown_field column

unfoldable pub check_entries : Option Model → List Text → Declared
unfolding column_of sort_direction is_declared
check_entries model [] = ok []
check_entries model (entry ∷ entries) =
    let rest = check_entries model entries in
    let (column, raw_direction) = column_of entry in
    add_declared model column (sort_direction raw_direction) rest

unfoldable pub check_declared_sort : Text → Option Model → Declared
unfolding strip_param split_comma check_entries
check_declared_sort sort_csv model =
    let entries = map strip_param (split_comma sort_csv) in
    if all_given entries then check_entries model entries else empty_entry
