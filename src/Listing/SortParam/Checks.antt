-- ===== src/Listing/SortParam/Checks.antt =====
-- What a declared sort order that passes `check_declared_sort` of fastapi_viewsets/mixins.py orders by.
use fastapi_viewsets.Prelude.{
  suc, Text, list_eq, nat_eq, ◌==◌, if◌then◌else◌, List, [], ◌∷◌, Option, none, some, Bool, true,
  false, not, ◌&&◌, map, ◌≡◌, ◌≢◌, refl, arith, ap, sym, subst, ◌∙◌, length, All,
}
use fastapi_viewsets.Listing.SortParam.{
  SortDirection, SortState, SortStateColumn, Model, Declared, ok, empty_entry, bad_direction,
  unknown_field, split_comma, strip_param, column_of, sort_direction, append_column, add_param,
  parse_params, parse_sort_param, all_given, is_declared, add_declared, check_entries,
  check_declared_sort,
}

passed_if :
    (b : Bool) (passes fails : Declared) (state : SortState)
    → fails ≢ ok state
    → (if b then passes else fails) ≡ ok state
    → (b ≡ true) × (passes ≡ ok state)
passed_if true passes fails state n h = (refl, h)
passed_if false passes fails state n h = elim (n h) [ ]

both_true : (a b : Bool) → (a && b) ≡ true → (a ≡ true) × (b ≡ true)
both_true true b h = (refl, h)
both_true false b h = ground arith

-- A turn that passes has read a direction and a declared column, and the later turns pass.
add_declared-ok :
    (model : Option Model) (column : Text) (direction : Option SortDirection) (rest : Declared)
    (state : SortState)
    → add_declared model column direction rest ≡ ok state
    → (found : SortDirection) × (later : SortState) × (direction ≡ some found)
      × (rest ≡ ok later)
      × (is_declared model column ≡ true)
      × (state ≡ record { column_name = column; direction = found } ∷ later)
add_declared-ok model column none rest state h = ground arith
add_declared-ok model column (some found) (ok later) state h =
    let (d, same) =
      passed_if (is_declared model column)
        (ok (record { column_name = column; direction = found } ∷ later)) (unknown_field column)
        state (λ e. ground arith) h in
    (found, later, refl, refl, d, ground arith)
add_declared-ok model column (some found) empty_entry state h = ground arith
add_declared-ok model column (some found) (bad_direction other) state h = ground arith
add_declared-ok model column (some found) (unknown_field other) state h = ground arith

add_param-given :
    (param : Text) (result : SortState) (found : SortDirection)
    → not (param == []) ≡ true
    → sort_direction (column_of param).1 ≡ some found
    → add_param param result
      ≡ record { column_name = (column_of param).0; direction = found } ∷ result
unfolding add_param
add_param-given [] result found g e = ground arith
add_param-given (c ∷ cs) result found g e =
    ap (λ d. append_column (column_of (c ∷ cs)).0 d result) e

parse_params-check_entries :
    (model : Option Model) (parts : List Text) (state : SortState)
    → all_given (map strip_param parts) ≡ true
    → check_entries model (map strip_param parts) ≡ ok state
    → parse_params parts ≡ state
unfolding parse_params check_entries
parse_params-check_entries model [] state g h = ground arith
parse_params-check_entries model (part ∷ parts) state g h =
    let (given, others) =
      both_true (not (strip_param part == [])) (all_given (map strip_param parts)) g in
    let (column, raw_direction) = column_of (strip_param part) in
    let (found, later, e, k, d, same) =
      add_declared-ok model column (sort_direction raw_direction)
        (check_entries model (map strip_param parts)) state h in
    add_param-given (strip_param part) (parse_params parts) found given e
    ∙ ap (λ rest. record { column_name = column; direction = found } ∷ rest)
        (parse_params-check_entries model parts later others k)
    ∙ sym same

-- A sort order that passes the check of a declared one is the order that the parameter's parser reads.
pub parse_sort_param-check_declared_sort :
    (sort_csv : Text) (model : Option Model) (state : SortState)
    → check_declared_sort sort_csv model ≡ ok state
    → parse_sort_param (some sort_csv) ≡ state
unfolding parse_sort_param check_declared_sort
parse_sort_param-check_declared_sort [] model state h = ground arith
parse_sort_param-check_declared_sort (c ∷ cs) model state h =
    let parts = split_comma (c ∷ cs) in
    let (given, passes) =
      passed_if (all_given (map strip_param parts)) (check_entries model (map strip_param parts))
        empty_entry state (λ e. ground arith) h in
    parse_params-check_entries model parts state given passes

-- Whether a column of a sort order is one that the check lets pass.
abbrev IsDeclared : Option Model → SortStateColumn → Type 0
IsDeclared model column = is_declared model column.column_name ≡ true

check_entries-All :
    (model : Option Model) (entries : List Text) (state : SortState)
    → check_entries model entries ≡ ok state
    → All (IsDeclared model) state × (length state ≡ length entries)
unfolding check_entries
check_entries-All model [] state h =
    let same : [] ≡ state = ground arith in
    subst (λ found. All (IsDeclared model) found × (length found ≡ 0)) same (tt, refl)
check_entries-All model (entry ∷ entries) state h =
    let (column, raw_direction) = column_of entry in
    let (found, later, e, k, d, same) =
      add_declared-ok model column (sort_direction raw_direction) (check_entries model entries)
        state h in
    let (declared, counted) = check_entries-All model entries later k in
    subst (λ columns. All (IsDeclared model) columns × (length columns ≡ suc (length entries)))
      (sym same) ((d, declared), ap suc counted)

length-map : (f : Text → Text) (xs : List Text) → length (map f xs) ≡ length xs
length-map f [] = refl
length-map f (x ∷ xs) = ap suc (length-map f xs)

-- A sort order that passes the check of a declared one orders by declared columns only, one for each entry.
check_declared_sort-All :
    (sort_csv : Text) (model : Option Model) (state : SortState)
    → check_declared_sort sort_csv model ≡ ok state
    → All (IsDeclared model) state × (length state ≡ length (split_comma sort_csv))
unfolding check_declared_sort
check_declared_sort-All sort_csv model state h =
    let parts = split_comma sort_csv in
    let (given, passes) =
      passed_if (all_given (map strip_param parts)) (check_entries model (map strip_param parts))
        empty_entry state (λ e. ground arith) h in
    let (declared, counted) = check_entries-All model (map strip_param parts) state passes in
    (declared, counted ∙ length-map strip_param parts)
