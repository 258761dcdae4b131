-- ===== src/Listing/Selected.antt =====
-- The rows that `get_list` of fastapi_viewsets/mixins.py selects at a cursor: the filtered rows past it, in order.
use fastapi_viewsets.Prelude.{
  ◌≡◌, refl, Text, List, [], ◌∷◌, ◌++◌, Bool, true, false, Option, All, filter, ap, subst, ◌∙◌,
  ◌&&◌, fun_ext,
}
use fastapi_viewsets.Listing.Values.{Record}
use fastapi_viewsets.Listing.Order.{
  CursorKeys, CursorPredicate, matches, position_of, sort_list, compare_rows, has_key,
}
use fastapi_viewsets.Listing.Keys.{Kind}
use fastapi_viewsets.Listing.Rows.{
  IsTyped, HasUniqueKeys, has_key-cursor_keys, compare_rows-IsOrder, unique-IsDistinct,
}
use fastapi_viewsets.Listing.Sorting.{IsStrict, All-filter, All-right, All-sorted, sorted-filter}
use fastapi_viewsets.Listing.Cuts.{verdict}
use fastapi_viewsets.Listing.Cursors.{make_predicate}
use fastapi_viewsets.Listing.RoundTrip.{Fits}
use fastapi_viewsets.Listing.Reading.{matches-verdict, sort_list-IsStrict}
use fastapi_viewsets.Listing.Pages.{Viewset, ListQuery, accepted, matches_all, apply_filter}
use fastapi_viewsets.Listing.Requests.{
  keys_of, query_of, IsListing, whole, filter-and, HasUniqueKeys-filter,
}

and_true : (b : Bool) → (b && true) ≡ b
and_true true = refl
and_true false = refl

module _ {F : Type 0} (viewset : Viewset F) (kinds : Text → Kind) (fltr : Option F)
    (sort : CursorKeys) (records : List Record)
    (listing : IsListing viewset kinds sort records) where
  abbrev keys : CursorKeys
  keys = keys_of viewset sort

  abbrev pub rows : List Record
  rows = filter (accepted viewset.accepts fltr) records

  pub has : has_key viewset.pk_field_name keys ≡ true
  has = has_key-cursor_keys sort viewset.pk_field_name

  pub IsTyped-rows : All (IsTyped kinds keys) rows
  IsTyped-rows =
      All-filter (IsTyped kinds keys) (accepted viewset.accepts fltr) records listing.typed

  pub unique_rows : HasUniqueKeys viewset.pk_field_name rows
  unique_rows =
      HasUniqueKeys-filter viewset.pk_field_name (accepted viewset.accepts fltr) records
        listing.unique

  pub whole-IsStrict :
      IsStrict (compare_rows keys viewset.nulls_first) (whole viewset fltr sort records)
  whole-IsStrict =
      sort_list-IsStrict kinds keys viewset.pk_field_name viewset.nulls_first rows has IsTyped-rows
        unique_rows

  whole-Fits : All (Fits viewset.annotations keys) (whole viewset fltr sort records)
  unfolding sort_list
  whole-Fits =
      All-sorted (compare_rows keys viewset.nulls_first) (Fits viewset.annotations keys) rows (
        All-filter (Fits viewset.annotations keys) (accepted viewset.accepts fltr) records
          listing.fits)

  pub Fits-at :
      (pre : List Record) (a : Record) (post : List Record)
      → whole viewset fltr sort records ≡ pre ++ a ∷ post
      → Fits viewset.annotations keys a
  Fits-at pre a post split =
      (All-right (Fits viewset.annotations keys) pre (a ∷ post)
        (subst (All (Fits viewset.annotations keys)) split whole-Fits)).0

  -- The predicate of a cursor at row `a`.
  abbrev pub predicate_at : Record → Bool → CursorPredicate
  predicate_at a backwards =
      make_predicate
        (record {
          position = position_of a keys;
          backwards = backwards;
          inclusive = false;
          query = query_of viewset fltr sort;
        })
        keys viewset.nulls_first

  pub apply_filter-one :
      (query : ListQuery F) (p : CursorPredicate)
      → query.fltr ≡ fltr
      → query.extra_filters ≡ p ∷ []
      → apply_filter viewset query records ≡ filter (matches p) rows
  unfolding apply_filter matches_all
  apply_filter-one query p e f =
      filter-and (accepted viewset.accepts query.fltr) (matches_all query.extra_filters) records
      ∙ (λ i. filter (matches_all (f i)) (filter (accepted viewset.accepts (e i)) records))
      ∙ ap (λ q. filter q rows) (fun_ext (λ row. and_true (matches p row)))

  pub apply_filter-none :
      (query : ListQuery F)
      → query.fltr ≡ fltr
      → query.extra_filters ≡ []
      → apply_filter viewset query records ≡ rows
  unfolding apply_filter matches_all
  apply_filter-none query e f =
      (λ i. filter (λ row. accepted viewset.accepts (e i) row && matches_all (f i) row) records)
      ∙ ap (λ p. filter p records) (fun_ext (λ row. and_true (accepted viewset.accepts fltr row)))

  -- Past an anchor, the sorted filtered rows are the part of the whole answer on that side.
  pub sort_list-past :
      (a : Record) (backwards : Bool)
      → sort_list keys viewset.nulls_first (filter (matches (predicate_at a backwards)) rows)
        ≡ filter
            (λ row. verdict backwards false (compare_rows keys viewset.nulls_first row a))
            (whole viewset fltr sort records)
  unfolding sort_list
  sort_list-past a backwards =
      sorted-filter (compare_rows keys viewset.nulls_first) (IsTyped kinds keys)
        (compare_rows-IsOrder kinds keys viewset.nulls_first) (matches (predicate_at a backwards))
        rows IsTyped-rows
        (unique-IsDistinct kinds keys viewset.pk_field_name viewset.nulls_first rows has
          IsTyped-rows unique_rows)
      ∙ ap (λ p. filter p (whole viewset fltr sort records))
          (fun_ext (λ row.
            matches-verdict keys a row backwards false viewset.nulls_first
              (query_of viewset fltr sort)))
