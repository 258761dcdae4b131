-- ===== src/Listing/Turning.antt =====
-- Turning pages: what `get_list` of fastapi_viewsets/mixins.py answers at the start and past a row.
use fastapi_viewsets.Prelude.{
  ℕ, ◌≡◌, refl, Text, List, [], ◌∷◌, ◌++◌, Bool, true, false, Option, none, some, filter, reverse,
  take, length, ltb, ap, subst, ◌∙◌,
}
use fastapi_viewsets.Listing.Values.{Record}
use fastapi_viewsets.Listing.Order.{CursorKeys, matches, sort_list, compare_rows}
use fastapi_viewsets.Listing.Keys.{Kind}
use fastapi_viewsets.Listing.Rows.{IsTyped, compare_rows-IsOrder}
use fastapi_viewsets.Listing.Sorting.{IsStrict, All-filter}
use fastapi_viewsets.Listing.Cuts.{verdict, cut_after, cut_before}
use fastapi_viewsets.Listing.Cursors.{ok}
use fastapi_viewsets.Listing.RoundTrip.{Fits}
use fastapi_viewsets.Listing.Reading.{directed_keys-false, sort_list-directed}
use fastapi_viewsets.Listing.Pages.{
  Viewset, ListQuery, prepared, apply_filter, apply_sort, directed_keys, take_page, cursor_page,
  page_of, turned, get_list, prepare_cursor, anchor, answered,
}
use fastapi_viewsets.Listing.Requests.{
  request, IsCodec, keys_of, query_of, IsListing, whole, prepare_cursor-anchor, anchor-given,
  take_page-start, apply_sort-keys, apply_sort-directed, length-reverse, HasUniqueKeys-filter,
}
use fastapi_viewsets.Listing.Selected.{
  rows, has, IsTyped-rows, unique_rows, whole-IsStrict, Fits-at, predicate_at, apply_filter-one,
  apply_filter-none, sort_list-past,
}

module _ {F : Type 0} (viewset : Viewset F) (kinds : Text → Kind) (fltr : Option F)
    (sort : CursorKeys) (records : List Record)
    (listing : IsListing viewset kinds sort records) where
  abbrev keys : CursorKeys
  keys = keys_of viewset sort

  module _ (codec : IsCodec viewset.codec) (limit : ℕ) where
    -- The request with the cursor at row `a`, and the query it is prepared to.
    abbrev request_at : Record → Bool → ListQuery F
    request_at a backwards =
        request fltr sort limit
          (some (anchor viewset keys (query_of viewset fltr sort) backwards false a))

    abbrev pub prepared_at : Record → Bool → ListQuery F
    prepared_at a backwards =
        prepared viewset (request_at a backwards) keys (query_of viewset fltr sort) backwards
          (predicate_at viewset kinds fltr sort records listing a backwards ∷ [])

    answered-anchor :
        (a : Record) (backwards : Bool)
        → Fits viewset.annotations keys a
        → get_list viewset (request_at a backwards) records
          ≡ answered viewset limit records (ok (prepared_at a backwards))
    unfolding get_list
    answered-anchor a backwards fits =
        ap (answered viewset limit records)
          (prepare_cursor-anchor viewset codec fltr sort limit backwards false a fits)

    rows_after :
        (pre : List Record) (a : Record) (post : List Record)
        → whole viewset fltr sort records ≡ pre ++ a ∷ post
        → apply_sort viewset
            (directed_keys false keys)
            (apply_filter viewset (prepared_at a false) records)
          ≡ post
    rows_after pre a post split =
        let order = compare_rows keys viewset.nulls_first in
        let strict =
          subst (IsStrict order) split (whole-IsStrict viewset kinds fltr sort records listing) in
        ap (λ ks. apply_sort viewset ks (apply_filter viewset (prepared_at a false) records))
          (directed_keys-false keys)
        ∙ apply_sort-keys viewset keys viewset.pk_field_name
            (apply_filter viewset (prepared_at a false) records)
            (has viewset kinds fltr sort records listing)
        ∙ ap (sort_list keys viewset.nulls_first) (
            apply_filter-one viewset kinds fltr sort records listing (prepared_at a false)
              (predicate_at viewset kinds fltr sort records listing a false) refl refl)
        ∙ sort_list-past viewset kinds fltr sort records listing a false
        ∙ ap (filter (λ row. verdict false false (order row a))) split
        ∙ cut_after order (IsTyped kinds keys) (compare_rows-IsOrder kinds keys viewset.nulls_first)
            pre a post strict

    cursor_page-start :
        (query : ListQuery F) (backwards : Bool) (found : List Record)
        → query.offset ≡ 0
        → query.backwards ≡ backwards
        → cursor_page viewset query limit found
          ≡ turned viewset backwards query limit (take limit found, ltb limit (length found))
    unfolding cursor_page
    cursor_page-start query backwards found e f =
        (λ i. turned viewset (f i) query limit (take_page found (e i) limit))
        ∙ ap (turned viewset backwards query limit) (take_page-start found limit)

    -- Let the rows hold one kind of value in each key field, have different primary keys and survive
    -- decoding, and let decoding undo encoding. Where row `a` stands in the whole answer, with `post`
    -- after it, the page at its forward cursor holds the first `limit` rows of `post`, and says that
    -- more follow exactly where `post` is longer than that.
    pub get_list-next :
        (pre : List Record) (a : Record) (post : List Record)
        → whole viewset fltr sort records ≡ pre ++ a ∷ post
        → get_list viewset
            (request fltr sort limit (
              some
                (anchor viewset (keys_of viewset sort) (query_of viewset fltr sort) false false a)))
            records
          ≡ ok (
              page_of viewset
                (prepared_at a false)
                limit
                (take limit post)
                (ltb limit (length post))
                true)
    get_list-next pre a post split =
        answered-anchor a false (Fits-at viewset kinds fltr sort records listing pre a post split)
        ∙ ap (λ found. ok (cursor_page viewset (prepared_at a false) limit found))
            (rows_after pre a post split)
        ∙ ap ok (cursor_page-start (prepared_at a false) false post refl refl)
        ∙ ap
            (λ b. ok (
              page_of viewset (prepared_at a false) limit (take limit post)
                (ltb limit (length post)) b))
            (anchor-given viewset codec keys (query_of viewset fltr sort) false false a)

    rows_before :
        (pre : List Record) (a : Record) (post : List Record)
        → whole viewset fltr sort records ≡ pre ++ a ∷ post
        → apply_sort viewset
            (directed_keys true keys)
            (apply_filter viewset (prepared_at a true) records)
          ≡ reverse pre
    rows_before pre a post split =
        let order = compare_rows keys viewset.nulls_first in
        let strict =
          subst (IsStrict order) split (whole-IsStrict viewset kinds fltr sort records listing) in
        let kept =
          filter (matches (predicate_at viewset kinds fltr sort records listing a true))
            (rows viewset kinds fltr sort records listing) in
        apply_sort-directed viewset keys viewset.pk_field_name
          (apply_filter viewset (prepared_at a true) records)
          (has viewset kinds fltr sort records listing)
        ∙ ap (sort_list (directed_keys true keys) viewset.nulls_first) (
            apply_filter-one viewset kinds fltr sort records listing (prepared_at a true)
              (predicate_at viewset kinds fltr sort records listing a true) refl refl)
        ∙ sort_list-directed kinds keys viewset.pk_field_name viewset.nulls_first kept
            (has viewset kinds fltr sort records listing)
            (All-filter (IsTyped kinds keys)
              (matches (predicate_at viewset kinds fltr sort records listing a true))
              (rows viewset kinds fltr sort records listing)
              (IsTyped-rows viewset kinds fltr sort records listing))
            (HasUniqueKeys-filter viewset.pk_field_name
              (matches (predicate_at viewset kinds fltr sort records listing a true))
              (rows viewset kinds fltr sort records listing)
              (unique_rows viewset kinds fltr sort records listing))
        ∙ ap reverse (
            sort_list-past viewset kinds fltr sort records listing a true
            ∙ ap (filter (λ row. verdict true false (order row a))) split
            ∙ cut_before order (IsTyped kinds keys)
                (compare_rows-IsOrder kinds keys viewset.nulls_first) pre a post strict)

    -- Let the rows hold one kind of value in each key field, have different primary keys and survive
    -- decoding, and let decoding undo encoding. Where row `a` stands in the whole answer, with `pre`
    -- before it, the page at its backward cursor holds the last `limit` rows of `pre` in reading order,
    -- says that rows precede them exactly where `pre` is longer than that, and that more follow.
    pub get_list-previous :
        (pre : List Record) (a : Record) (post : List Record)
        → whole viewset fltr sort records ≡ pre ++ a ∷ post
        → get_list viewset
            (request fltr sort limit (
              some
                (anchor viewset (keys_of viewset sort) (query_of viewset fltr sort) true false a)))
            records
          ≡ ok (
              page_of viewset
                (prepared_at a true)
                limit
                (reverse (take limit (reverse pre)))
                true
                (ltb limit (length pre)))
    get_list-previous pre a post split =
        answered-anchor a true (Fits-at viewset kinds fltr sort records listing pre a post split)
        ∙ ap (λ found. ok (cursor_page viewset (prepared_at a true) limit found))
            (rows_before pre a post split)
        ∙ ap ok (cursor_page-start (prepared_at a true) true (reverse pre) refl refl)
        ∙ ap
            (λ b. ok (
              page_of viewset (prepared_at a true) limit (reverse (take limit (reverse pre))) b
                (ltb limit (length (reverse pre)))))
            (anchor-given viewset codec keys (query_of viewset fltr sort) true false a)
        ∙ ap
            (λ n. ok (
              page_of viewset (prepared_at a true) limit (reverse (take limit (reverse pre))) true
                (ltb limit n)))
            (length-reverse pre)

    -- Let the rows hold one kind of value in each key field, have different primary keys and survive
    -- decoding, and let decoding undo encoding. Without a cursor, the page holds the first `limit` rows
    -- of the whole answer, says that more follow exactly where it is longer than that, and that nothing
    -- precedes.
    pub get_list-first :
        get_list viewset (request fltr sort limit none) records
        ≡ ok (
            page_of viewset
              (prepared viewset
                (request fltr sort limit none)
                (keys_of viewset sort)
                (query_of viewset fltr sort)
                false
                [])
              limit
              (take limit (whole viewset fltr sort records))
              (ltb limit (length (whole viewset fltr sort records)))
              false)
    unfolding get_list prepare_cursor
    get_list-first =
        let query =
          prepared viewset (request fltr sort limit none) keys (query_of viewset fltr sort) false
            [] in
        ap
          (λ ks. ok (
            cursor_page viewset query limit
              (apply_sort viewset ks (apply_filter viewset query records))))
          (directed_keys-false keys)
        ∙ ap (λ found. ok (cursor_page viewset query limit found))
            (apply_sort-keys viewset keys viewset.pk_field_name (apply_filter viewset query records)
                (has viewset kinds fltr sort records listing)
              ∙ ap (sort_list keys viewset.nulls_first)
                  (apply_filter-none viewset kinds fltr sort records listing query refl refl))
        ∙ ap ok (cursor_page-start query false (whole viewset fltr sort records) refl refl)
