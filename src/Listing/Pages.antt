-- ===== src/Listing/Pages.antt =====
-- The list pipeline of fastapi_viewsets/mixins.py for the cursor shape and an in-memory source
-- (`get_list`, `_prepare_cursor`, `apply_filter`, `apply_sort`, `_cursor_page`, `_cursor_anchors`), and
-- `take_page` of fastapi_viewsets/list_query.py.
use fastapi_viewsets.Prelude.{
  ℕ, ◌+◌, Text, list_eq, nat_eq, ltb, nat_beq, if◌then◌else◌, List, [], ◌∷◌, ◌++◌, Option, none,
  some, Bool, true, false, not, ◌&&◌, length, take, drop, filter, reverse,
}
use fastapi_viewsets.Listing.Values.{Record}
use fastapi_viewsets.Listing.Order.{
  CursorKeys, CursorPredicate, cursor_keys, matches, position_of, sort_list,
}
use fastapi_viewsets.Listing.Cursors.{
  CursorState, Codec, Annotations, Decoded, ok, error, encode, decode_cursor, make_predicate,
}

-- `take_page` of a list: the page, and whether more rows follow
unfoldable pub take_page : {A : Type 0} → List A → ℕ → ℕ → List A × Bool
take_page records offset limit =
    let page = take (limit + 1) (drop offset records) in (take limit page, ltb limit (length page))

-- `take_page` of a lazy source: its loop over the rows, with `index` and `page` as they stand
unfoldable pub take_lazily : {A : Type 0} → ℕ → ℕ → ℕ → List A → List A → List A × Bool
take_lazily offset limit index page [] = (page, false)
take_lazily offset limit index page (record_ ∷ rest) =
    let skipped = take_lazily offset limit (index + 1) page rest in
    let kept = take_lazily offset limit (index + 1) (page ++ record_ ∷ []) rest in
    if ltb index offset
    then skipped
    else (if nat_beq (length page) limit then (page, true) else kept)

-- What a viewset declares: its primary key's field, the placement of None, its response model's
-- annotations, its page size, and the filters of type `F` its requests send.
pub record Viewset (F : Type 0) : Type 0 where
  pub pk_field_name : Text
  pub nulls_first : Bool
  pub annotations : Annotations
  pub default_page_size : ℕ
  pub accepts : F → Record → Bool
  pub fingerprint : CursorKeys → Option F → Text
  pub codec : Codec

-- `ListQuery`, with the private fields that `_prepare_cursor` sets
pub record ListQuery (F : Type 0) : Type 0 where
  pub fltr : Option F
  pub sort : CursorKeys
  pub offset : ℕ
  pub limit : Option ℕ
  pub cursor : Option Text
  pub extra_filters : List CursorPredicate
  pub keys : CursorKeys
  pub query : Text
  pub backwards : Bool

-- `CursorPage`
pub record CursorPage : Type 0 where
  pub results : List Record
  pub limit : ℕ
  pub has_more : Bool
  pub has_previous : Bool
  pub next : Option Text
  pub previous : Option Text
  pub first : Option Text
  pub last : Option Text

-- `descending != backwards`
abbrev pub unlike : Bool → Bool → Bool
unlike true b = not b
unlike false b = b

-- the ordering of the query, reversed when reading backwards
unfoldable pub directed_keys : Bool → CursorKeys → CursorKeys
directed_keys backwards [] = []
directed_keys backwards ((name, descending) ∷ keys) =
    (name, unlike descending backwards) ∷ directed_keys backwards keys

-- the truth of `query.cursor`
abbrev pub given : Option Text → Bool
given none = false
given (some []) = false
given (some (c ∷ cs)) = true

-- a row that every filter of the pipeline accepts
unfoldable pub matches_all : List CursorPredicate → Record → Bool
unfolding matches
matches_all [] row = true
matches_all (p ∷ ps) row = matches p row && matches_all ps row

unfoldable pub accepted : {F : Type 0} → (F → Record → Bool) → Option F → Record → Bool
accepted accepts none row = true
accepted accepts (some f) row = accepts f row

-- `results[-1]`
unfoldable pub last_row : Record → List Record → Record
last_row row [] = row
last_row row (next ∷ rows) = last_row next rows

module _ {F : Type 0} (viewset : Viewset F) where
  -- the query as `_prepare_cursor` leaves it, with the cursor's direction and predicates
  abbrev pub prepared : ListQuery F → CursorKeys → Text → Bool → List CursorPredicate → ListQuery F
  prepared query keys fingerprint backwards predicates = record {
    fltr = query.fltr;
    sort = directed_keys backwards keys;
    offset = query.offset;
    limit = query.limit;
    cursor = query.cursor;
    extra_filters = query.extra_filters ++ predicates;
    keys = keys;
    query = fingerprint;
    backwards = backwards;
  }

  abbrev pub prepared_from :
      ListQuery F → CursorKeys → Text → Decoded CursorState → Decoded (ListQuery F)
  prepared_from query keys fingerprint (error e) = error e
  prepared_from query keys fingerprint (ok state) = ok (
      prepared query keys fingerprint state.backwards
        (make_predicate state keys viewset.nulls_first ∷ []))

  abbrev pub prepared_by : ListQuery F → CursorKeys → Text → Option Text → Decoded (ListQuery F)
  prepared_by query keys fingerprint none = ok (prepared query keys fingerprint false [])
  prepared_by query keys fingerprint (some []) = ok (prepared query keys fingerprint false [])
  prepared_by query keys fingerprint (some (c ∷ cs)) =
      prepared_from query keys fingerprint
        (decode_cursor viewset.codec (c ∷ cs) keys fingerprint viewset.annotations)

  -- `_prepare_cursor`
  unfoldable pub prepare_cursor : ListQuery F → Decoded (ListQuery F)
  prepare_cursor query =
      let keys = cursor_keys query.sort viewset.pk_field_name in
      prepared_by query keys (viewset.fingerprint keys query.fltr) query.cursor

  -- `apply_filter`, for a declared filter model
  unfoldable pub apply_filter : ListQuery F → List Record → List Record
  unfolding accepted matches_all
  apply_filter query records =
      filter (λ row. accepted viewset.accepts query.fltr row && matches_all query.extra_filters row)
        records

  -- `apply_sort`: an empty ordering leaves the rows as they are
  unfoldable pub apply_sort : CursorKeys → List Record → List Record
  unfolding sort_list
  apply_sort [] records = records
  apply_sort (key ∷ keys) records = sort_list (key ∷ keys) viewset.nulls_first records

  -- the text of a cursor at the position of a row
  unfoldable pub anchor : CursorKeys → Text → Bool → Bool → Record → Text
  unfolding encode position_of
  anchor keys query backwards inclusive row = encode viewset.codec (record {
    position = position_of row keys;
    backwards = backwards;
    inclusive = inclusive;
    query = query;
  })

  -- `_cursor_anchors` and the page that `_cursor_page` builds of its results
  unfoldable pub page_of : ListQuery F → ℕ → List Record → Bool → Bool → CursorPage
  unfolding anchor last_row
  page_of query limit [] has_more has_previous = record {
    results = [];
    limit = limit;
    has_more = has_more;
    has_previous = has_previous;
    next = none;
    previous = none;
    first = none;
    last = none;
  }
  page_of query limit (head ∷ rows) has_more has_previous =
      let tail = last_row head rows in
      record {
        results = head ∷ rows;
        limit = limit;
        has_more = has_more;
        has_previous = has_previous;
        next = if has_more then some (anchor query.keys query.query false false tail) else none;
        previous =
            if has_previous then some (anchor query.keys query.query true false head) else none;
        first = some (anchor query.keys query.query true true head);
        last = some (anchor query.keys query.query false true tail);
      }

  -- the page in reading order, and what lies on either side of it
  abbrev pub turned : Bool → ListQuery F → ℕ → List Record × Bool → CursorPage
  turned false query limit (page, has_more) = page_of query limit page has_more (given query.cursor)
  turned true query limit (page, has_more) =
      page_of query limit (reverse page) (given query.cursor) has_more

  -- `_cursor_page`
  unfoldable pub cursor_page : ListQuery F → ℕ → List Record → CursorPage
  unfolding take_page page_of
  cursor_page query limit records =
      turned query.backwards query limit (take_page records query.offset limit)

  abbrev pub page_size : ListQuery F → ℕ
  page_size query = elim query.limit [ none ↦ viewset.default_page_size | some n ↦ n ]

  abbrev pub answered : ℕ → List Record → Decoded (ListQuery F) → Decoded CursorPage
  answered limit records (error e) = error e
  answered limit records (ok query) =
      ok (cursor_page query limit (apply_sort query.sort (apply_filter query records)))

  -- `get_list` for the cursor shape
  unfoldable pub get_list : ListQuery F → List Record → Decoded CursorPage
  unfolding prepare_cursor cursor_page apply_filter apply_sort
  get_list query records = answered (page_size query) records (prepare_cursor query)
