-- ===== src/Listing/Requests.antt =====
-- Requests for cursor pages, as `list_items` of fastapi_viewsets/mixins.py makes them, and what
-- `_prepare_cursor`, `apply_filter` and `take_page` make of them.
use fastapi_viewsets.Prelude.{
  ℕ, zero, suc, ◌+◌, ◌≡◌, ◌≢◌, refl, Text, List, [], ◌∷◌, Bool, true, false, Bool-cases, inl, inr,
  Option, none, some, All, filter, take, length, ltb, arith, ap, ◌∙◌, ◌&&◌, subst, reverse,
  length-append,
}
use mathlib.Core.List.{reverse-cons}
use fastapi_viewsets.Listing.Values.{Record, read}
use fastapi_viewsets.Listing.Order.{CursorKeys, cursor_keys, position_of, sort_list, has_key}
use fastapi_viewsets.Listing.Rows.{IsTyped, HasUniqueKeys}
use fastapi_viewsets.Listing.Sorting.{All-filter}
use fastapi_viewsets.Listing.Cursors.{
  Payload, object, Codec, ok, decode_cursor, encode, make_predicate,
}
use fastapi_viewsets.Listing.Keys.{Kind}
use fastapi_viewsets.Listing.RoundTrip.{Fits, decode_cursor-encode}
use fastapi_viewsets.Listing.Pages.{
  take_page, Viewset, ListQuery, accepted, prepare_cursor, prepared, prepared_by, prepared_from,
  anchor, given, apply_sort, directed_keys,
}

-- The query that `list_items` builds for the cursor shape.
abbrev pub request : {F : Type 0} → Option F → CursorKeys → ℕ → Option Text → ListQuery F
request fltr sort limit cursor = record {
  fltr = fltr;
  sort = sort;
  offset = 0;
  limit = some limit;
  cursor = cursor;
  extra_filters = [];
  keys = [];
  query = [];
  backwards = false;
}

-- Documented behaviour of JSON and base64: decoding undoes encoding, and an empty text is no JSON.
pub record IsCodec (codec : Codec) : Type 0 where
  pub loads_dumps : (payload : Payload) → codec.loads (codec.dumps payload) ≡ some payload
  pub loads_empty : codec.loads [] ≡ none

module _ {F : Type 0} (viewset : Viewset F) where
  abbrev pub keys_of : CursorKeys → CursorKeys
  keys_of sort = cursor_keys sort viewset.pk_field_name

  abbrev pub query_of : Option F → CursorKeys → Text
  query_of fltr sort = viewset.fingerprint (keys_of sort) fltr

  -- Rows whose key fields hold one kind of value each, which decoding gives back, and whose primary
  -- keys differ.
  pub record IsListing (kinds : Text → Kind) (sort : CursorKeys) (records : List Record)
      : Type 0 where
    pub typed : All (IsTyped kinds (keys_of sort)) records
    pub fits : All (Fits viewset.annotations (keys_of sort)) records
    pub unique : HasUniqueKeys viewset.pk_field_name records

  -- The whole answer: what the filter accepts, in the order of the client's keys and then the
  -- primary key.
  abbrev pub whole : Option F → CursorKeys → List Record → List Record
  whole fltr sort records =
      sort_list (keys_of sort) viewset.nulls_first (filter (accepted viewset.accepts fltr) records)

  module _ (codec : IsCodec viewset.codec) where
    dumps-given : (payload : Payload) → viewset.codec.dumps payload ≢ []
    dumps-given payload e =
        let found = codec.loads_dumps payload in
        let lost = ap viewset.codec.loads e ∙ codec.loads_empty in ground (arith, found, lost)

    pub anchor-given :
        (keys : CursorKeys) (query : Text) (b i : Bool) (row : Record)
        → given (some (anchor viewset keys query b i row)) ≡ true
    unfolding anchor encode
    anchor-given keys query b i row =
        given_cons (viewset.codec.dumps (object (some (position_of row keys)) b i (some query)))
          (dumps-given (object (some (position_of row keys)) b i (some query)))
      where
        given_cons : (raw : Text) → raw ≢ [] → given (some raw) ≡ true
        given_cons [] h = absurd (h refl)
        given_cons (c ∷ cs) h = refl

    prepared_by-given :
        (query : ListQuery F) (keys : CursorKeys) (fingerprint raw : Text)
        → given (some raw) ≡ true
        → prepared_by viewset query keys fingerprint (some raw)
          ≡ prepared_from viewset query keys fingerprint
              (decode_cursor viewset.codec raw keys fingerprint viewset.annotations)
    prepared_by-given query keys fingerprint [] h = ground arith
    prepared_by-given query keys fingerprint (c ∷ cs) h = refl

    -- With the cursor of a row, the query gets that cursor's direction and its predicate.
    pub prepare_cursor-anchor :
        (fltr : Option F) (sort : CursorKeys) (limit : ℕ) (b i : Bool) (row : Record)
        → Fits viewset.annotations (keys_of sort) row
        → prepare_cursor viewset (
            request fltr sort limit
              (some (anchor viewset (keys_of sort) (query_of fltr sort) b i row)))
          ≡ ok (
              prepared viewset
                (request fltr sort limit
                  (some (anchor viewset (keys_of sort) (query_of fltr sort) b i row)))
                (keys_of sort)
                (query_of fltr sort)
                b
                (make_predicate
                    (record {
                      position = position_of row (keys_of sort);
                      backwards = b;
                      inclusive = i;
                      query = query_of fltr sort;
                    })
                    (keys_of sort)
                    viewset.nulls_first
                  ∷ []))
    unfolding prepare_cursor anchor
    prepare_cursor-anchor fltr sort limit b i row fits =
        let keys = keys_of sort in
        let query = query_of fltr sort in
        let raw = anchor viewset keys query b i row in
        prepared_by-given (request fltr sort limit (some raw)) keys query raw
          (anchor-given keys query b i row)
        ∙ ap (prepared_from viewset (request fltr sort limit (some raw)) keys query) (
            decode_cursor-encode viewset.codec viewset.annotations keys row b i query
              codec.loads_dumps fits)

module _ {A : Type 0} where
  pub filter-and :
      (p q : A → Bool) (xs : List A) → filter (λ x. p x && q x) xs ≡ filter q (filter p xs)
  filter-and p q [] = refl
  filter-and p q (x ∷ xs) = elim (Bool-cases (p x)) [
    | inl e ↦ ground (arith, filter-and p q xs)
    | inr e ↦ ground (arith, filter-and p q xs)
  ]

  take-take : (n : ℕ) (xs : List A) → take n (take (suc n) xs) ≡ take n xs
  take-take zero xs = refl
  take-take (suc n) [] = refl
  take-take (suc n) (x ∷ xs) = ap (λ ys. x ∷ ys) (take-take n xs)

  ltb-length-take : (n : ℕ) (xs : List A) → ltb n (length (take (suc n) xs)) ≡ ltb n (length xs)
  ltb-length-take zero [] = refl
  ltb-length-take zero (x ∷ xs) = ground arith
  ltb-length-take (suc n) [] = refl
  ltb-length-take (suc n) (x ∷ xs) = ground (arith, ltb-length-take n xs)

  -- From the start, the page is the first `limit` rows, and more follow where there are more.
  pub take_page-start :
      (xs : List A) (limit : ℕ) → take_page xs 0 limit ≡ (take limit xs, ltb limit (length xs))
  unfolding take_page
  take_page-start xs limit =
      let next : suc limit ≡ limit + 1 = omega arith in
      subst
        (λ n.
          ◌≡◌ {A = List A × Bool} (take limit (take n xs), ltb limit (length (take n xs)))
            (take limit xs, ltb limit (length xs)))
        next (λ i. (take-take limit xs i, ltb-length-take limit xs i))

pub apply_sort-keys :
    {F : Type 0} (viewset : Viewset F) (keys : CursorKeys) (pk : Text) (rows : List Record)
    → has_key pk keys ≡ true
    → apply_sort viewset keys rows ≡ sort_list keys viewset.nulls_first rows
unfolding apply_sort
apply_sort-keys viewset [] pk rows h = ground arith
apply_sort-keys viewset (key ∷ keys) pk rows h = refl

pub HasUniqueKeys-filter :
    (pk : Text) (p : Record → Bool) (rows : List Record)
    → HasUniqueKeys pk rows
    → HasUniqueKeys pk (filter p rows)
HasUniqueKeys-filter pk p [] h = tt
HasUniqueKeys-filter pk p (row ∷ rows) h = elim (Bool-cases (p row)) [
  | inl e ↦ rw e (
    All-filter (λ other. read row pk ≢ read other pk) p rows h.0,
    HasUniqueKeys-filter pk p rows h.1,
  )
  | inr e ↦ rw e (HasUniqueKeys-filter pk p rows h.1)
]

pub apply_sort-directed :
    {F : Type 0} (viewset : Viewset F) (keys : CursorKeys) (pk : Text) (rows : List Record)
    → has_key pk keys ≡ true
    → apply_sort viewset (directed_keys true keys) rows
      ≡ sort_list (directed_keys true keys) viewset.nulls_first rows
unfolding apply_sort directed_keys
apply_sort-directed viewset [] pk rows h = ground arith
apply_sort-directed viewset (key ∷ keys) pk rows h = refl

pub length-reverse : {A : Type 0} (xs : List A) → length (reverse xs) ≡ length xs
length-reverse [] = refl
length-reverse (x ∷ xs) =
    ap length (reverse-cons x xs)
    ∙ length-append (reverse xs) (x ∷ [])
    ∙ omega (arith, length-reverse xs)
