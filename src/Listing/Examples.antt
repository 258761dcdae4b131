-- ===== src/Listing/Examples.antt =====
-- The list pipeline at concrete rows.
use fastapi_viewsets.Prelude.{
  ℕ, ◌≡◌, ◌<◌, refl, lookup, Text, text, List, [], ◌∷◌, Bool, true, false, none, some, nat_beq, not,
  length, arith, list_eq, nat_eq,
}
use fastapi_viewsets.Listing.Values.{Value, null, pos, Record, read, compare_values}
use fastapi_viewsets.Listing.Order.{
  CursorKeys, sort_list, compare_in_order, compare_rows, cursor_keys, position_of,
}
use fastapi_viewsets.Listing.Keys.{Kind, numbers, absent, natural}
use fastapi_viewsets.Listing.Cursors.{ok, encode, decode_cursor, coerce_value}
use fastapi_viewsets.Listing.RoundTrip.{Fits, decode_cursor-encode}
use fastapi_viewsets.Listing.Pages.{Viewset, accepted, directed_keys, page_of, get_list, anchor}
use fastapi_viewsets.Listing.Requests.{request, IsListing, whole, keys_of, query_of}
use fastapi_viewsets.Listing.Turning.{get_list-next, get_list-previous, prepared_at}
use fastapi_viewsets.Listing.Walk.{walk, walk-whole}
use fastapi_viewsets.Listing.Wire.{wire, wire-IsCodec}

abbrev id : Text
id = text "id"

abbrev score : Text
score = text "score"

abbrev row : ℕ → Value → Record
row n v = (id, pos n) ∷ (score, v) ∷ []

abbrev records : List Record
records = row 1 (pos 5) ∷ row 2 null ∷ row 3 (pos 7) ∷ row 4 (pos 5) ∷ row 9 (pos 6) ∷ []

-- All rows but the one with the given id.
abbrev other_than : ℕ → Record → Bool
other_than n r = elim (read r id) [ pos m ↦ not (nat_beq m n) | _ ↦ true ]

abbrev viewset : Viewset ℕ
viewset = record {
  pk_field_name = id;
  nulls_first = true;
  annotations = λ name. none;
  default_page_size = 2;
  accepts = other_than;
  fingerprint = λ keys fltr. text "q";
  codec = wire;
}

abbrev sort : CursorKeys
sort = (score, true) ∷ []

abbrev kinds : Text → Kind
kinds name = numbers

records-IsListing : IsListing viewset kinds sort records
unfolding cursor_keys read lookup coerce_value
records-IsListing = record {
  typed = (
    (natural 5, (natural 1, tt)),
    (
      (absent, (natural 2, tt)),
      (
        (natural 7, (natural 3, tt)),
        ((natural 5, (natural 4, tt)), ((natural 6, (natural 9, tt)), tt)),
      ),
    ),
  );
  fits = (
    (refl, (refl, tt)),
    ((refl, (refl, tt)), ((refl, (refl, tt)), ((refl, (refl, tt)), ((refl, (refl, tt)), tt)))),
  );
  unique = (
    ((λ e. cc), ((λ e. cc), ((λ e. cc), ((λ e. cc), tt)))),
    (
      ((λ e. cc), ((λ e. cc), ((λ e. cc), tt))),
      (((λ e. cc), ((λ e. cc), tt)), (((λ e. cc), tt), (tt, tt))),
    ),
  );
}

abbrev answer : List Record
answer = row 3 (pos 7) ∷ row 1 (pos 5) ∷ row 4 (pos 5) ∷ row 2 null ∷ []

answer_split : whole viewset (some 9) sort records ≡ answer
unfolding sort_list cursor_keys accepted read lookup compare_rows compare_in_order compare_values
answer_split = refl

row-Fits : Fits viewset.annotations sort (row 2 null)
unfolding read lookup coerce_value
row-Fits = (refl, tt)

-- Two rows a page: the first page, the second, and back.
first_page :
    get_list viewset (request (some 9) sort 2 none) records
    ≡ ok (record {
      results = row 3 (pos 7) ∷ row 1 (pos 5) ∷ [];
      limit = 2;
      has_more = true;
      has_previous = false;
      next = some (anchor viewset (keys_of viewset sort) (text "q") false false (row 1 (pos 5)));
      previous = none;
      first = some (anchor viewset (keys_of viewset sort) (text "q") true true (row 3 (pos 7)));
      last = some (anchor viewset (keys_of viewset sort) (text "q") false true (row 1 (pos 5)));
    })
unfolding get_list cursor_keys anchor directed_keys read lookup compare_rows compare_in_order
    compare_values
first_page = refl

get_list-next_example :
    get_list viewset
      (request (some 9) sort 2 (
        some (
          anchor viewset
            (keys_of viewset sort)
            (query_of viewset (some 9) sort)
            false
            false
            (row 1 (pos 5)))))
      records
    ≡ ok (
        page_of viewset
          (prepared_at viewset kinds
            (some 9)
            sort
            records
            records-IsListing
            wire-IsCodec
            2
            (row 1 (pos 5))
            false)
          2
          (row 4 (pos 5) ∷ row 2 null ∷ [])
          false
          true)
get_list-next_example =
    get_list-next viewset kinds (some 9) sort records records-IsListing wire-IsCodec 2
      (row 3 (pos 7) ∷ []) (row 1 (pos 5)) (row 4 (pos 5) ∷ row 2 null ∷ []) answer_split

get_list-previous_example :
    get_list viewset
      (request (some 9) sort 2 (
        some (
          anchor viewset
            (keys_of viewset sort)
            (query_of viewset (some 9) sort)
            true
            false
            (row 2 null))))
      records
    ≡ ok (
        page_of viewset
          (prepared_at viewset kinds
            (some 9)
            sort
            records
            records-IsListing
            wire-IsCodec
            2
            (row 2 null)
            true)
          2
          (row 1 (pos 5) ∷ row 4 (pos 5) ∷ [])
          true
          true)
get_list-previous_example =
    get_list-previous viewset kinds (some 9) sort records records-IsListing wire-IsCodec 2
      (row 3 (pos 7) ∷ row 1 (pos 5) ∷ row 4 (pos 5) ∷ []) (row 2 null) [] answer_split

answer_short : length (whole viewset (some 9) sort records) < 5
unfolding sort_list cursor_keys accepted read lookup compare_rows compare_in_order compare_values
answer_short = omega arith

walk-whole_example :
    walk viewset (some 9) sort 2 records 5 none ≡ some (whole viewset (some 9) sort records)
walk-whole_example =
    walk-whole viewset kinds (some 9) sort records records-IsListing wire-IsCodec 2 (omega arith) 5
      answer_short

decode_cursor-encode_example :
    decode_cursor wire
      (encode wire (record {
        position = position_of (row 2 null) sort;
        backwards = true;
        inclusive = false;
        query = text "q";
      }))
      sort
      (text "q")
      viewset.annotations
    ≡ ok (record {
      position = position_of (row 2 null) sort;
      backwards = true;
      inclusive = false;
      query = text "q";
    })
decode_cursor-encode_example =
    decode_cursor-encode wire viewset.annotations sort (row 2 null) true false (text "q")
      wire-IsCodec.loads_dumps row-Fits
