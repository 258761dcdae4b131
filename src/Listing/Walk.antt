-- ===== src/Listing/Walk.antt =====
-- A client that follows `next` from the first page on: `get_list` of fastapi_viewsets/mixins.py.
use fastapi_viewsets.Prelude.{
  take_all, ℕ, zero, suc, ◌<◌, ◌≡◌, refl, Text, List, [], ◌∷◌, ◌++◌, append_assoc, Bool, true,
  false, Bool-cases, inl, inr, Option, none, some, take, length, ltb, ltb→lt, arith, ap, sym, ◌∙◌,
  length-append,
}
use fastapi_viewsets.Listing.Values.{Record}
use fastapi_viewsets.Listing.Order.{CursorKeys}
use fastapi_viewsets.Listing.Keys.{Kind}
use fastapi_viewsets.Listing.Cursors.{Decoded, ok, error}
use fastapi_viewsets.Listing.Pages.{
  Viewset, ListQuery, CursorPage, page_of, get_list, anchor, last_row, prepared,
}
use fastapi_viewsets.Listing.Requests.{request, IsCodec, keys_of, query_of, IsListing, whole}
use fastapi_viewsets.Listing.Turning.{get_list-first, get_list-next, prepared_at}

abbrev prepend : List Record → Option (List Record) → Option (List Record)
prepend rows none = none
prepend rows (some more) = some (rows ++ more)

-- The rows of a page, and of the pages that its `next` leads to.
abbrev rows_from : (Text → Option (List Record)) → List Record → Option Text → Option (List Record)
rows_from more results none = some results
rows_from more results (some cursor) = prepend results (more cursor)

abbrev follow : (Text → Option (List Record)) → Decoded CursorPage → Option (List Record)
follow more (error e) = none
follow more (ok page) = rows_from more page.results page.next

-- All rows that a client reads by following `next`, at most `fuel` pages; none where a cursor is
-- refused or the fuel runs out.
unfoldable pub walk :
    {F : Type 0}
    → Viewset F
    → Option F
    → CursorKeys
    → ℕ
    → List Record
    → (fuel : ℕ) → Option Text
    → Option (List Record)
unfolding get_list
walk viewset fltr sort limit records zero cursor = none
walk viewset fltr sort limit records (suc fuel) cursor =
    follow (λ next. walk viewset fltr sort limit records fuel (some next))
      (get_list viewset (request fltr sort limit cursor) records)

module _ {A : Type 0} where
  -- A page shorter than the list ends in a row of the list, with the rest after it.
  take_split :
      (n : ℕ) (xs : List A)
      → 0 < n
      → n < length xs
      → (init : List A) × (a : A) × (post : List A) × (take n xs ≡ init ++ a ∷ [])
        × (xs ≡ init ++ a ∷ post)
  take_split zero xs h k = ground arith
  take_split (suc n) [] h k = ground arith
  take_split (suc zero) (x ∷ xs) h k = ([], x, xs, refl, refl)
  take_split (suc (suc n)) (x ∷ xs) h k =
      let (init, a, post, e, f) = take_split (suc n) xs (omega arith) (omega arith) in
      (x ∷ init, a, post, ap (λ ys. x ∷ ys) e, ap (λ ys. x ∷ ys) f)

length-rest :
    {A : Type 0} (xs init : List A) (b : A) (rest : List A) (n : ℕ)
    → xs ≡ init ++ b ∷ rest
    → length xs < suc n
    → length rest < n
length-rest xs init b rest n inner h = omega (arith, ap length inner, length-append init (b ∷ rest))

last_row-append :
    (row : Record) (init : List Record) (a : Record) → last_row row (init ++ a ∷ []) ≡ a
unfolding last_row
last_row-append row [] a = refl
last_row-append row (x ∷ init) a = last_row-append x init a

module _ {F : Type 0} (viewset : Viewset F) (query : ListQuery F) (limit : ℕ)
    (has_previous : Bool) where
  follow-end :
      (more : Text → Option (List Record)) (rows : List Record)
      → follow more (ok (page_of viewset query limit rows false has_previous)) ≡ some rows
  unfolding page_of
  follow-end more [] = refl
  follow-end more (row ∷ rows) = refl

  follow-more :
      (more : Text → Option (List Record)) (init : List Record) (a : Record)
      → follow more (ok (page_of viewset query limit (init ++ a ∷ []) true has_previous))
        ≡ prepend (init ++ a ∷ []) (more (anchor viewset query.keys query.query false false a))
  unfolding page_of last_row
  follow-more more [] a = refl
  follow-more more (row ∷ init) a =
      ap
        (λ tail.
          prepend (row ∷ init ++ a ∷ [])
            (more (anchor viewset query.keys query.query false false tail)))
        (last_row-append row init a)

  -- If what follows a row can be read at its cursor, a page leads to all of the list.
  follow-page :
      (more : Text → Option (List Record)) (xs : List Record)
      → 0 < limit
      → ((init : List Record) (a : Record) (post : List Record)
          → xs ≡ init ++ a ∷ post
          → more (anchor viewset query.keys query.query false false a) ≡ some post)
      → follow more
          (ok (page_of viewset query limit (take limit xs) (ltb limit (length xs)) has_previous))
        ≡ some xs
  follow-page more xs positive next = elim (Bool-cases (ltb limit (length xs))) [
    | inl e ↦
        let (init, a, post, taken, split) =
          take_split limit xs positive (ltb→lt limit (length xs) e) in
        (λ i. follow more (ok (page_of viewset query limit (taken i) (e i) has_previous)))
        ∙ follow-more more init a
        ∙ ap (prepend (init ++ a ∷ [])) (next init a post split)
        ∙ ap some (append_assoc init (a ∷ []) post ∙ sym split)
    | inr e ↦ rw (e, take_all limit xs (ground arith)) (follow-end more xs)
  ]

module _ {F : Type 0} (viewset : Viewset F) (kinds : Text → Kind) (fltr : Option F)
    (sort : CursorKeys) (records : List Record) (listing : IsListing viewset kinds sort records)
    (codec : IsCodec viewset.codec) (limit : ℕ) (positive : 0 < limit) where
  -- Following `next` from a row on reads what comes after it in the whole answer.
  pub walk-after :
      (fuel : ℕ) (pre : List Record) (a : Record) (post : List Record)
      → whole viewset fltr sort records ≡ pre ++ a ∷ post
      → length post < fuel
      → walk viewset fltr sort limit records fuel
          (some (anchor viewset (keys_of viewset sort) (query_of viewset fltr sort) false false a))
        ≡ some post
  unfolding walk
  walk-after zero pre a post split h = ground arith
  walk-after (suc fuel) pre a post split h =
      let more = λ (next : Text). walk viewset fltr sort limit records fuel (some next) in
      ap (follow more)
        (get_list-next viewset kinds fltr sort records listing codec limit pre a post split)
      ∙ follow-page viewset
          (prepared_at viewset kinds fltr sort records listing codec limit a false) limit true more
          post positive
          (λ init b rest inner.
            walk-after fuel (pre ++ a ∷ init) b rest
              (split
                ∙ ap (λ xs. pre ++ a ∷ xs) inner
                ∙ sym (append_assoc pre (a ∷ init) (b ∷ rest)))
              (length-rest post init b rest fuel inner h))

  -- Let the rows hold one kind of value in each key field, have different primary keys and survive
  -- decoding, let decoding undo encoding, and let a page hold at least one row.
  -- Following `next` from the first page on, with more fuel than the answer has rows, no cursor is
  -- refused and the pages together are the whole answer: each row that the filter accepts once, in the
  -- order of the client's keys and then the primary key.
  pub walk-whole :
      (fuel : ℕ)
      → length (whole viewset fltr sort records) < fuel
      → walk viewset fltr sort limit records fuel none ≡ some (whole viewset fltr sort records)
  unfolding walk
  walk-whole zero h = ground arith
  walk-whole (suc fuel) h =
      let more = λ (next : Text). walk viewset fltr sort limit records fuel (some next) in
      let xs = whole viewset fltr sort records in
      ap (follow more) (get_list-first viewset kinds fltr sort records listing codec limit)
      ∙ follow-page viewset
          (prepared viewset (request fltr sort limit none) (keys_of viewset sort)
            (query_of viewset fltr sort) false [])
          limit false more xs positive
          (λ init b rest inner.
            walk-after fuel init b rest inner (length-rest xs init b rest fuel inner h))
