-- ===== src/Listing/Paginated.antt =====
-- The paginated and the plain shape of fastapi_viewsets/mixins.py (`apply_pagination`, `count_records`) over
-- an in-memory source.
use fastapi_viewsets.Prelude.{
  ℕ, zero, suc, ◌+◌, ◌≤◌, ◌<◌, ltb, ltb→lt, List, [], ◌∷◌, ◌++◌, Option, none, some, Bool, true,
  false, length, take, drop, take-append-drop, take_all, ◌≡◌, refl, arith, ap, sym, ◌∙◌, Bool-cases,
  inl, inr,
}
use fastapi_viewsets.Listing.Pages.{take_page}
use fastapi_viewsets.Listing.Requests.{take_page-start}
pub mod Examples

-- `PaginatedList`
pub record PaginatedList (A : Type 0) : Type 0 where
  pub results : List A
  pub offset : ℕ
  pub limit : Option ℕ
  pub count : Option ℕ
  pub has_more : Bool
  pub has_previous : Bool

-- What a list request answers in: the plain list, or a page.
pub data Listed (A : Type 0) : Type 0 where
  plain : List A → Listed A
  paginated : PaginatedList A → Listed A

-- `apply_pagination` for a sorted and filtered list, without the cursor shape
unfoldable pub apply_pagination : {A : Type 0} → ℕ → Option ℕ → List A → Listed A
unfolding take_page
apply_pagination offset none records = plain records
apply_pagination offset (some limit) records =
    let page = take_page records offset limit in
    paginated (record {
      results = page.0;
      offset = offset;
      limit = some limit;
      count = some (length records);
      has_more = page.1;
      has_previous = ltb 0 offset;
    })

abbrev results_of : {A : Type 0} → Listed A → List A
results_of (plain records) = records
results_of (paginated page) = page.results

abbrev more_of : {A : Type 0} → Listed A → Bool
more_of (plain records) = false
more_of (paginated page) = page.has_more

-- The rows that a client reads which asks for the next offset as long as a page says that more follow,
-- at most `fuel` pages; none where the fuel runs out.
abbrev extended : {A : Type 0} → List A → Option (List A) → Option (List A)
extended rows none = none
extended rows (some more) = some (rows ++ more)

abbrev read_from : {A : Type 0} → Bool → List A → Option (List A) → Option (List A)
read_from false rows rest = some rows
read_from true rows rest = extended rows rest

abbrev pub read_pages : {A : Type 0} → ℕ → List A → (fuel : ℕ) → ℕ → Option (List A)
read_pages limit records zero offset = none
read_pages limit records (suc fuel) offset =
    let rest = read_pages limit records fuel (offset + limit) in
    let answer = apply_pagination offset (some limit) records in
    read_from (more_of answer) (results_of answer) rest

module _ {A : Type 0} where
  drop-nil : (n : ℕ) → drop {A = A} n [] ≡ []
  drop-nil zero = refl
  drop-nil (suc n) = refl

  drop-drop : (m n : ℕ) (xs : List A) → drop n (drop m xs) ≡ drop (m + n) xs
  drop-drop zero n xs = ap (λ k. drop k xs) (omega arith)
  drop-drop (suc m) n [] = drop-nil n ∙ sym (drop-nil (suc m + n))
  drop-drop (suc m) n (x ∷ xs) =
      let next : suc (m + n) ≡ suc m + n = omega arith in
      drop-drop m n xs ∙ ap (λ k. drop k (x ∷ xs)) next

  length-drop : (n : ℕ) (xs : List A) → length (drop n xs) ≤ length xs
  length-drop zero xs = omega arith
  length-drop (suc n) [] = omega arith
  length-drop (suc n) (x ∷ xs) = omega (arith, length-drop n xs)

  length-drop-lt : (n : ℕ) (xs : List A) → 0 < n → n < length xs → length (drop n xs) < length xs
  length-drop-lt zero xs p h = ground arith
  length-drop-lt (suc n) [] p h = ground arith
  length-drop-lt (suc n) (x ∷ xs) p h = omega (arith, length-drop n xs)

  read_from-apply_pagination :
      (limit : ℕ) (records : List A) (offset : ℕ) (rest : Option (List A))
      → read_from
          (more_of (apply_pagination offset (some limit) records))
          (results_of (apply_pagination offset (some limit) records))
          rest
        ≡ read_from
            (ltb limit (length (drop offset records)))
            (take limit (drop offset records))
            rest
  unfolding apply_pagination take_page
  read_from-apply_pagination limit records offset rest =
      ap (λ page. read_from page.1 page.0 rest) (take_page-start (drop offset records) limit)

  -- With pages of at least one row and more fuel than there are rows past the offset, asking for the next
  -- offset as long as a page says that more follow gives exactly the rows past the offset, each once and
  -- in order.
  pub read_pages-drop :
      (limit : ℕ) (records : List A) (fuel offset : ℕ)
      → 0 < limit
      → length (drop offset records) < fuel
      → read_pages limit records fuel offset ≡ some (drop offset records)
  read_pages-drop limit records zero offset positive enough = ground arith
  read_pages-drop limit records (suc fuel) offset positive enough =
      read_from-apply_pagination limit records offset
        (read_pages limit records fuel (offset + limit))
      ∙ elim (Bool-cases (ltb limit (length (drop offset records)))) [
        | inl more ↦
            let lt = ltb→lt limit (length (drop offset records)) more in
            let shorter = length-drop-lt limit (drop offset records) positive lt in
            let same = drop-drop offset limit records in
            let rest =
              read_pages-drop limit records fuel (offset + limit) positive
                (omega (arith, ap length same)) in
            ap
              (λ b.
                read_from b (take limit (drop offset records))
                  (read_pages limit records fuel (offset + limit)))
              more
            ∙ ap (extended (take limit (drop offset records))) (rest ∙ ap some (sym same))
            ∙ ap some (take-append-drop limit (drop offset records))
        | inr done ↦
            ap
              (λ b.
                read_from b (take limit (drop offset records))
                  (read_pages limit records fuel (offset + limit)))
              done
            ∙ ap some (take_all limit (drop offset records) (ground (arith, done)))
      ]
