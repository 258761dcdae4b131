-- ===== src/Listing/Lazy.antt =====
-- `take_page` of fastapi_viewsets/list_query.py on a lazy source, against its slices of a list.
use fastapi_viewsets.Prelude.{
  ℕ, zero, suc, ◌+◌, ◌≤◌, ◌≡◌, refl, List, [], ◌∷◌, ◌++◌, append_assoc, append-nil, false, take,
  drop, length, ltb, arith, sym, ◌∙◌, length-append,
}
use fastapi_viewsets.Listing.Pages.{take_page, take_lazily}
use fastapi_viewsets.Listing.Requests.{take_page-start}

ltb_zero : (n : ℕ) → ltb n 0 ≡ false
ltb_zero n = ground arith

take_nil : {A : Type 0} (n : ℕ) → take {A = A} n [] ≡ []
take_nil zero = refl
take_nil (suc n) = refl

module _ {A : Type 0} (offset limit : ℕ) where
  -- Past the skipped rows, with room for `room` more rows on the page.
  filling :
      (xs page : List A) (index room : ℕ)
      → offset ≤ index
      → length page + room ≡ limit
      → take_lazily offset limit index page xs ≡ (page ++ take room xs, ltb room (length xs))
  unfolding take_lazily
  filling [] page index zero h k = λ i. (sym (append-nil page) i, false)
  filling [] page index (suc room) h k = λ i. (sym (append-nil page) i, sym (ltb_zero (suc room)) i)
  filling (x ∷ xs) page index zero h k = ground (arith, append-nil page)
  filling (x ∷ xs) page index (suc room) h k =
      let more =
        filling xs (page ++ x ∷ []) (index + 1) room (omega arith)
          (omega (arith, length-append page (x ∷ []))) in
      ground (arith, more, append_assoc page (x ∷ []) (take room xs))

  skipping :
      (xs : List A) (index left : ℕ)
      → index + left ≡ offset
      → take_lazily offset limit index [] xs
        ≡ (take limit (drop left xs), ltb limit (length (drop left xs)))
  unfolding take_lazily
  skipping xs index zero k = filling xs [] index limit (omega arith) (omega arith)
  skipping [] index (suc left) k = λ i. (sym (take_nil limit) i, sym (ltb_zero limit) i)
  skipping (x ∷ xs) index (suc left) k = ground (arith, skipping xs (index + 1) left)

-- Of a lazy source, the loop over its rows takes the page that slicing the whole list takes, and
-- finds more rows exactly where the list has them.
pub take_lazily-take_page :
    {A : Type 0} (xs : List A) (offset limit : ℕ)
    → take_lazily offset limit 0 [] xs ≡ take_page xs offset limit
unfolding take_page
take_lazily-take_page xs offset limit =
    skipping offset limit xs 0 offset (omega arith) ∙ sym (take_page-start (drop offset xs) limit)
