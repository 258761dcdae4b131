-- ===== src/Listing/Cuts.antt =====
-- Cutting a sorted list at one of its rows, and sorting in the opposite order.
use mathlib.Core.List.{reverse-cons}
use fastapi_viewsets.Prelude.{
  All-imp, ◌≡◌, ◌≢◌, refl, List, [], ◌∷◌, ◌++◌, Bool, true, false, filter, All, reverse, inl, inr,
  arith, ap, sym, ◌∙◌, append-nil,
}
use fastapi_viewsets.Listing.Values.{Ordering, less, equal, greater}
use fastapi_viewsets.Listing.Order.{opposite, insert_row, sorted, past}
use fastapi_viewsets.Listing.Sorting.{
  IsOrder, IsStrict, IsDistinct, All-right, All-reverse, All-sorted, sorted-IsStrict, greater-cases,
  insert_last, insert_before, insert_row_here, insert_row_later, before-All,
}

-- The test of a row against the anchor, by how it compares.
abbrev pub verdict : Bool → Bool → Ordering → Bool
verdict backwards inclusive less = past backwards less
verdict backwards inclusive equal = inclusive
verdict backwards inclusive greater = past backwards greater

module _ {A : Type 0} where
  pub filter-append :
      (p : A → Bool) (xs ys : List A) → filter p (xs ++ ys) ≡ filter p xs ++ filter p ys
  filter-append p [] ys = refl
  filter-append p (x ∷ xs) ys = ground (arith, filter-append p xs ys)

  pub filter-keep : (p : A → Bool) (xs : List A) → All (λ x. p x ≡ true) xs → filter p xs ≡ xs
  filter-keep p [] h = refl
  filter-keep p (x ∷ xs) h = ground (arith, filter-keep p xs h.1)

  pub filter-lose : (p : A → Bool) (xs : List A) → All (λ x. p x ≡ false) xs → filter p xs ≡ []
  filter-lose p [] h = refl
  filter-lose p (x ∷ xs) h = ground (arith, filter-lose p xs h.1)

  module _ (order : A → A → Ordering) (P : A → Type 0) (laws : IsOrder P order) where
    self_equal : (a : A) → order a a ≡ equal
    self_equal a = ground (arith, laws.turn a a)

    before_anchor :
        (pre : List A) (a : A) (post : List A)
        → IsStrict order (pre ++ a ∷ post)
        → All (λ x. order x a ≡ less) pre
    before_anchor [] a post h = tt
    before_anchor (x ∷ pre) a post h =
        ((All-right (λ y. order x y ≡ less) pre (a ∷ post) h.0).0, before_anchor pre a post h.1)

    IsStrict-right : (pre post : List A) → IsStrict order (pre ++ post) → IsStrict order post
    IsStrict-right [] post h = h
    IsStrict-right (x ∷ pre) post h = IsStrict-right pre post h.1

    after_anchor :
        (pre : List A) (a : A) (post : List A)
        → IsStrict order (pre ++ a ∷ post)
        → All (λ x. order x a ≡ greater) post
    after_anchor pre a post h =
        All-imp (λ y. order a y ≡ less) (λ y. order y a ≡ greater) post
          (λ y k. ground (arith, laws.turn a y)) (IsStrict-right pre (a ∷ post) h).0

    -- Of a strict list, reading past an anchor keeps exactly what follows it.
    pub cut_after :
        (pre : List A) (a : A) (post : List A)
        → IsStrict order (pre ++ a ∷ post)
        → filter (λ x. verdict false false (order x a)) (pre ++ a ∷ post) ≡ post
    cut_after pre a post h =
        let p : A → Bool = λ x. verdict false false (order x a) in
        let lost : filter p pre ≡ [] = filter-lose p pre (
          All-imp (λ x. order x a ≡ less) (λ x. p x ≡ false) pre (λ x k. rw k refl)
            (before_anchor pre a post h)) in
        let kept : filter p post ≡ post = filter-keep p post (
          All-imp (λ x. order x a ≡ greater) (λ x. p x ≡ true) post (λ x k. rw k refl)
            (after_anchor pre a post h)) in
        rw (filter-append p pre (a ∷ post), lost, self_equal a) kept

    -- Reading backwards past an anchor keeps exactly what precedes it.
    pub cut_before :
        (pre : List A) (a : A) (post : List A)
        → IsStrict order (pre ++ a ∷ post)
        → filter (λ x. verdict true false (order x a)) (pre ++ a ∷ post) ≡ pre
    cut_before pre a post h =
        let p : A → Bool = λ x. verdict true false (order x a) in
        let kept : filter p pre ≡ pre = filter-keep p pre (
          All-imp (λ x. order x a ≡ less) (λ x. p x ≡ true) pre (λ x k. rw k refl)
            (before_anchor pre a post h)) in
        let lost : filter p post ≡ [] = filter-lose p post (
          All-imp (λ x. order x a ≡ greater) (λ x. p x ≡ false) post (λ x k. rw k refl)
            (after_anchor pre a post h)) in
        rw (filter-append p pre (a ∷ post), kept, self_equal a, lost) (append-nil pre)

    abbrev flipped : A → A → Ordering
    flipped a b = opposite (order a b)

    insert_row-reverse :
        (x : A) (ys : List A)
        → P x
        → All P ys
        → All (λ y. order x y ≢ equal) ys
        → IsStrict order ys
        → insert_row flipped x (reverse ys) ≡ reverse (insert_row order x ys)
    unfolding insert_row
    insert_row-reverse x [] px ps d h = refl
    insert_row-reverse x (y ∷ ys) px ps d h = elim (greater-cases (order x y)) [
      | inl e ↦
          ap (insert_row flipped x) (reverse-cons y ys)
          ∙ insert_before flipped x (reverse ys) y (ground arith)
          ∙ ap (λ zs. zs ++ y ∷ []) (insert_row-reverse x ys px ps.1 d.1 h.1)
          ∙ sym (reverse-cons y (insert_row order x ys))
          ∙ ap reverse (sym (insert_row_later order x y ys e))
      | inr e ↦
          let x_first : order x y ≡ less = ground arith in
          let after : All (λ z. flipped x z ≡ greater) (y ∷ ys) =
            All-imp (λ z. order x z ≡ less) (λ z. flipped x z ≡ greater) (y ∷ ys)
              (λ z k. ap opposite k)
              (x_first, before-All order P laws x y ys px ps.0 ps.1 x_first h.0) in
          insert_last flipped x (reverse (y ∷ ys))
            (All-reverse (λ z. flipped x z ≡ greater) (y ∷ ys) after)
          ∙ sym (reverse-cons x (y ∷ ys))
          ∙ ap reverse (sym (insert_row_here order x y ys e))
    ]

    -- Sorting rows without ties in the opposite order reverses the sorted list.
    pub sorted-opposite :
        (xs : List A)
        → All P xs
        → IsDistinct order xs
        → sorted flipped xs ≡ reverse (sorted order xs)
    unfolding sorted
    sorted-opposite [] ps d = refl
    sorted-opposite (x ∷ xs) ps d =
        ap (insert_row flipped x) (sorted-opposite xs ps.1 d.1)
        ∙ insert_row-reverse x (sorted order xs) ps.0 (All-sorted order P xs ps.1)
            (All-sorted order (λ y. order x y ≢ equal) xs d.0)
            (sorted-IsStrict order P laws xs ps.1 d.1)
