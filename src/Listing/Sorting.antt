-- ===== src/Listing/Sorting.antt =====
-- Sorting by a three-way comparison: facts about `sorted` that the pages rest on.
use mathlib.Core.List.{reverse-cons}
use fastapi_viewsets.Prelude.{
  ◌≡◌, ◌≢◌, refl, if◌then◌else◌, List, [], ◌∷◌, ◌++◌, Bool, Bool-cases, filter, All, All-append,
  All-imp, reverse, inl, inr, ◌⊎◌, arith, sym, subst,
}
use fastapi_viewsets.Listing.Values.{Ordering, less, equal, greater}
use fastapi_viewsets.Listing.Order.{opposite, insert_row, sorted}

-- `c` compares as the comparisons `a` and then `b` demand.
abbrev pub Agrees : Ordering → Ordering → Ordering → Type 0
Agrees less less c = c ≡ less
Agrees less equal c = c ≡ less
Agrees less greater c = Unit
Agrees equal less c = c ≡ less
Agrees equal equal c = c ≡ equal
Agrees equal greater c = c ≡ greater
Agrees greater less c = Unit
Agrees greater equal c = c ≡ greater
Agrees greater greater c = c ≡ greater

-- A comparison that orders the values of `P` totally, up to ties.
pub record IsOrder {A : Type 0} (P : A → Type 0) (order : A → A → Ordering) : Type 0 where
  pub turn : (a b : A) → order b a ≡ opposite (order a b)
  pub trans : (a b c : A) → P a → P b → P c → Agrees (order a b) (order b c) (order a c)

-- Each element comes strictly before all later ones.
abbrev pub IsStrict : {A : Type 0} → (A → A → Ordering) → List A → Type 0
IsStrict order [] = Unit
IsStrict order (x ∷ xs) = All (λ y. order x y ≡ less) xs × IsStrict order xs

-- No two elements tie.
abbrev pub IsDistinct : {A : Type 0} → (A → A → Ordering) → List A → Type 0
IsDistinct order [] = Unit
IsDistinct order (x ∷ xs) = All (λ y. order x y ≢ equal) xs × IsDistinct order xs

pub greater-cases : (o : Ordering) → (o ≡ greater) ⊎ (o ≢ greater)
greater-cases greater = inl refl
greater-cases less = inr (λ e. cc)
greater-cases equal = inr (λ e. cc)

module _ {A : Type 0} where
  pub All-filter : (P : A → Type 0) (p : A → Bool) (xs : List A) → All P xs → All P (filter p xs)
  All-filter P p [] h = tt
  All-filter P p (x ∷ xs) h = elim (Bool-cases (p x)) [
    | inl e ↦ rw e (h.0, All-filter P p xs h.1)
    | inr e ↦ rw e (All-filter P p xs h.1)
  ]

  pub All-left : (P : A → Type 0) (xs ys : List A) → All P (xs ++ ys) → All P xs
  All-left P [] ys h = tt
  All-left P (x ∷ xs) ys h = (h.0, All-left P xs ys h.1)

  pub All-right : (P : A → Type 0) (xs ys : List A) → All P (xs ++ ys) → All P ys
  All-right P [] ys h = h
  All-right P (x ∷ xs) ys h = All-right P xs ys h.1

  pub All-reverse : (P : A → Type 0) (xs : List A) → All P xs → All P (reverse xs)
  All-reverse P [] h = tt
  All-reverse P (x ∷ xs) h =
      rw reverse-cons (All-append P (reverse xs) (x ∷ []) (All-reverse P xs h.1) (h.0, tt))

  module _ (order : A → A → Ordering) where
    -- What comes before everything is inserted first, and what comes after everything last.
    insert_first :
        (x : A) (ys : List A) → All (λ y. order x y ≢ greater) ys → insert_row order x ys ≡ x ∷ ys
    unfolding insert_row
    insert_first x [] h = refl
    insert_first x (y ∷ ys) h = ground arith

    pub insert_last :
        (x : A) (ys : List A)
        → All (λ y. order x y ≡ greater) ys
        → insert_row order x ys ≡ ys ++ x ∷ []
    unfolding insert_row
    insert_last x [] h = refl
    insert_last x (y ∷ ys) h = ground (arith, insert_last x ys)

    pub insert_before :
        (x : A) (ys : List A) (z : A)
        → order x z ≢ greater
        → insert_row order x (ys ++ z ∷ []) ≡ insert_row order x ys ++ z ∷ []
    unfolding insert_row
    insert_before x [] z h = ground arith
    insert_before x (y ∷ ys) z h = ground (arith, insert_before x ys z)

    pub insert_row_here :
        (x y : A) (ys : List A) → order x y ≢ greater → insert_row order x (y ∷ ys) ≡ x ∷ y ∷ ys
    unfolding insert_row
    insert_row_here x y ys h = ground arith

    pub insert_row_later :
        (x y : A) (ys : List A)
        → order x y ≡ greater
        → insert_row order x (y ∷ ys) ≡ y ∷ insert_row order x ys
    unfolding insert_row
    insert_row_later x y ys h = ground arith

    pub All-insert_row :
        (P : A → Type 0) (x : A) (ys : List A) → P x → All P ys → All P (insert_row order x ys)
    unfolding insert_row
    All-insert_row P x [] px h = (px, tt)
    All-insert_row P x (y ∷ ys) px h = elim (greater-cases (order x y)) [
      | inl e ↦ subst (All P) (sym (insert_row_later x y ys e)) (h.0, All-insert_row P x ys px h.1)
      | inr e ↦ subst (All P) (sym (insert_row_here x y ys e)) (px, h)
    ]

    pub All-sorted : (P : A → Type 0) (xs : List A) → All P xs → All P (sorted order xs)
    unfolding sorted
    All-sorted P [] h = tt
    All-sorted P (x ∷ xs) h = All-insert_row P x (sorted order xs) h.0 (All-sorted P xs h.1)

    module _ (P : A → Type 0) (laws : IsOrder P order) where
      -- What is strictly before `y` is strictly before all that comes after `y`.
      pub before-All :
          (x y : A) (ys : List A)
          → P x
          → P y
          → All P ys
          → order x y ≡ less
          → All (λ z. order y z ≡ less) ys
          → All (λ z. order x z ≡ less) ys
      before-All x y [] px py ps h k = tt
      before-All x y (z ∷ ys) px py ps h k =
          (ground (arith, laws.trans x y z px py ps.0), before-All x y ys px py ps.1 h k.1)

      insert_row-IsStrict :
          (x : A) (ys : List A)
          → P x
          → All P ys
          → All (λ y. order x y ≢ equal) ys
          → IsStrict order ys
          → IsStrict order (insert_row order x ys)
      unfolding insert_row
      insert_row-IsStrict x [] px ps d h = (tt, tt)
      insert_row-IsStrict x (y ∷ ys) px ps d h = elim (greater-cases (order x y)) [
        | inl e ↦
            let y_first : order y x ≡ less = ground (arith, laws.turn x y) in
            subst (IsStrict order) (sym (insert_row_later x y ys e)) (
              All-insert_row (λ z. order y z ≡ less) x ys y_first h.0,
              insert_row-IsStrict x ys px ps.1 d.1 h.1,
            )
        | inr e ↦
            let x_first : order x y ≡ less = ground arith in
            subst (IsStrict order) (sym (insert_row_here x y ys e))
              ((x_first, before-All x y ys px ps.0 ps.1 x_first h.0), h)
      ]

      -- Sorting rows without ties puts each strictly before all later ones.
      pub sorted-IsStrict :
          (xs : List A) → All P xs → IsDistinct order xs → IsStrict order (sorted order xs)
      unfolding sorted
      sorted-IsStrict [] ps d = tt
      sorted-IsStrict (x ∷ xs) ps d =
          insert_row-IsStrict x (sorted order xs) ps.0 (All-sorted P xs ps.1)
            (All-sorted (λ y. order x y ≢ equal) xs d.0) (sorted-IsStrict xs ps.1 d.1)

      filter-insert_row :
          (p : A → Bool) (x : A) (ys : List A)
          → P x
          → All P ys
          → All (λ y. order x y ≢ equal) ys
          → IsStrict order ys
          → filter p (insert_row order x ys)
            ≡ (if p x then insert_row order x (filter p ys) else filter p ys)
      unfolding insert_row
      filter-insert_row p x [] px ps d h = ground arith
      filter-insert_row p x (y ∷ ys) px ps d h = elim (greater-cases (order x y)) [
        | inl e ↦
            rw (insert_row_later x y ys e)
              (ground (arith, filter-insert_row p x ys px ps.1 d.1 h.1))
        | inr e ↦
            let x_first : order x y ≡ less = ground arith in
            let front : insert_row order x (filter p (y ∷ ys)) ≡ x ∷ filter p (y ∷ ys) =
              insert_first x (filter p (y ∷ ys)) (
                All-filter (λ z. order x z ≢ greater) p (y ∷ ys)
                  (
                    e,
                    All-imp (λ z. order x z ≡ less) (λ z. order x z ≢ greater) ys
                        (λ z k. ground arith) (before-All x y ys px ps.0 ps.1 x_first h.0),
                  )) in
            rw (insert_row_here x y ys e, front) (ground arith)
      ]

      -- Filtering and sorting commute.
      pub sorted-filter :
          (p : A → Bool) (xs : List A)
          → All P xs
          → IsDistinct order xs
          → sorted order (filter p xs) ≡ filter p (sorted order xs)
      unfolding sorted
      sorted-filter p [] ps d = refl
      sorted-filter p (x ∷ xs) ps d =
          let ih = sorted-filter p xs ps.1 d.1 in
          let step =
            filter-insert_row p x (sorted order xs) ps.0 (All-sorted P xs ps.1)
              (All-sorted (λ y. order x y ≢ equal) xs d.0) (sorted-IsStrict xs ps.1 d.1) in
          elim (Bool-cases (p x)) [
            | inl e ↦ rw (e, step, ih, e) refl
            | inr e ↦ rw (e, step, ih, e) refl
          ]
