-- ===== src/Listing/Shapes.antt =====
-- The shapes that a list endpoint answers in: `resolve_shapes` of fastapi_viewsets/list_shapes.py.
mod Examples
use fastapi_viewsets.Prelude.{
  Equality, Text, text, list_eq, nat_eq, ◌==◌, beq-eq, beq_refl, if◌then◌else◌, List, [], ◌∷◌,
  Option, none, some, Bool, true, false, not, ◌&&◌, ◌||◌, contains, filter, ◌≡◌, ◌≢◌, refl, arith,
  ap, sym, subst, ◌∙◌, All, Bool-cases, inl, inr,
}
use fastapi_viewsets.Listing.Sorting.{All-filter}

abbrev pub all_shapes : List Text
all_shapes = text "plain" ∷ text "paginated" ∷ text "cursor" ∷ []

-- The default shape and the shapes a client may ask for, or the `ShapeError` with what it names.
pub data Shapes : Type 0 where
  resolved : Text → List Text → Shapes
  unknown_shape : Text → Shapes
  unknown_shapes : List Text → Shapes

-- `default or settings_default`
abbrev pub or_settings : Option Text → Text → Text
or_settings none settings_default = settings_default
or_settings (some []) settings_default = settings_default
or_settings (some (c ∷ cs)) settings_default = c ∷ cs

abbrev pub ordered : Text → List Text → List Text
ordered shape allowed = shape ∷ filter (λ other. not (other == shape)) allowed

-- The check of the allowed shapes, by the unknown ones among them
abbrev pub allowed_shapes : Text → List Text → List Text → Shapes
allowed_shapes shape allowed [] = resolved shape (ordered shape allowed)
allowed_shapes shape allowed (other ∷ unknown) = unknown_shapes (other ∷ unknown)

abbrev pub offered : Text → Option (List Text) → Shapes
offered shape none = resolved shape (shape ∷ [])
offered shape (some allowed) =
    allowed_shapes shape allowed (filter (λ other. not (contains other all_shapes)) allowed)

unfoldable pub resolve_shapes : Option Text → Option (List Text) → Text → Shapes
resolve_shapes default allowed settings_default =
    let shape = or_settings default settings_default in
    if contains shape all_shapes then offered shape allowed else unknown_shape shape

abbrev pub IsShape : Text → Type 0
IsShape shape = contains shape all_shapes ≡ true

-- What a viewset's declaration asks for: its default, and the shapes it lists or else that one only.
abbrev pub declared : Text → Option (List Text) → Text → Bool
declared shape none other = shape == other
declared shape (some allowed) other = (shape == other) || contains other allowed

-- The offer that is promised: the default comes first and once, every shape exists, and a shape is
-- offered where the declaration asks for it.
pub record IsOffer (default : Text) (allowed : Option (List Text)) (shapes : List Text)
    : Type 0 where
  pub rest : List Text
  pub first : shapes ≡ default ∷ rest
  pub once : contains default rest ≡ false
  pub known : All IsShape shapes
  pub complete : (other : Text) → contains other shapes ≡ declared default allowed other

module _ {ℓ} {A : Type ℓ} ⦃e : Equality A⦄ where
  contains-filter :
      (shape other : A) (allowed : List A)
      → contains other (filter (λ x. not (x == shape)) allowed)
        ≡ (not (shape == other) && contains other allowed)
  contains-filter shape other [] = ground arith
  contains-filter shape other (x ∷ xs) = ground (
    arith,
    contains-filter shape other xs,
    beq-eq x shape,
    beq-eq x other,
    beq-eq shape other,
    e.same_iff x shape,
    e.same_iff x other,
    e.same_iff shape other,
  )

  -- Every element passes a test that none is filtered by.
  All-passing :
      (known : A → Bool) (allowed : List A)
      → filter (λ other. not (known other)) allowed ≡ []
      → All (λ other. known other ≡ true) allowed
  All-passing known [] h = tt
  All-passing known (x ∷ xs) h = elim (Bool-cases (known x)) [
    | inl e ↦ (
      e,
      All-passing known xs (
          sym (
            ap
              (λ b.
                if not b
                then x ∷ filter (λ other. not (known other)) xs
                else filter (λ other. not (known other)) xs)
              e)
          ∙ h),
    )
    | inr e ↦ ground (arith, e)
  ]

resolved_parts :
    (shape found : Text) (offers shapes : List Text)
    → resolved shape offers ≡ resolved found shapes
    → (found ≡ shape) × (offers ≡ shapes)
resolved_parts shape found offers shapes h = ground arith

allowed_shapes-resolved :
    (shape : Text) (allowed unknown : List Text) (found : Text) (shapes : List Text)
    → allowed_shapes shape allowed unknown ≡ resolved found shapes
    → (unknown ≡ []) × (found ≡ shape) × (ordered shape allowed ≡ shapes)
allowed_shapes-resolved shape allowed [] found shapes h =
    let (same, offers) = resolved_parts shape found (ordered shape allowed) shapes h in
    (refl, same, offers)
allowed_shapes-resolved shape allowed (other ∷ unknown) found shapes h = ground arith

IsOffer-alone : (shape : Text) → IsShape shape → IsOffer shape none (shape ∷ [])
IsOffer-alone shape k = record {
  rest = [];
  first = refl;
  once = refl;
  known = (k, tt);
  complete = λ other. ground arith;
}

IsOffer-ordered :
    (shape : Text) (allowed : List Text)
    → IsShape shape
    → All IsShape allowed
    → IsOffer shape (some allowed) (ordered shape allowed)
IsOffer-ordered shape allowed k all = record {
  rest = filter (λ other. not (other == shape)) allowed;
  first = refl;
  once = ground (arith, contains-filter shape shape allowed, beq_refl shape);
  known = (k, All-filter IsShape (λ other. not (other == shape)) allowed all);
  complete = λ other. ground (arith, contains-filter shape other allowed);
}

offered-IsOffer :
    (shape : Text) (allowed : Option (List Text)) (found : Text) (shapes : List Text)
    → IsShape shape
    → offered shape allowed ≡ resolved found shapes
    → (found ≡ shape) × IsOffer shape allowed shapes
offered-IsOffer shape none found shapes k h =
    let (same, offers) = resolved_parts shape found (shape ∷ []) shapes h in
    (same, subst (IsOffer shape none) offers (IsOffer-alone shape k))
offered-IsOffer shape (some allowed) found shapes k h =
    let (passing, same, offers) =
      allowed_shapes-resolved shape allowed
        (filter (λ other. not (contains other all_shapes)) allowed) found shapes h in
    let all = All-passing (λ other. contains other all_shapes) allowed passing in
    (same, subst (IsOffer shape (some allowed)) offers (IsOffer-ordered shape allowed k all))

resolved_if :
    (known : Bool) (offer : Shapes) (shape found : Text) (shapes : List Text)
    → (if known then offer else unknown_shape shape) ≡ resolved found shapes
    → (known ≡ true) × (offer ≡ resolved found shapes)
resolved_if true offer shape found shapes h = (refl, h)
resolved_if false offer shape found shapes h = ground arith

-- The shapes that a viewset resolves to are those that its declaration asks for, each of them known,
-- the default first and only there.
pub resolve_shapes-IsOffer :
    (default : Option Text) (allowed : Option (List Text)) (settings_default shape : Text)
    (shapes : List Text)
    → resolve_shapes default allowed settings_default ≡ resolved shape shapes
    → (shape ≡ or_settings default settings_default)
      × IsOffer (or_settings default settings_default) allowed shapes
unfolding resolve_shapes
resolve_shapes-IsOffer default allowed settings_default shape shapes h =
    let wanted = or_settings default settings_default in
    let (known, offer) =
      resolved_if (contains wanted all_shapes) (offered wanted allowed) wanted shape shapes h in
    offered-IsOffer wanted allowed shape shapes known offer
