-- ===== src/Filters/Declared.antt =====
-- The filters that a made filter model asks for: `make_filter_model` and `filters_from` of
-- fastapi_viewsets/filters/declaration.py, with the operators' tests of operators.py.
use fastapi_viewsets.Prelude.{
  Text, Dict, insert, list_eq, nat_eq, ◌==◌, contains, List, [], ◌∷◌, Option, none, some, true,
  false, All, ◌≡◌, ◌≢◌, ◌⊎◌, inl, inr, refl, ap, subst, ◌∙◌, arith, Bool-cases,
}
use fastapi_viewsets.Listing.Values.{null, pos, negsuc, str}
use fastapi_viewsets.Filters.{
  Operator, exact, iexact, contains_, icontains, startswith, gt, gte, lt, lte, in_, isnull,
  overlaps, operator_for, Operand, one, many, Filter, member, is_none, operand_beq, is_in, Shown,
  passes,
}
use fastapi_viewsets.Filters.Parameters.{
  Spec, Made, model, parameter_of, is_known, add_lookups, add_fields, make_filter_model, added,
  is_skipped, filters_from,
}

-- Every parameter's operator is a registered one.
abbrev pub IsKnown : Spec → Type 0
IsKnown spec = All (λ e. is_known (operator_for e.1.1) ≡ true) spec

insert-IsKnown :
    (parameter field name : Text) (spec : Spec)
    → is_known (operator_for name) ≡ true
    → IsKnown spec
    → IsKnown (insert parameter (field, name) spec)
unfolding insert
insert-IsKnown parameter field name [] known h = (known, tt)
insert-IsKnown parameter field name ((other, (f, n)) ∷ spec) known h =
    elim (Bool-cases (other == parameter)) [
      | inl hit ↦ rw hit (known, h.1)
      | inr miss ↦ rw miss (h.0, insert-IsKnown parameter field name spec known h.1)
    ]

add_lookups-IsKnown :
    (field : Text) (names : List Text) (spec made : Spec) (go_on : Spec → Made)
    → ((next : Spec) → IsKnown next → go_on next ≡ model made → IsKnown made)
    → IsKnown spec
    → add_lookups field names spec go_on ≡ model made
    → IsKnown made
unfolding add_lookups
add_lookups-IsKnown field [] spec made go_on later h e = later spec h e
add_lookups-IsKnown field (name ∷ names) spec made go_on later h e =
    elim (Bool-cases (is_known (operator_for name))) [
      | inl known ↦
          add_lookups-IsKnown field names (insert (parameter_of field name) (field, name) spec) made
            go_on later (insert-IsKnown (parameter_of field name) field name spec known h)
            (rw known at e)
      | inr unknown ↦ absurd (ground (arith, rw unknown at e))
    ]

add_fields-IsKnown :
    (fields : List Text) (declaration : Dict Text (List Text)) (spec made : Spec)
    → IsKnown spec
    → add_fields fields declaration spec ≡ model made
    → IsKnown made
unfolding add_fields
add_fields-IsKnown fields [] spec made h e =
    let same : spec ≡ made = ground (arith, e) in subst IsKnown same h
add_fields-IsKnown fields ((field, names) ∷ declaration) spec made h e =
    elim (Bool-cases (contains field fields)) [
      | inl known ↦
          add_lookups-IsKnown field names spec made (add_fields fields declaration)
            (λ next. add_fields-IsKnown fields declaration next made) h (rw known at e)
      | inr unknown ↦ absurd (ground (arith, rw unknown at e))
    ]

-- A value of `in` is a list without None.
abbrev pub IsMembers : Operand → Type 0
IsMembers (many values) = member null values ≡ false
IsMembers (one null) = Unit
IsMembers (one value) = ⊥

-- A filter whose test on None is refused: it lets no record through whose field is None.
abbrev pub IsStrict : Shown → Filter → Type 0
IsStrict shown f = passes shown f.operator (one null) f.value ≡ some false

exact_none : (value : Operand) → is_none value ≡ false → operand_beq (one null) value ≡ false
exact_none (one null) given = ground arith
exact_none (one (pos n)) given = refl
exact_none (one (negsuc n)) given = refl
exact_none (one (str s)) given = refl
exact_none (many values) given = refl

in_none :
    (value : Operand)
    → is_none value ≡ false
    → IsMembers value
    → is_in (one null) value ≡ some false
in_none (many values) given h = ap some h
in_none (one null) given h = refl
in_none (one (pos n)) given h = absurd h
in_none (one (negsuc n)) given h = absurd h
in_none (one (str s)) given h = absurd h

passes-null :
    (shown : Shown) (operator : Operator) (value : Operand)
    → operator ≢ isnull
    → is_none value ≡ false
    → (operator ≡ in_ → IsMembers value)
    → passes shown operator (one null) value ≡ some false
unfolding passes
passes-null shown exact value other given listed = ap some (exact_none value given)
passes-null shown iexact value other given listed = refl
passes-null shown contains_ value other given listed = refl
passes-null shown icontains value other given listed = refl
passes-null shown startswith value other given listed = refl
passes-null shown gt value other given listed = refl
passes-null shown gte value other given listed = refl
passes-null shown lt value other given listed = refl
passes-null shown lte value other given listed = refl
passes-null shown in_ value other given listed = in_none value given (listed refl)
passes-null shown isnull value other given listed = absurd (other refl)
passes-null shown overlaps value other given listed = refl

isnull-cases : (operator : Operator) → (operator ≡ isnull) ⊎ (operator ≢ isnull)
isnull-cases isnull = inl refl
isnull-cases exact = inr (λ e. cc)
isnull-cases iexact = inr (λ e. cc)
isnull-cases contains_ = inr (λ e. cc)
isnull-cases icontains = inr (λ e. cc)
isnull-cases startswith = inr (λ e. cc)
isnull-cases gt = inr (λ e. cc)
isnull-cases gte = inr (λ e. cc)
isnull-cases lt = inr (λ e. cc)
isnull-cases lte = inr (λ e. cc)
isnull-cases in_ = inr (λ e. cc)
isnull-cases overlaps = inr (λ e. cc)

module _ (shown : Shown) (values : Text → Operand) where
  -- A filter tests for None itself, or lets no record through whose field is None.
  abbrev pub IsSafe : Filter → Type 0
  IsSafe f = (f.operator ≡ isnull) ⊎ IsStrict shown f

  -- Filters of which each one is safe.
  abbrev pub AreSafe : Option (List Filter) → Type 0
  AreSafe found = (filters : List Filter) × (found ≡ some filters) × All IsSafe filters

  abbrev pub IsListed : Text × (Text × Text) → Type 0
  IsListed entry = operator_for entry.1.1 ≡ some in_ → IsMembers (values entry.0)

  new-IsSafe :
      (operator : Operator) (field : Text) (value : Operand)
      → is_none value ≡ false
      → (operator ≡ in_ → IsMembers value)
      → IsSafe (record { operator = operator; field = field; value = value })
  new-IsSafe operator field value given listed = elim (isnull-cases operator) [
    | inl tests ↦ inl tests
    | inr other ↦ inr (passes-null shown operator value other given listed)
  ]

  added-AreSafe :
      (name : Text) (operator : Option Operator) (field : Text) (value : Operand)
      (rest : Option (List Filter))
      → operator_for name ≡ operator
      → is_known operator ≡ true
      → is_none value ≡ false
      → (operator_for name ≡ some in_ → IsMembers value)
      → AreSafe rest
      → AreSafe (added operator field value rest)
  added-AreSafe name none field value rest e known given listed safe =
      absurd (ground (arith, known))
  added-AreSafe name (some operator) field value rest e known given listed safe = (
    record { operator = operator; field = field; value = value } ∷ safe.0,
    ap (added (some operator) field value) safe.1,
    (new-IsSafe operator field value given (λ same. listed (e ∙ ap some same)), safe.2),
  )

  filters_from-known :
      (spec : Spec) → IsKnown spec → All IsListed spec → AreSafe (filters_from spec values)
  unfolding filters_from
  filters_from-known [] known listed = ([], refl, tt)
  filters_from-known ((parameter, (field, name)) ∷ spec) known listed =
      let rest = filters_from-known spec known.1 listed.1 in
      elim (Bool-cases (is_skipped name (values parameter))) [
        | inl skipped ↦ rw skipped rest
        | inr given ↦ rw given (
            added-AreSafe name (operator_for name) field (values parameter)
              (filters_from spec values) refl known.0 (ground (arith, given)) listed.0 rest)
      ]

  -- A filter model that was made asks for filters without an error, whatever its parameters' values, and none
  -- of the filters but `isnull` lets a record through whose field is None; where the values of `in` are lists
  -- without None.
  pub filters_from-AreSafe :
      (fields : List Text) (declaration : Dict Text (List Text)) (spec : Spec)
      → make_filter_model fields declaration ≡ model spec
      → All IsListed spec
      → AreSafe (filters_from spec values)
  unfolding make_filter_model
  filters_from-AreSafe fields declaration spec made listed =
      filters_from-known spec (add_fields-IsKnown fields declaration [] spec tt made) listed
