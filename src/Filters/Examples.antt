-- ===== src/Filters/Examples.antt =====
-- Filters of a concrete declaration, and compilers of a concrete backend.
use fastapi_viewsets.Prelude.{
  ℕ, Bool, false, contains, nat_beq, Bool-cases, inl, inr, arith, Text, text, Dict, lookup, insert,
  list_eq, nat_eq, pair_eq, ◌==◌, if◌then◌else◌, filter, List, [], ◌∷◌, Option, none, some, true,
  ◌≡◌, refl, sym, ap, ◌∙◌, All, leb,
}
use fastapi_viewsets.Listing.Values.{null, pos}
use fastapi_viewsets.Filters.{
  in_, Operand, one, many, Fields, Shown, matches_set, operator_for, read_field,
}
use fastapi_viewsets.Filters.Parameters.{Spec, model, filter_error, make_filter_model, filters_from}
use fastapi_viewsets.Filters.Declared.{AreSafe, IsListed, filters_from-AreSafe}
use fastapi_viewsets.Filters.Compilers.{Compilers, compiles, can_compile_all, compile_all}
use fastapi_viewsets.Filters.Compiled.{AreSound, Narrowed, compile_all-Narrowed}

abbrev shown : Shown
shown = record { show = λ value. []; lower = λ t. t }

abbrev fields : List Text
fields = text "year" ∷ text "title" ∷ []

abbrev declaration : Dict Text (List Text)
declaration = (text "year", text "gte" ∷ text "in" ∷ []) ∷ []

abbrev spec : Spec
spec =
    (text "year__gte", (text "year", text "gte")) ∷ (text "year__in", (text "year", text "in")) ∷ []

made : make_filter_model fields declaration ≡ model spec
unfolding make_filter_model operator_for lookup insert
made = refl

unknown_field : make_filter_model fields ((text "artist", []) ∷ []) ≡ filter_error
unfolding make_filter_model
unknown_field = refl

-- `?year__in=2001&year__in=2002`
abbrev values : Text → Operand
values parameter =
    if parameter == text "year__in" then many (pos 2001 ∷ pos 2002 ∷ []) else one null

asked_for :
    filters_from spec values
    ≡ some (
        record { operator = in_; field = text "year"; value = many (pos 2001 ∷ pos 2002 ∷ []) }
        ∷ [])
unfolding filters_from operator_for lookup
asked_for = refl

abbrev track : Fields
track = (text "year", one (pos 2002)) ∷ []

passes_track :
    matches_set shown
      (record { operator = in_; field = text "year"; value = many (pos 2001 ∷ pos 2002 ∷ []) } ∷ [])
      track
    ≡ some true
unfolding matches_set read_field lookup
passes_track = refl

listed : All (IsListed shown values) spec
unfolding operator_for lookup
listed = ((λ e. tt), ((λ e. refl), tt))

filters_from-AreSafe_example : AreSafe shown values (filters_from spec values)
filters_from-AreSafe_example = filters_from-AreSafe shown values fields declaration spec made listed

-- A backend whose query is a list of numbers. A filter up to 100 is a lower bound, of the class 8 derived from
-- 7; one above 100 asks for its number, of the class 9.
abbrev above : ℕ → List ℕ → List ℕ
above bound rows = filter (leb bound) rows

abbrev equals : ℕ → List ℕ → List ℕ
equals number rows = filter (nat_beq number) rows

abbrev compilers : Compilers ℕ (List ℕ)
compilers = compiles 1 9 equals (compiles 1 7 above [])

abbrev itself : List ℕ → List ℕ
itself rows = rows

abbrev mro_of : Bool → List ℕ
mro_of true = 8 ∷ 7 ∷ []
mro_of false = 9 ∷ []

abbrev mro : ℕ → List ℕ
mro f = mro_of (leb f 100)

abbrev passes_of : Bool → ℕ → ℕ → Bool
passes_of true f n = leb f n
passes_of false f n = nat_beq f n

abbrev passes_number : ℕ → ℕ → Bool
passes_number f n = passes_of (leb f 100) f n

abbrev applied : Option (ℕ → List ℕ → List ℕ) → ℕ → List ℕ → List ℕ
applied none f query = query
applied (some compiler) f query = compiler f query

-- What a registered compiler does to a filter of its class.
registered_passes :
    (low : Bool) (class_ f : ℕ) (query : List ℕ)
    → contains class_ (mro_of low) ≡ true
    → (nat_beq 7 class_ ≡ true → above f query ≡ filter (passes_of low f) query)
      × (nat_beq 9 class_ ≡ true → equals f query ≡ filter (passes_of low f) query)
registered_passes true class_ f query inside = (λ e. refl, λ e. absurd (ground arith))
registered_passes false class_ f query inside = (λ e. absurd (ground arith), λ e. refl)

compilers-AreSound : AreSound compilers (2 ∷ 1 ∷ []) mro itself passes_number
unfolding compiles lookup insert
compilers-AreSound backend class_ compiler e below f inside query =
    let passing = registered_passes (leb f 100) class_ f query inside in
    elim (Bool-cases (nat_beq 7 class_)) [
      | inl bound ↦
          let found : some above ≡ some compiler = ground arith in
          sym (ap (λ o. applied o f query) found) ∙ passing.0 bound
      | inr other ↦
          let number : nat_beq 9 class_ ≡ true = ground arith in
          let found : some equals ≡ some compiler = ground arith in
          sym (ap (λ o. applied o f query) found) ∙ passing.1 number
    ]

can : can_compile_all compilers (2 ∷ 1 ∷ []) mro (3 ∷ 104 ∷ []) ≡ true
unfolding can_compile_all compiles lookup insert
can = refl

compile_all-Narrowed_example :
    Narrowed compilers
      (2 ∷ 1 ∷ [])
      mro
      itself
      passes_number
      (3 ∷ 104 ∷ [])
      (4 ∷ 104 ∷ 2 ∷ [])
      (compile_all compilers (2 ∷ 1 ∷ []) mro (3 ∷ 104 ∷ []) (4 ∷ 104 ∷ 2 ∷ []))
compile_all-Narrowed_example =
    compile_all-Narrowed compilers (2 ∷ 1 ∷ []) mro itself passes_number (3 ∷ 104 ∷ [])
      (4 ∷ 104 ∷ 2 ∷ []) compilers-AreSound can
