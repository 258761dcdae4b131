-- ===== src/Filters/Compiled.antt =====
-- A backend's query for a set of filters finds what the filters' own tests find: `compile_all` and
-- `FilterSet.apply` of fastapi_viewsets/filters.
use fastapi_viewsets.Prelude.{
  ℕ, lookup, nat_eq, pair_eq, contains, beq_refl, Option-cases, List, [], ◌∷◌, Option, none, some,
  Bool, true, ◌&&◌, filter, ◌≡◌, refl, sym, ap, ◌∙◌, arith, Bool-cases, inl, inr, if◌then◌else◌,
}
use fastapi_viewsets.Filters.Compilers.{
  Compilers, first_of, is_found, compiler_at, compiler_for, can_compile_all, compiled, compile_all,
}

-- `FilterSet.matches`, of filters whose tests raise nothing
abbrev pub matches_every : {F R : Type 0} → (F → R → Bool) → List F → R → Bool
matches_every test [] r = true
matches_every test (f ∷ filters) r = test f r && matches_every test filters r

filter-filter :
    {R : Type 0} (p q : R → Bool) (rows : List R)
    → filter q (filter p rows) ≡ filter (λ r. p r && q r) rows
filter-filter p q [] = refl
filter-filter p q (r ∷ rows) = elim (Bool-cases (p r)) [
  | inl pass ↦ rw pass (ap (λ rest. if q r then r ∷ rest else rest) (filter-filter p q rows))
  | inr cut ↦ rw cut (filter-filter p q rows)
]

filter_all : {R : Type 0} (rows : List R) → filter (λ r. true) rows ≡ rows
filter_all [] = refl
filter_all (r ∷ rows) = ap (λ rest. r ∷ rest) (filter_all rows)

module _ {F Q R : Type 0} (compilers : Compilers F Q) (backend_mro : List ℕ) (mro : F → List ℕ)
    (run : Q → List R) (test : F → R → Bool) where
  -- A compiler registered for a backend and a filter class narrows a query of a backend derived from the
  -- one to the rows that pass the test of a filter of the other.
  abbrev pub AreSound : Type 0
  AreSound =
      (backend filter_class : ℕ) (compiler : F → Q → Q)
      → lookup (backend, filter_class) compilers ≡ some compiler
      → contains backend backend_mro ≡ true
      → (f : F) → contains filter_class (mro f) ≡ true
      → (query : Q) → run (compiler f query) ≡ filter (test f) (run query)

  -- Where a compiler is registered that the code may use for a filter.
  abbrev Registered : List ℕ → List ℕ → (F → Q → Q) → Type 0
  Registered backends filter_classes compiler =
      (backend : ℕ) × (filter_class : ℕ) × (lookup (backend, filter_class) compilers
        ≡ some compiler)
      × (contains backend backends ≡ true)
      × (contains filter_class filter_classes ≡ true)

  compiler_at-Registered :
      (backend : ℕ) (filter_classes : List ℕ) (compiler : F → Q → Q)
      → compiler_at compilers backend filter_classes ≡ some compiler
      → Registered (backend ∷ []) filter_classes compiler
  unfolding compiler_at
  compiler_at-Registered backend [] compiler e = absurd (ground arith)
  compiler_at-Registered backend (filter_class ∷ filter_classes) compiler e =
      elim (Option-cases (lookup (backend, filter_class) compilers)) [
        | inl absent ↦
            let rest : compiler_at compilers backend filter_classes ≡ some compiler =
              sym (ap (λ o. first_of o (compiler_at compilers backend filter_classes)) absent)
              ∙ e in
            let (b, c, found, below, in_) =
              compiler_at-Registered backend filter_classes compiler rest in
            (b, c, found, below, ground arith)
        | inr (here, found) ↦
            let same : some here ≡ some compiler =
              sym (ap (λ o. first_of o (compiler_at compilers backend filter_classes)) found) ∙ e in
            (
              backend,
              filter_class,
              found ∙ same,
              ground (arith, beq_refl backend),
              ground (arith, beq_refl filter_class),
            )
      ]

  compiler_for-Registered :
      (backends filter_classes : List ℕ) (compiler : F → Q → Q)
      → compiler_for compilers backends filter_classes ≡ some compiler
      → Registered backends filter_classes compiler
  unfolding compiler_for
  compiler_for-Registered [] filter_classes compiler e = absurd (ground arith)
  compiler_for-Registered (backend ∷ backends) filter_classes compiler e =
      elim (Option-cases (compiler_at compilers backend filter_classes)) [
        | inl absent ↦
            let rest : compiler_for compilers backends filter_classes ≡ some compiler =
              sym (ap (λ o. first_of o (compiler_for compilers backends filter_classes)) absent)
              ∙ e in
            let (b, c, found, below, in_) =
              compiler_for-Registered backends filter_classes compiler rest in
            (b, c, found, ground arith, in_)
        | inr (here, found) ↦
            let same : some here ≡ some compiler =
              sym (ap (λ o. first_of o (compiler_for compilers backends filter_classes)) found)
              ∙ e in
            let (b, c, at, below, in_) =
              compiler_at-Registered backend filter_classes compiler (found ∙ same) in
            (b, c, at, ground arith, in_)
      ]

  -- A query narrowed by some filters.
  abbrev pub Narrowed : List F → Q → Option Q → Type 0
  Narrowed filters query found =
      (narrowed : Q) × (found ≡ some narrowed)
      × (run narrowed ≡ filter (matches_every test filters) (run query))

  compiled-Narrowed :
      (f : F) (filters : List F) (query : Q) (found : Option (F → Q → Q))
      → AreSound
      → compiler_for compilers backend_mro (mro f) ≡ found
      → is_found found ≡ true
      → ((query' : Q)
          → Narrowed filters query' (compile_all compilers backend_mro mro filters query'))
      → Narrowed
          (f ∷ filters)
          query
          (compiled found f query (compile_all compilers backend_mro mro filters))
  compiled-Narrowed f filters query none sound e there later = absurd (ground (arith, there))
  compiled-Narrowed f filters query (some compiler) sound e there later =
      let (backend, filter_class, at, below, in_) =
        compiler_for-Registered backend_mro (mro f) compiler e in
      let rest = later (compiler f query) in
      (
        rest.0,
        rest.1,
        rest.2
            ∙ ap (filter (matches_every test filters))
                (sound backend filter_class compiler at below f in_ query)
            ∙ filter-filter (test f) (matches_every test filters) (run query),
      )

  -- Where each compiler that is registered for a class of the backend's MRO and a filter class narrows a
  -- query to the rows that pass the test, for every filter of that class: a set of filters that can be
  -- compiled is compiled without an error, to a query that finds the rows which pass every test, in the
  -- query's order: what `FilterSet.apply` finds.
  pub compile_all-Narrowed :
      (filters : List F) (query : Q)
      → AreSound
      → can_compile_all compilers backend_mro mro filters ≡ true
      → Narrowed filters query (compile_all compilers backend_mro mro filters query)
  unfolding can_compile_all compile_all
  compile_all-Narrowed [] query sound can = (query, refl, sym (filter_all (run query)))
  compile_all-Narrowed (f ∷ filters) query sound can =
      compiled-Narrowed f filters query (compiler_for compilers backend_mro (mro f)) sound refl
        (ground (arith, can))
        (λ query'. compile_all-Narrowed filters query' sound (ground (arith, can)))
