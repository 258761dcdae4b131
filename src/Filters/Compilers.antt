-- ===== src/Filters/Compilers.antt =====
-- fastapi_viewsets/filters/registry.py: which backend translates which filter. A class stands for itself by
-- a number; `F` is the type of filters, `Q` of a backend's queries.
use fastapi_viewsets.Prelude.{
  ℕ, Dict, lookup, insert, nat_eq, pair_eq, List, [], ◌∷◌, Option, none, some, Bool, true, false,
  ◌&&◌,
}

-- `_compilers`
abbrev pub Compilers : (F Q : Type 0) → Type 0
Compilers F Q = Dict (ℕ × ℕ) (F → Q → Q)

module _ {F Q : Type 0} where
  -- `compiles`
  unfoldable pub compiles : ℕ → ℕ → (F → Q → Q) → Compilers F Q → Compilers F Q
  compiles backend filter_type compiler compilers = insert (backend, filter_type) compiler compilers

  abbrev pub first_of : Option (F → Q → Q) → Option (F → Q → Q) → Option (F → Q → Q)
  first_of none later = later
  first_of (some compiler) later = some compiler

  -- the inner loop of `compiler_for`, over the classes of the filter's MRO that are filters
  unfoldable pub compiler_at : Compilers F Q → ℕ → List ℕ → Option (F → Q → Q)
  compiler_at compilers backend [] = none
  compiler_at compilers backend (filter_class ∷ filter_mro) =
      first_of (lookup (backend, filter_class) compilers) (compiler_at compilers backend filter_mro)

  -- `compiler_for`, over the backend's MRO
  unfoldable pub compiler_for : Compilers F Q → List ℕ → List ℕ → Option (F → Q → Q)
  unfolding compiler_at
  compiler_for compilers [] filter_mro = none
  compiler_for compilers (backend ∷ backend_mro) filter_mro =
      first_of (compiler_at compilers backend filter_mro)
        (compiler_for compilers backend_mro filter_mro)

  abbrev pub is_found : Option (F → Q → Q) → Bool
  is_found none = false
  is_found (some compiler) = true

  -- `can_compile_all`; `mro` answers the MRO of a filter's type
  unfoldable pub can_compile_all : Compilers F Q → List ℕ → (F → List ℕ) → List F → Bool
  unfolding compiler_for
  can_compile_all compilers backend_mro mro [] = true
  can_compile_all compilers backend_mro mro (f ∷ filters) =
      is_found (compiler_for compilers backend_mro (mro f))
      && can_compile_all compilers backend_mro mro filters

  abbrev pub compiled : Option (F → Q → Q) → F → Q → (Q → Option Q) → Option Q
  compiled none f query go_on = none
  compiled (some compiler) f query go_on = go_on (compiler f query)

  -- `compile_all`; none for its `LookupError`
  unfoldable pub compile_all : Compilers F Q → List ℕ → (F → List ℕ) → List F → Q → Option Q
  unfolding compiler_for
  compile_all compilers backend_mro mro [] query = some query
  compile_all compilers backend_mro mro (f ∷ filters) query =
      compiled (compiler_for compilers backend_mro (mro f)) f query
        (compile_all compilers backend_mro mro filters)
