-- ===== src/Prelude/Nested.antt =====
-- A dict of dicts in which no inner dict is empty, as the registries keep them.
use mathlib.Core.Path.{◌≡◌, refl}
use mathlib.Core.Bool.{true, false, ◌&&◌}
use mathlib.Core.Option.{Option, none, some}
use mathlib.Core.Logic.{inl, inr}
use mathlib.Core.List.{[], ◌∷◌}
use native.Mathlib.Omega.{arith}
use fastapi_viewsets.Prelude.Tests.{Equality, ◌==◌, if◌then◌else◌, Bool-cases, beq-eq}
use fastapi_viewsets.Prelude.Dicts.{Dict, lookup, insert, erase, lookup-insert, lookup-erase}

-- `d.get(a, {})` on what `d.get(a)` found
abbrev pub inner_or_empty {ℓ κ} : {B : Type ℓ} {V : Type κ} → Option (Dict B V) → Dict B V
inner_or_empty none = []
inner_or_empty (some inner) = inner

module _ {ℓ} {A B V : Type ℓ} ⦃e : Equality A⦄ ⦃f : Equality B⦄ where
  unfoldable pub inner : A → Dict A (Dict B V) → Dict B V
  inner a d = inner_or_empty (lookup a d)

  -- `d.setdefault(a, {})[b] = v`
  unfoldable pub insert_in : A → B → V → Dict A (Dict B V) → Dict A (Dict B V)
  insert_in a b v d = insert a (insert b v (inner a d)) d

  -- an inner dict that is now empty goes with its key
  abbrev pub keep_inner : A → Dict B V → Dict A (Dict B V) → Dict A (Dict B V)
  keep_inner a [] d = erase a d
  keep_inner a (x ∷ xs) d = insert a (x ∷ xs) d

  -- `del d[a][b]; if not d[a]: del d[a]`
  unfoldable pub erase_in : A → B → Dict A (Dict B V) → Dict A (Dict B V)
  erase_in a b d = keep_inner a (erase b (inner a d)) d

  -- `d.get(a, {}).get(b)`
  unfoldable pub lookup_in : A → B → Dict A (Dict B V) → Option V
  lookup_in a b d = lookup b (inner a d)

  inner-insert :
      (a c : A) (x : Dict B V) (d : Dict A (Dict B V))
      → inner c (insert a x d) ≡ (if a == c then x else inner c d)
  unfolding inner
  inner-insert a c x d = rw lookup-insert (ground arith)

  inner-erase :
      (a c : A) (d : Dict A (Dict B V)) → inner c (erase a d) ≡ (if a == c then [] else inner c d)
  unfolding inner
  inner-erase a c d = rw lookup-erase (ground arith)

  inner-keep_inner :
      (a c : A) (x : Dict B V) (d : Dict A (Dict B V))
      → inner c (keep_inner a x d) ≡ (if a == c then x else inner c d)
  inner-keep_inner a c [] d = inner-erase a c d
  inner-keep_inner a c (x ∷ xs) d = inner-insert a c (x ∷ xs) d

  pub inner-insert_in :
      (a c : A) (b : B) (v : V) (d : Dict A (Dict B V))
      → inner c (insert_in a b v d) ≡ (if a == c then insert b v (inner a d) else inner c d)
  unfolding insert_in
  inner-insert_in a c b v d = inner-insert a c _ d

  pub inner-erase_in :
      (a c : A) (b : B) (d : Dict A (Dict B V))
      → inner c (erase_in a b d) ≡ (if a == c then erase b (inner a d) else inner c d)
  unfolding erase_in
  inner-erase_in a c b d = inner-keep_inner a c _ d

  pub lookup_in-insert_in :
      (a c : A) (b y : B) (v : V) (d : Dict A (Dict B V))
      → lookup_in c y (insert_in a b v d)
        ≡ (if (a == c) && (b == y) then some v else lookup_in c y d)
  unfolding lookup_in
  lookup_in-insert_in a c b y v d = rw inner-insert_in (elim (Bool-cases (a == c)) [
    | inl same ↦ rw (same, lookup-insert, beq-eq a c same) refl
    | inr other ↦ rw other refl
  ])

  pub lookup_in-erase_in :
      (a c : A) (b y : B) (d : Dict A (Dict B V))
      → lookup_in c y (erase_in a b d) ≡ (if (a == c) && (b == y) then none else lookup_in c y d)
  unfolding lookup_in
  lookup_in-erase_in a c b y d = rw inner-erase_in (elim (Bool-cases (a == c)) [
    | inl same ↦ rw (same, lookup-erase, beq-eq a c same) refl
    | inr other ↦ rw other refl
  ])

  pub lookup_in-nil : (c : A) (y : B) {v : V} → lookup_in c y [] ≡ some v → ⊥
  unfolding lookup_in inner lookup
  lookup_in-nil c y h = cc

  pub lookup_in_here :
      (a c : A) (y : B) (x : Dict B V) (d : Dict A (Dict B V))
      → (a == c) ≡ true
      → lookup_in c y ((a, x) ∷ d) ≡ lookup y x
  unfolding lookup_in inner lookup
  lookup_in_here a c y x d h = rw h

  pub lookup_in_there :
      (a c : A) (y : B) (x : Dict B V) (d : Dict A (Dict B V))
      → (a == c) ≡ false
      → lookup_in c y ((a, x) ∷ d) ≡ lookup_in c y d
  unfolding lookup_in inner lookup
  lookup_in_there a c y x d h = rw h
