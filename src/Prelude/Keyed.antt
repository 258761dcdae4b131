-- ===== src/Prelude/Keyed.antt =====
-- Dicts that hold each key once, and dict comprehensions that select by the values.
use mathlib.Core.Path.{◌≡◌, refl, ◌∙◌}
use mathlib.Core.Logic.{inl, inr}
use mathlib.Core.Bool.{Bool}
use mathlib.Core.Option.{Option, none, some}
use mathlib.Core.List.{[], ◌∷◌}
use native.Mathlib.Omega.{arith}
use fastapi_viewsets.Prelude.Tests.{Equality, ◌==◌, beq-eq, beq_refl, if◌then◌else◌, Bool-cases}
use fastapi_viewsets.Prelude.Dicts.{
  Dict, lookup, insert, erase, lookup-insert, lookup-erase, lookup-nil,
}

abbrev pub keep {κ} : {V : Type κ} → (V → Bool) → Option V → Option V
keep p none = none
keep p (some v) = if p v then some v else none

module _ {ℓ κ} {K : Type ℓ} {V : Type κ} ⦃e : Equality K⦄ where
  abbrev pub IsKeyed : Dict K V → Type κ
  IsKeyed [] = Unit
  IsKeyed ((k, _) ∷ d) = (lookup k d ≡ none) × IsKeyed d

  -- `{k: v for k, v in d.items() if p(v)}`
  unfoldable pub select : (V → Bool) → Dict K V → Dict K V
  select p [] = []
  select p ((k, v) ∷ d) = let rest = select p d in if p v then (k, v) ∷ rest else rest

  pub lookup-select :
      (p : V → Bool) (k : K) (d : Dict K V)
      → IsKeyed d
      → lookup k (select p d) ≡ keep p (lookup k d)
  unfolding select lookup
  lookup-select p k [] h = refl
  lookup-select p k ((j, v) ∷ d) h = ground (arith, beq-eq j k, lookup-select p k d h.1)

  pub select-IsKeyed : (p : V → Bool) (d : Dict K V) → IsKeyed d → IsKeyed (select p d)
  unfolding select
  select-IsKeyed p [] h = tt
  select-IsKeyed p ((j, v) ∷ d) h = elim (Bool-cases (p v)) [
    | inl hit ↦ rw hit (ground (arith, lookup-select p j d h.1), select-IsKeyed p d h.1)
    | inr miss ↦ rw miss (select-IsKeyed p d h.1)
  ]

  pub insert-IsKeyed : (k : K) (v : V) (d : Dict K V) → IsKeyed d → IsKeyed (insert k v d)
  unfolding insert
  insert-IsKeyed k v [] h = (lookup-nil k, tt)
  insert-IsKeyed k v ((j, w) ∷ d) h = elim (Bool-cases (j == k)) [
    | inl hit ↦ rw hit (h.0, h.1)
    | inr miss ↦
        rw miss
          (ground (arith, lookup-insert k j v d, beq-eq k j, beq_refl k), insert-IsKeyed k v d h.1)
  ]

  pub erase-IsKeyed : (k : K) (d : Dict K V) → IsKeyed d → IsKeyed (erase k d)
  unfolding erase
  erase-IsKeyed k [] h = tt
  erase-IsKeyed k ((j, w) ∷ d) h = elim (Bool-cases (j == k)) [
    | inl hit ↦ rw hit (erase-IsKeyed k d h.1)
    | inr miss ↦ rw miss (ground (arith, lookup-erase k j d), erase-IsKeyed k d h.1)
  ]

-- The first of two answers that is there.
abbrev pub or_else {κ} : {V : Type κ} → Option V → Option V → Option V
or_else none other = other
or_else (some v) other = some v

module _ {ℓ κ} {K : Type ℓ} {V : Type κ} ⦃e : Equality K⦄ where
  -- `d.update(new)`
  unfoldable pub update : Dict K V → Dict K V → Dict K V
  update d [] = d
  update d ((k, v) ∷ new) = update (insert k v d) new

  pub lookup-update :
      (j : K) (d new : Dict K V)
      → IsKeyed new
      → lookup j (update d new) ≡ or_else (lookup j new) (lookup j d)
  unfolding update lookup
  lookup-update j d [] h = refl
  lookup-update j d ((k, v) ∷ new) h =
      lookup-update j (insert k v d) new h.1
      ∙ ground (arith, lookup-insert k j v d, beq-eq k j, h.0)
