-- ===== src/Events/Scopes/Names/Links.antt =====
-- Classes that `event_scope` of fastapi_viewsets/events/scopes.py connects: what its tests say of two classes.
use fastapi_viewsets.Prelude.{
  ℕ, list_eq, nat_eq, ◌==◌, beq-eq, beq_refl, contains, List, [], ◌∷◌, ◌++◌, Option, none, some,
  true, ◌||◌, ◌≡◌, refl, Bool-cases, inl, inr, ◌⊎◌, arith, subst,
}
use fastapi_viewsets.SubViewsets.{mounted_under}
use fastapi_viewsets.SubViewsets.Reachable.{Under, direct, deeper, mounted_under-Under}
use fastapi_viewsets.Events.Scopes.Names.{
  Classes, is_subclass, is_reloaded, is_in, mount_related, extends_any, related_to_any,
}

pub contains-append :
    (c d : ℕ) (xs : List ℕ) → contains c (xs ++ d ∷ []) ≡ true → (contains c xs ≡ true) ⊎ (c ≡ d)
contains-append c d [] k = inr (ground (arith, beq-eq d c))
contains-append c d (x ∷ xs) k = elim (Bool-cases (x == c)) [
  | inl hit ↦ inl (ground arith)
  | inr miss ↦ elim (contains-append c d xs (ground arith)) [
    | inl there ↦ inl (ground arith)
    | inr last ↦ inr last
  ]
]

module _ (classes : Classes) where
  -- Two classes are connected by subclassing, mounting at any depth, and the reloading of a module.
  pub data Family : ℕ → ℕ → Type 0 where
    same : (a : ℕ) → Family a a
    subclass : {a b : ℕ} → is_subclass classes a b ≡ true → Family a b
    mounted : {a b : ℕ} → Under classes.mounts a b → Family a b
    reloaded : {a b : ℕ} → is_reloaded classes a b ≡ true → Family a b
    back : {a b : ℕ} → Family a b → Family b a
    through : {a b c : ℕ} → Family a b → Family b c → Family a c

  pub extends_holder :
      (cls holder : ℕ)
      → (cls == holder || is_subclass classes cls holder) ≡ true
      → Family holder cls
  extends_holder cls holder k = elim (Bool-cases (cls == holder)) [
    | inl it ↦ subst (λ c. Family c cls) (beq-eq cls holder it) (same cls)
    | inr below ↦ back (subclass (ground arith))
  ]

  -- The mounts at a declaration, all of which stay.
  abbrev pub Stays : (ℕ → List ℕ) → Type 0
  Stays mounts = (c m : ℕ) → contains m (mounts c) ≡ true → contains m (classes.mounts c) ≡ true

  Under-stays :
      (mounts : ℕ → List ℕ) {a b : ℕ} → Stays mounts → Under mounts a b → Under classes.mounts a b
  Under-stays mounts {a} stays (direct {m} k) = direct (stays a m k)
  Under-stays mounts {a} stays (deeper {c} {m} u k) =
      deeper (Under-stays mounts stays u) (stays c m k)

  is_in-Under :
      (mounts : ℕ → List ℕ) (fuel a b : ℕ) (walked : Option (List ℕ))
      → mounted_under mounts fuel a ≡ walked
      → is_in b walked ≡ true
      → Under mounts a b
  is_in-Under mounts fuel a b none e k = absurd (ground arith)
  is_in-Under mounts fuel a b (some found) e k = mounted_under-Under mounts a fuel found b e k

  module _ (fuel : ℕ) (mounts : ℕ → List ℕ) (stays : Stays mounts) where
    abbrev now : Classes
    now = record classes { mounts = mounts }

    mount_related-Family : (a b : ℕ) → mount_related fuel now a b ≡ true → Family a b
    unfolding mount_related
    mount_related-Family a b k = elim (Bool-cases (is_in b (mounted_under mounts fuel a))) [
      | inl down ↦ mounted (Under-stays mounts stays (is_in-Under mounts fuel a b _ refl down))
      | inr no_way ↦
          back
            (mounted (Under-stays mounts stays (is_in-Under mounts fuel b a _ refl (ground arith))))
    ]

    pub related_to_any-Family :
        (a : ℕ) (others : List ℕ)
        → related_to_any fuel now a others ≡ true
        → (b : ℕ) × (contains b others ≡ true) × Family b a
    unfolding related_to_any
    related_to_any-Family a [] k = absurd (ground arith)
    related_to_any-Family a (b ∷ others) k = elim (Bool-cases (mount_related fuel now a b)) [
      | inl hit ↦ (b, ground (arith, beq_refl b), back (mount_related-Family a b hit))
      | inr miss ↦
          let (c, there, family) = related_to_any-Family a others (ground arith) in
          (c, ground arith, family)
    ]

    pub extends_any-Family :
        (a : ℕ) (others : List ℕ)
        → extends_any now a others ≡ true
        → (b : ℕ) × (contains b others ≡ true) × Family b a
    unfolding extends_any
    extends_any-Family a [] k = absurd (ground arith)
    extends_any-Family a (b ∷ others) k = elim (Bool-cases (is_subclass now a b)) [
      | inl hit ↦ (b, ground (arith, beq_refl b), back (subclass hit))
      | inr miss ↦
          let (c, there, family) = extends_any-Family a others (ground arith) in
          (c, ground arith, family)
    ]
