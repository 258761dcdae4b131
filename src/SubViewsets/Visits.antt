-- ===== src/SubViewsets/Visits.antt =====
-- One round of `mounted_under` of fastapi_viewsets/decorators/sub_viewsets.py: what it sees, and what it
-- leaves to do.
use fastapi_viewsets.Prelude.{
  ℕ, suc, refl, if◌then◌else◌, ◌+◌, ◌≤◌, ◌<◌, nat_eq, nat_beq, beq-eq, contains, length, filter,
  List, [], ◌∷◌, ◌++◌, true, false, not, ◌&&◌, ◌||◌, ◌≡◌, inl, inr, arith, Bool-cases,
}
use fastapi_viewsets.SubViewsets.{Search, visit_one, visit}

contains-append :
    (x : ℕ) (xs : List ℕ) (y : ℕ) → contains x (xs ++ y ∷ []) ≡ (contains x xs || nat_beq y x)
contains-append x [] y = ground arith
contains-append x (z ∷ xs) y = ground (arith, contains-append x xs y)

-- One mount, and the mounts of a class: what is seen, pending and yielded after them.
contains-visit_one :
    (x v : ℕ) (s : Search)
    → (contains x (visit_one v s).seen ≡ (contains x s.seen || nat_beq v x))
      × (contains x (visit_one v s).pending
          ≡ (contains x s.pending || (nat_beq v x && not (contains v s.seen))))
      × (contains x (visit_one v s).yielded
          ≡ (contains x s.yielded || (nat_beq v x && not (contains v s.seen))))
unfolding visit_one
contains-visit_one x v s =
    (ground arith, ground arith, ground (arith, contains-append x s.yielded v))

pub contains-visit :
    (x : ℕ) (vs : List ℕ) (s : Search)
    → (contains x (visit vs s).seen ≡ (contains x s.seen || contains x vs))
      × (contains x (visit vs s).pending
          ≡ (contains x s.pending || (contains x vs && not (contains x s.seen))))
      × (contains x (visit vs s).yielded
          ≡ (contains x s.yielded || (contains x vs && not (contains x s.seen))))
unfolding visit
contains-visit x [] s = (ground arith, ground arith, ground arith)
contains-visit x (v ∷ vs) s =
    let (seen, pending, yielded) = contains-visit x vs (visit_one v s) in
    let (seen', pending', yielded') = contains-visit_one x v s in
    (ground (arith, seen, seen'), ground arith, ground arith)

-- How often a class stands in a list.
abbrev pub count : ℕ → List ℕ → ℕ
count x [] = 0
count x (y ∷ ys) = if nat_beq y x then suc (count x ys) else count x ys

count-append :
    (x : ℕ) (xs : List ℕ) (y : ℕ)
    → count x (xs ++ y ∷ []) ≡ (if nat_beq y x then suc (count x xs) else count x xs)
count-append x [] y = refl
count-append x (z ∷ xs) y = ground (arith, count-append x xs y)

-- Each class that is seen was yielded once, and no other class was.
abbrev pub IsCounted : Search → Type 0
IsCounted s = (x : ℕ) → count x s.yielded ≡ (if contains x s.seen then 1 else 0)

visit_one-IsCounted : (v : ℕ) (s : Search) → IsCounted s → IsCounted (visit_one v s)
unfolding visit_one
visit_one-IsCounted v s h = elim (Bool-cases (contains v s.seen)) [
  | inl old ↦ rw old h
  | inr new ↦ rw new (λ x. ground (arith, count-append x s.yielded v, h x, beq-eq v x, new))
]

pub visit-IsCounted : (vs : List ℕ) (s : Search) → IsCounted s → IsCounted (visit vs s)
unfolding visit
visit-IsCounted [] s h = h
visit-IsCounted (v ∷ vs) s h = visit-IsCounted vs (visit_one v s) (visit_one-IsCounted v s h)

-- The classes that are not seen yet.
abbrev pub unseen : List ℕ → List ℕ → ℕ
unseen seen classes = length (filter (λ c. not (contains c seen)) classes)

unseen-le : (v : ℕ) (seen classes : List ℕ) → unseen (v ∷ seen) classes ≤ unseen seen classes
unseen-le v seen [] = omega arith
unseen-le v seen (c ∷ classes) = ground (arith, unseen-le v seen classes)

unseen-lt :
    (v : ℕ) (seen classes : List ℕ)
    → contains v classes ≡ true
    → contains v seen ≡ false
    → unseen (v ∷ seen) classes < unseen seen classes
unseen-lt v seen [] h new = ground arith
unseen-lt v seen (c ∷ classes) h new =
    ground (arith, unseen-lt v seen classes, unseen-le v seen classes, beq-eq c v)

-- What is left to do of a search: each round takes one class off.
abbrev pub left : List ℕ → Search → ℕ
left classes s = unseen s.seen classes + length s.pending

left-visit_one :
    (classes : List ℕ) (v : ℕ) (s : Search)
    → contains v classes ≡ true
    → left classes (visit_one v s) ≤ left classes s
unfolding visit_one
left-visit_one classes v s h = elim (Bool-cases (contains v s.seen)) [
  | inl old ↦ ground arith
  | inr new ↦ ground (arith, unseen-lt v s.seen classes h new)
]

pub left-visit :
    (classes vs : List ℕ) (s : Search)
    → ((v : ℕ) → contains v vs ≡ true → contains v classes ≡ true)
    → left classes (visit vs s) ≤ left classes s
unfolding visit
left-visit classes [] s h = omega arith
left-visit classes (v ∷ vs) s h =
    let first = left-visit_one classes v s (h v (ground arith)) in
    let rest = left-visit classes vs (visit_one v s) (λ w k. h w (ground arith)) in
    omega (arith, first, rest)
