-- ===== src/Events/Store/Chain.antt =====
-- The chain that a topic's log forms: each event's `prev` is the rev of the event before it.
use mathlib.Core.List.{reverse-append, reverse-reverse, append_assoc, reverse-cons}
use fastapi_viewsets.Prelude.{
  ℕ, ◌≤◌, ◌<◌, ◌≡◌, refl, ltb, nat_beq, Bool-cases, List, [], ◌∷◌, ◌++◌, reverse, filter, some, inl,
  inr, arith, ap, subst, length,
}
use fastapi_viewsets.Events.Store.{LoggedEvent, collect, trim}

module _ {P : Type 0} where
  -- `log` leads from the rev `start` to the rev `last`.
  abbrev pub IsChain : ℕ → List (LoggedEvent P) → ℕ → Type 0
  IsChain start [] last = start ≡ last
  IsChain start (e ∷ log) last = (e.prev ≡ start) × (start < e.rev) × IsChain e.rev log last

  -- The events of `history` that are newer than the rev `after`.
  abbrev pub events_after : ℕ → List (LoggedEvent P) → List (LoggedEvent P)
  events_after after = filter (λ e. ltb after e.rev)

  pub IsChain-le : (a : ℕ) (log : List (LoggedEvent P)) (b : ℕ) → IsChain a log b → a ≤ b
  IsChain-le a [] b h = omega arith
  IsChain-le a (e ∷ log) b h = omega (arith, IsChain-le e.rev log b h.2)

  pub IsChain-append :
      (a : ℕ) (xs : List (LoggedEvent P)) (m : ℕ) (ys : List (LoggedEvent P)) (b : ℕ)
      → IsChain a xs m
      → IsChain m ys b
      → IsChain a (xs ++ ys) b
  IsChain-append a [] m ys b h k = rw h k
  IsChain-append a (e ∷ xs) m ys b h k = (h.0, h.1, IsChain-append e.rev xs m ys b h.2 k)

  pub IsChain-split :
      (a : ℕ) (xs ys : List (LoggedEvent P)) (b : ℕ)
      → IsChain a (xs ++ ys) b
      → (m : ℕ) × IsChain a xs m × IsChain m ys b
  IsChain-split a [] ys b h = (a, refl, h)
  IsChain-split a (e ∷ xs) ys b h =
      let (m, left, right) = IsChain-split e.rev xs ys b h.2 in (m, (h.0, h.1, left), right)

  pub events_after_old :
      (after a : ℕ) (xs : List (LoggedEvent P)) (b : ℕ)
      → IsChain a xs b
      → b ≤ after
      → events_after after xs ≡ []
  events_after_old after a [] b h k = refl
  events_after_old after a (e ∷ xs) b h k =
      ground (arith, IsChain-le e.rev xs b h.2, events_after_old after e.rev xs b h.2 k)

  pub events_after_new :
      (after a : ℕ) (xs : List (LoggedEvent P)) (b : ℕ)
      → IsChain a xs b
      → after ≤ a
      → events_after after xs ≡ xs
  events_after_new after a [] b h k = refl
  events_after_new after a (e ∷ xs) b h k = ground (arith, events_after_new after e.rev xs b h.2)

  pub events_after-append :
      (after : ℕ) (xs ys : List (LoggedEvent P))
      → events_after after (xs ++ ys) ≡ events_after after xs ++ events_after after ys
  events_after-append after [] ys = refl
  events_after-append after (e ∷ xs) ys = ground (arith, events_after-append after xs ys)

  events_after_cut :
      (after : ℕ) (a : ℕ) (xs : List (LoggedEvent P)) (e : LoggedEvent P)
      (ys : List (LoggedEvent P)) (b : ℕ)
      → IsChain a (xs ++ e ∷ ys) b
      → e.prev ≡ after
      → (a ≤ after) × (events_after after (xs ++ e ∷ ys) ≡ e ∷ ys)
  events_after_cut after a xs e ys b h k =
      let (m, left, right) = IsChain-split a xs (e ∷ ys) b h in
      (
        omega (arith, IsChain-le a xs m left),
        rw events_after-append (
            rw (events_after_old after a xs m left (omega arith))
              (events_after_new after m (e ∷ ys) b right (omega arith))),
      )

  regroup :
      (e : LoggedEvent P) (older newer : List (LoggedEvent P))
      → reverse (e ∷ older) ++ newer ≡ reverse older ++ e ∷ newer
  regroup e older newer = rw reverse-cons (append_assoc (reverse older) (e ∷ []) newer)

  -- The walk over the reversed log finds exactly the events after the cursor, and only for a
  -- cursor that is not older than the log.
  pub collect_sound :
      (after : ℕ) (newer older : List (LoggedEvent P)) (a b : ℕ) {found : List (LoggedEvent P)}
      → IsChain a (reverse older ++ newer) b
      → collect after (reverse newer) older ≡ some found
      → (a ≤ after) × (found ≡ events_after after (reverse older ++ newer))
  unfolding collect
  collect_sound after newer [] a b chain h = ground arith
  collect_sound after newer (entry ∷ older) a b {found} chain h =
      let chain' : IsChain a (reverse older ++ entry ∷ newer) b =
        subst (λ l. IsChain a l b) (regroup entry older newer) chain in
      rw regroup (elim (Bool-cases (nat_beq entry.prev after)) [
        | inl here ↦
            let e : some (reverse (reverse newer ++ entry ∷ [])) ≡ some found = rw here at h in
            let same : reverse (reverse newer ++ entry ∷ []) ≡ entry ∷ newer =
              rw reverse-append (ap (◌∷◌ entry) (reverse-reverse newer)) in
            let (low, cut) =
              events_after_cut after a (reverse older) entry newer b chain' (ground arith) in
            (low, cc (e, same, cut))
        | inr more ↦
            collect_sound after (entry ∷ newer) older a b chain' (rw reverse-cons (rw more at h))
      ])

  -- The walk answers whenever the cursor is the `prev` of an event in the log.
  pub collect_complete :
      (after : ℕ) (chain : List (LoggedEvent P)) (xs : List (LoggedEvent P)) (e : LoggedEvent P)
      (ys : List (LoggedEvent P))
      → e.prev ≡ after
      → (found : List (LoggedEvent P)) × (collect after chain (xs ++ e ∷ ys) ≡ some found)
  unfolding collect
  collect_complete after chain [] e ys h = (reverse (chain ++ e ∷ []), ground arith)
  collect_complete after chain (x ∷ xs) e ys h = elim (Bool-cases (nat_beq x.prev after)) [
    | inl here ↦ (reverse (chain ++ x ∷ []), rw here)
    | inr more ↦ rw more (collect_complete after (chain ++ x ∷ []) xs e ys h)
  ]

  -- Trimming drops oldest events, and leaves at most `size` of them.
  pub trim_suffix :
      (size : ℕ) (log : List (LoggedEvent P))
      → (gone : List (LoggedEvent P)) × (log ≡ gone ++ trim size log)
  unfolding trim
  trim_suffix size [] = ([], refl)
  trim_suffix size (e ∷ log) = elim (Bool-cases (ltb size (length (e ∷ log)))) [
    | inl over ↦ let (gone, same) = trim_suffix size log in (e ∷ gone, rw over (ap (◌∷◌ e) same))
    | inr fits ↦ ([], rw fits)
  ]

  pub length-trim-le : (size : ℕ) (log : List (LoggedEvent P)) → length (trim size log) ≤ size
  unfolding trim
  length-trim-le size [] = omega arith
  length-trim-le size (e ∷ log) = ground (arith, length-trim-le size log)
