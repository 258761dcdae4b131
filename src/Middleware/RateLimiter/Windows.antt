-- ===== src/Middleware/RateLimiter/Windows.antt =====
-- The windows that the rate limiter counts in, whatever it prunes.
use fastapi_viewsets.Prelude.{
  ℕ, ◌+◌, ◌≤◌, ◌≡◌, refl, Text, Dict, lookup, insert, list_eq, nat_eq, ◌==◌, beq-eq, leb,
  if◌then◌else◌, [], ◌∷◌, none, Bool-cases, inl, inr, arith, lookup-insert, ap, ◌∙◌, lookup-nil,
}
use fastapi_viewsets.Middleware.RateLimiter.{
  RateLimiter, is_live, live_entries, prune, entry_or_new, reopened, increment_in_memory,
}

-- A dict holds each key once.
abbrev pub IsKeyed : Dict Text (ℕ × ℕ) → Type 0
IsKeyed [] = Unit
IsKeyed ((key, _) ∷ entries) = (lookup key entries ≡ none) × IsKeyed entries

-- The open window of a key: how many calls it counts and when it started.
abbrev pub window_of : RateLimiter → ℕ → Text → ℕ × ℕ
window_of r now key = reopened now r.window (entry_or_new now (lookup key r.counts))

lookup-live_entries :
    (now window : ℕ) (entries : Dict Text (ℕ × ℕ)) (key : Text)
    → lookup key entries ≡ none
    → lookup key (live_entries now window entries) ≡ none
unfolding live_entries lookup
lookup-live_entries now window [] key h = refl
lookup-live_entries now window ((k, entry) ∷ entries) key h =
    ground (arith, lookup-live_entries now window entries key)

live_entries-IsKeyed :
    (now window : ℕ) (entries : Dict Text (ℕ × ℕ))
    → IsKeyed entries
    → IsKeyed (live_entries now window entries)
unfolding live_entries
live_entries-IsKeyed now window [] h = tt
live_entries-IsKeyed now window ((k, entry) ∷ entries) h =
    elim (Bool-cases (is_live now window entry)) [
      | inl e ↦ rw e (
        lookup-live_entries now window entries k h.0,
        live_entries-IsKeyed now window entries h.1,
      )
      | inr e ↦ rw e (live_entries-IsKeyed now window entries h.1)
    ]

insert-IsKeyed :
    (key : Text) (entry : ℕ × ℕ) (entries : Dict Text (ℕ × ℕ))
    → IsKeyed entries
    → IsKeyed (insert key entry entries)
unfolding insert
insert-IsKeyed key entry [] h = (lookup-nil key, tt)
insert-IsKeyed key entry ((k, old) ∷ entries) h = elim (Bool-cases (k == key)) [
  | inl e ↦ rw e (h.0, h.1)
  | inr e ↦ rw e (
    ground (arith, lookup-insert key k entry entries, beq-eq key k, beq-eq k key),
    insert-IsKeyed key entry entries h.1,
  )
]

-- A key's open window outlives every pruning.
reopened-live_entries :
    (now later window : ℕ) (entries : Dict Text (ℕ × ℕ)) (key : Text)
    → now ≤ later
    → IsKeyed entries
    → reopened later window (entry_or_new later (lookup key (live_entries now window entries)))
      ≡ reopened later window (entry_or_new later (lookup key entries))
unfolding live_entries lookup
reopened-live_entries now later window [] key h u = refl
reopened-live_entries now later window ((k, entry) ∷ entries) key h u = ground (
  arith,
  beq-eq k key,
  lookup-live_entries now window entries k u.0,
  reopened-live_entries now later window entries key h u.1,
)

lookup-prune :
    (r : RateLimiter) (now later : ℕ) (key : Text)
    → now ≤ later
    → IsKeyed r.counts
    → reopened later r.window (entry_or_new later (lookup key (prune now r).counts))
      ≡ window_of r later key
unfolding prune
lookup-prune r now later key h u =
    ground (arith, reopened-live_entries now later r.window r.counts key h u)

pub window-prune : (r : RateLimiter) (now : ℕ) → (prune now r).window ≡ r.window
unfolding prune
window-prune r now = ground arith

prune-IsKeyed : (r : RateLimiter) (now : ℕ) → IsKeyed r.counts → IsKeyed (prune now r).counts
unfolding prune
prune-IsKeyed r now u = elim (Bool-cases (leb r.next_prune now)) [
  | inl e ↦ rw e (live_entries-IsKeyed now r.window r.counts u)
  | inr e ↦ rw e u
]

-- Every call keeps the counts a dict.
pub increment-IsKeyed :
    (r : RateLimiter) (now limit : ℕ) (key : Text)
    → IsKeyed r.counts
    → IsKeyed (increment_in_memory now key limit r).0.counts
unfolding increment_in_memory
increment-IsKeyed r now limit key u =
    insert-IsKeyed key _ (prune now r).counts (prune-IsKeyed r now u)

-- At a time no earlier than the call's, and where the counts hold each key once: a call counts once in
-- the open window of its key, which it opens where none is open, and leaves
-- the windows of the other keys as they are, whether it prunes or not.
pub window_of-increment :
    (r : RateLimiter) (now later limit : ℕ) (key other : Text)
    → now ≤ later
    → IsKeyed r.counts
    → window_of (increment_in_memory now key limit r).0 later other ≡ (
        if key == other
        then reopened later r.window ((window_of r now key).0 + 1, (window_of r now key).1)
        else window_of r later other)
unfolding increment_in_memory
window_of-increment r now later limit key other h u =
    let entry = reopened now r.window (entry_or_new now (lookup key (prune now r).counts)) in
    let own : entry ≡ window_of r now key = lookup-prune r now now key (omega arith) u in
    let counts = insert key (entry.0 + 1, entry.1) (prune now r).counts in
    ap (λ w. reopened later w (entry_or_new later (lookup other counts))) (window-prune r now)
    ∙ ap (λ found. reopened later r.window (entry_or_new later found))
        (lookup-insert key other (entry.0 + 1, entry.1) (prune now r).counts)
    ∙ elim (Bool-cases (key == other)) [
      | inl e ↦ rw e (ap (λ w. reopened later r.window (w.0 + 1, w.1)) own)
      | inr e ↦ rw e (lookup-prune r now later other h u)
    ]

-- Where the counts hold each key once, a call is allowed exactly where the open window of its key
-- counted fewer calls than the limit.
pub allowed-increment :
    (r : RateLimiter) (now limit : ℕ) (key : Text)
    → IsKeyed r.counts
    → (increment_in_memory now key limit r).1 ≡ leb ((window_of r now key).0 + 1) limit
unfolding increment_in_memory
allowed-increment r now limit key u =
    ap (λ w. leb (w.0 + 1) limit) (lookup-prune r now now key (omega arith) u)
