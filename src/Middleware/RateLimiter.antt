-- ===== src/Middleware/RateLimiter.antt =====
-- fastapi_viewsets/middleware/rate_limiter.py without Redis: `_increment_in_memory` and `depends`. Times
-- are whole numbers of a common unit; each call takes the reading of the monotonic clock.
pub mod Windows
pub mod Grants
pub mod Examples
use fastapi_viewsets.Prelude.{
  ℕ, ◌+◌, Text, Dict, lookup, insert, list_eq, nat_eq, ◌==◌, leb, ltb, if◌then◌else◌, List, [], ◌∷◌,
  Option, none, some, Bool, true, false,
}

-- `RateLimiter`: `_counts` has a count and the start of its window under each key
pub record RateLimiter : Type 0 where
  pub default_limit : ℕ
  pub window : ℕ
  pub counts : Dict Text (ℕ × ℕ)
  pub next_prune : ℕ

-- `now - start < window_seconds`
abbrev pub is_live : ℕ → ℕ → ℕ × ℕ → Bool
is_live now window entry = ltb now (entry.1 + window)

-- the dict comprehension that keeps the entries of windows still open
unfoldable pub live_entries : ℕ → ℕ → Dict Text (ℕ × ℕ) → Dict Text (ℕ × ℕ)
live_entries now window [] = []
live_entries now window ((key, entry) ∷ entries) =
    let rest = live_entries now window entries in
    if is_live now window entry then (key, entry) ∷ rest else rest

unfoldable pub prune : ℕ → RateLimiter → RateLimiter
unfolding live_entries
prune now r =
    if leb r.next_prune now
    then record r { counts = live_entries now r.window r.counts; next_prune = now + r.window }
    else r

-- the entry of a key, or a new window
abbrev pub entry_or_new : ℕ → Option (ℕ × ℕ) → ℕ × ℕ
entry_or_new now none = (0, now)
entry_or_new now (some entry) = entry

-- a window that has ended starts anew
abbrev pub reopened : ℕ → ℕ → ℕ × ℕ → ℕ × ℕ
reopened now window entry = if leb (entry.1 + window) now then (0, now) else entry

abbrev counted : ℕ → Text → ℕ → ℕ × ℕ → RateLimiter → RateLimiter × Bool
counted now key limit (count, start) r =
    (record r { counts = insert key (count + 1, start) r.counts }, leb (count + 1) limit)

-- `_increment_in_memory`
unfoldable pub increment_in_memory : ℕ → Text → ℕ → RateLimiter → RateLimiter × Bool
unfolding prune
increment_in_memory now key limit r =
    let pruned = prune now r in
    counted now key limit (reopened now r.window (entry_or_new now (lookup key pruned.counts)))
      pruned

-- What `depends` answers: nothing, or `RateLimitedError`.
pub data Admission : Type 0 where
  admitted rate_limited : Admission

abbrev admission : Bool → Admission
admission true = admitted
admission false = rate_limited

abbrev limit_of : ℕ → Option ℕ → ℕ
limit_of default_limit none = default_limit
limit_of default_limit (some limit) = limit

-- `depends`, for the key that `key_func` answers and the action's configuration
unfoldable pub depends : ℕ → Text → Option ℕ → RateLimiter → RateLimiter × Admission
unfolding increment_in_memory
depends now key config r =
    let r' = increment_in_memory now key (limit_of r.default_limit config) r in
    (r'.0, admission r'.1)
