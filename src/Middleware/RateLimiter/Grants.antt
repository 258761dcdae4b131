-- ===== src/Middleware/RateLimiter/Grants.antt =====
-- How many calls the rate limiter allows in one window, among the calls of any keys.
use fastapi_viewsets.Prelude.{
  ℕ, suc, ◌+◌, ◌-◌, ◌≤◌, ◌<◌, min, ◌≡◌, Text, list_eq, nat_eq, ◌==◌, beq_refl, beq-eq, leb,
  if◌then◌else◌, List, [], ◌∷◌, false, Bool-cases, inl, inr, arith, ap, sym, ◌∙◌, subst, ◌&&◌,
}
use fastapi_viewsets.Middleware.RateLimiter.{RateLimiter, increment_in_memory, reopened}
use fastapi_viewsets.Middleware.RateLimiter.Windows.{
  IsKeyed, window_of, window_of-increment, allowed-increment, increment-IsKeyed, window-prune,
}

-- Calls that come in the order of their times, from `now` on and before `end`.
abbrev pub IsTimed : ℕ → ℕ → List (ℕ × Text) → Type 0
IsTimed now end [] = Unit
IsTimed now end ((t, _) ∷ calls) = (now ≤ t) × ((t < end) × IsTimed t end calls)

-- How many of the calls are of the key.
abbrev pub calls_of : Text → List (ℕ × Text) → ℕ
calls_of key [] = 0
calls_of key ((_, k) ∷ calls) = (if k == key then 1 else 0) + calls_of key calls

-- How many of the key's calls are allowed, when each call in turn goes through the limiter.
abbrev pub granted : Text → ℕ → RateLimiter → List (ℕ × Text) → ℕ
granted key limit r [] = 0
granted key limit r ((t, k) ∷ calls) =
    let step = increment_in_memory t k limit r in
    (if (k == key) && step.1 then 1 else 0) + granted key limit step.0 calls

-- From `now` on and before `end`, the open window of `key` counts `count` calls since `start`.
pub record IsOpen (r : RateLimiter) (now end : ℕ) (key : Text) (count start : ℕ) : Type 0 where
  pub counts : (t : ℕ) → now ≤ t → t < end → window_of r t key ≡ (count, start)
  pub lasts : end ≤ start + r.window

window-increment :
    (r : RateLimiter) (now limit : ℕ) (key : Text)
    → (increment_in_memory now key limit r).0.window ≡ r.window
unfolding increment_in_memory
window-increment r now limit key = window-prune r now

reopened-early :
    (t window end count start : ℕ)
    → t < end
    → end ≤ start + window
    → reopened t window (count, start) ≡ (count, start)
reopened-early t window end count start h k = ground arith

own-IsOpen :
    (r : RateLimiter) (now end t limit : ℕ) (key : Text) (count start : ℕ)
    → IsKeyed r.counts
    → now ≤ t
    → t < end
    → IsOpen r now end key count start
    → IsOpen (increment_in_memory t key limit r).0 t end key (count + 1) start
own-IsOpen r now end t limit key count start u h k opened = record {
  counts = λ later a b.
      window_of-increment r t later limit key key a u
      ∙ rw (beq_refl key) (
          ap (λ w. reopened later r.window (w.0 + 1, w.1)) (opened.counts t h k)
          ∙ reopened-early later r.window end (count + 1) start b opened.lasts);
  lasts = subst (λ w. end ≤ start + w) (sym (window-increment r t limit key)) opened.lasts;
}

other-IsOpen :
    (r : RateLimiter) (now end t limit : ℕ) (key other : Text) (count start : ℕ)
    → IsKeyed r.counts
    → now ≤ t
    → (other == key) ≡ false
    → IsOpen r now end key count start
    → IsOpen (increment_in_memory t other limit r).0 t end key count start
other-IsOpen r now end t limit key other count start u h differ opened = record {
  counts = λ later a b.
      window_of-increment r t later limit other key a u
      ∙ rw differ (opened.counts later (omega arith) b);
  lasts = subst (λ w. end ≤ start + w) (sym (window-increment r t limit other)) opened.lasts;
}

-- Where the counts hold each key once and the calls come in the order of their times: while a key's
-- window is open, of the key's calls exactly the first ones are allowed that the limit
-- leaves room for, in whatever order the calls of other keys come between them.
pub granted-min :
    (r : RateLimiter) (now end limit : ℕ) (key : Text) (count start : ℕ) (calls : List (ℕ × Text))
    → IsKeyed r.counts
    → IsOpen r now end key count start
    → IsTimed now end calls
    → granted key limit r calls ≡ min (calls_of key calls) (limit - count)
granted-min r now end limit key count start [] u opened timed = omega arith
granted-min r now end limit key count start ((t, k) ∷ calls) u opened timed =
    elim (Bool-cases (k == key)) [
      | inl e ↦
          let step : granted key limit r ((t, key) ∷ calls)
              ≡ min (suc (calls_of key calls)) (limit - count) =
            let allowed : (increment_in_memory t key limit r).1 ≡ leb (count + 1) limit =
              allowed-increment r t limit key u
              ∙ ap (λ w. leb (w.0 + 1) limit) (opened.counts t timed.0 timed.1.0) in
            let rest =
              granted-min (increment_in_memory t key limit r).0 t end limit key (count + 1) start
                calls (increment-IsKeyed r t limit key u)
                (own-IsOpen r now end t limit key count start u timed.0 timed.1.0 opened)
                timed.1.1 in
            rw (beq_refl key) (ground (arith, allowed, rest)) in
          let same = beq-eq k key e in
          ap (λ j. granted key limit r ((t, j) ∷ calls)) same ∙ step ∙ rw e (omega arith)
      | inr e ↦
          let rest =
            granted-min (increment_in_memory t k limit r).0 t end limit key count start calls
              (increment-IsKeyed r t limit k u)
              (other-IsOpen r now end t limit key k count start u timed.0 e opened) timed.1.1 in
          rw e (omega (arith, rest))
    ]
