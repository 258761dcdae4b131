-- ===== src/Middleware/RateLimiter/Examples.antt =====
-- The rate limiter through some calls.
use fastapi_viewsets.Prelude.{
  ℕ, ◌+◌, ◌-◌, min, ◌≡◌, refl, Text, text, list_eq, nat_eq, List, [], ◌∷◌, none, some, leb, arith,
  lookup, insert,
}
use fastapi_viewsets.Middleware.RateLimiter.{
  RateLimiter, increment_in_memory, prune, live_entries, depends, admitted, rate_limited,
}
use fastapi_viewsets.Middleware.RateLimiter.Windows.{IsKeyed, window_of, allowed-increment}
use fastapi_viewsets.Middleware.RateLimiter.Grants.{IsOpen, IsTimed, calls_of, granted, granted-min}

abbrev ana : Text
ana = text "ana"

abbrev ben : Text
ben = text "ben"

abbrev limiter : RateLimiter
limiter = record { default_limit = 2; window = 60; counts = (ana, (1, 10)) ∷ []; next_prune = 30 }

-- the second call of the window is the last one; the window that started at 10 ends at 70
depends_run :
    ((depends 20 ana none limiter).1 ≡ admitted)
    × (((depends 20 ana (some 1) limiter).1 ≡ rate_limited)
        × ((depends 70 ana (some 1) limiter).1 ≡ admitted))
unfolding depends prune live_entries lookup insert
depends_run = (refl, (refl, refl))

limiter-IsKeyed : IsKeyed limiter.counts
unfolding lookup
limiter-IsKeyed = (refl, tt)

ana-IsOpen : IsOpen limiter 20 70 ana 1 10
unfolding lookup
ana-IsOpen = record { counts = λ t a b. ground arith; lasts = omega arith }

abbrev calls : List (ℕ × Text)
calls = (25, ana) ∷ (40, ben) ∷ (50, ana) ∷ []

calls-IsTimed : IsTimed 20 70 calls
calls-IsTimed =
    (omega arith, (omega arith, (omega arith, (omega arith, (omega arith, (omega arith, tt))))))

granted-min_example : granted ana 2 limiter calls ≡ min (calls_of ana calls) (2 - 1)
granted-min_example =
    granted-min limiter 20 70 2 ana 1 10 calls limiter-IsKeyed ana-IsOpen calls-IsTimed

allowed-increment_example :
    (increment_in_memory 35 ana 2 limiter).1 ≡ leb ((window_of limiter 35 ana).0 + 1) 2
allowed-increment_example = allowed-increment limiter 35 2 ana limiter-IsKeyed
