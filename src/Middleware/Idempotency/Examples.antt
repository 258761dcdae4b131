-- ===== src/Middleware/Idempotency/Examples.antt =====
-- The idempotency middleware through a call, a repeat while it runs, its end and a repeat after that.
use fastapi_viewsets.Prelude.{
  ℕ, ◌≡◌, refl, Text, text, lookup, keep, list_eq, nat_eq, ◌==◌, List, [], ◌∷◌, none, some, Bool,
  true, false, arith,
}
use fastapi_viewsets.Middleware.Idempotency.{
  KeyRecord, Idempotency, Ttls, begin, waits, replays, new_run, is_live,
}
use fastapi_viewsets.Middleware.Idempotency.Replays.{
  Event, call, renewal, ending, happens, Holds, begin-replays,
}
use fastapi_viewsets.Middleware.Idempotency.Locks.{IsLocked, IsDuring, begin-excluded}
use fastapi_viewsets.Middleware.Idempotency.Claims.{begin-IsLocked}
use fastapi_viewsets.Middleware.Idempotency.Header.{
  strip_front, scan, parse_idempotency_key, serialized,
}
use fastapi_viewsets.Middleware.Idempotency.Header.Serialized.{parse_idempotency_key-serialized}

abbrev ttls : Ttls
ttls = record { ttl = 1000; lock_ttl = 60 }

-- Every outcome may be stored but 13.
abbrev keeps : ℕ → Bool
keeps outcome = elim (outcome == 13) [ true ↦ false | false ↦ true ]

abbrev empty : Idempotency ℕ
empty = record { records = []; runs = []; next_prune = 0; next_owner = 0 }

abbrev key : Text
key = text "k"

abbrev post : Text
post = text "POST"

nothing_live : keep (is_live 5) (lookup key empty.records) ≡ none
unfolding lookup
nothing_live = refl

abbrev locked : Idempotency ℕ
locked = (begin ttls 5 key post empty).0

locked-IsLocked : IsLocked key post 0 65 locked
locked-IsLocked = (begin-IsLocked ttls 5 key post empty tt nothing_live).1

-- A call under another key, a renewal, and the end of a call that another owner makes.
abbrev events : List (ℕ × Event ℕ)
events =
    (20, call (text "other") post)
    ∷ (25, renewal key (new_run 0))
    ∷ (30, ending (text "other") (new_run 1) (some 7) false)
    ∷ []

events-IsDuring : IsDuring {O = ℕ} keeps ttls key post 0 65 events
events-IsDuring = (
  omega arith,
  (omega arith, (tt, (omega arith, (omega arith, (tt, (omega arith, (omega arith, (refl, tt)))))))),
)

begin-excluded_example : (begin ttls 40 key post (happens keeps ttls events locked)).1 ≡ waits
begin-excluded_example =
    begin-excluded keeps ttls key post 0 65 events 40 post locked events-IsDuring (omega arith)
      locked-IsLocked

abbrev answered : KeyRecord ℕ
answered = record { fingerprint = post; owner = none; outcome = some 8; expires_at = 1050 }

abbrev stored : Idempotency ℕ
stored = record { records = (key, answered) ∷ []; runs = []; next_prune = 0; next_owner = 1 }

stored-Holds : Holds key answered stored
unfolding lookup
stored-Holds = (refl, (refl, tt))

abbrev later_events : List (ℕ × Event ℕ)
later_events = (60, call key (text "GET")) ∷ (70, ending key (new_run 0) (some 9) false) ∷ []

begin-replays_example :
    (begin ttls 90 key post (happens keeps ttls later_events stored)).1 ≡ replays 8
begin-replays_example =
    begin-replays keeps ttls later_events 90 key post answered stored 8 refl refl
      (omega arith, (omega arith, tt)) (omega arith) stored-Holds

-- a"b, quoted and escaped
abbrev odd_key : Text
odd_key = 97 ∷ 34 ∷ 98 ∷ []

odd_value : parse_idempotency_key (32 ∷ 34 ∷ 97 ∷ 92 ∷ 34 ∷ 98 ∷ 34 ∷ []) ≡ some odd_key
unfolding parse_idempotency_key strip_front scan
odd_value = refl

parse_idempotency_key-serialized_example : parse_idempotency_key (serialized odd_key) ≡ some odd_key
parse_idempotency_key-serialized_example =
    parse_idempotency_key-serialized odd_key (refl, (refl, (refl, tt))) (λ e. cc)
