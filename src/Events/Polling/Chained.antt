-- ===== src/Events/Polling/Chained.antt =====
-- What the events of a poll's answer chain to: the loop over the logged events in `poll` of
-- fastapi_viewsets/events/viewset.py.
use fastapi_viewsets.Prelude.{
  ℕ, max, Text, ◌≤◌, All, if◌then◌else◌, List, [], ◌∷◌, Option, some, ◌≡◌, refl, ap, arith,
  Bool-cases, inl, inr, map,
}
use fastapi_viewsets.Events.Store.{LoggedEvent}
use fastapi_viewsets.Events.Delivery.Push.{FilterResult, passes_filters}
use fastapi_viewsets.Events.Polling.{PolledEvent}
use fastapi_viewsets.Events.Polling.Answers.{chain_events, covering, answer_with, since_answer}

module _ {P : Type 0} where
  -- Each event's `prev` is the rev of the event before it, the first one's is the cursor.
  abbrev pub IsChain : ℕ → List (PolledEvent P) → Type 0
  IsChain prev [] = Unit
  IsChain prev (e ∷ events) = (e.prev ≡ prev) × IsChain e.rev events

  -- The events that the filters pass.
  unfoldable pub passed :
      (LoggedEvent P → List FilterResult) → List (LoggedEvent P) → List (LoggedEvent P)
  passed filters [] = []
  passed filters (e ∷ logged) =
      let rest = passed filters logged in if passes_filters (filters e) then e ∷ rest else rest

  -- What an answer's event shows of the logged one, beside its `prev`.
  abbrev pub shown : PolledEvent P → ℕ × Text × ℕ × P
  shown e = (e.rev, e.event, e.version, e.payload)

  abbrev pub content : LoggedEvent P → ℕ × Text × ℕ × P
  content e = (e.rev, e.name, e.version, e.payload)

  chain_events-IsChain :
      (filters : LoggedEvent P → List FilterResult) (prev : ℕ) (logged : List (LoggedEvent P))
      → IsChain prev (chain_events filters prev logged)
  unfolding chain_events
  chain_events-IsChain filters prev [] = tt
  chain_events-IsChain filters prev (e ∷ logged) = elim (Bool-cases (passes_filters (filters e))) [
    | inl pass ↦ rw pass (refl, chain_events-IsChain filters e.rev logged)
    | inr refused ↦ rw refused (chain_events-IsChain filters prev logged)
  ]

  shown-chain_events :
      (filters : LoggedEvent P → List FilterResult) (prev : ℕ) (logged : List (LoggedEvent P))
      → map shown (chain_events filters prev logged) ≡ map content (passed filters logged)
  unfolding chain_events passed
  shown-chain_events filters prev [] = refl
  shown-chain_events filters prev (e ∷ logged) = elim (Bool-cases (passes_filters (filters e))) [
    | inl pass ↦ rw pass (ap (λ rest. content e ∷ rest) (shown-chain_events filters e.rev logged))
    | inr refused ↦ rw refused (shown-chain_events filters prev logged)
  ]

  le-covering : (rev : ℕ) (logged : List (LoggedEvent P)) → rev ≤ covering rev logged
  unfolding covering
  le-covering rev [] = omega arith
  le-covering rev (e ∷ logged) = omega (arith, le-covering (max rev e.rev) logged)

  covering-covers :
      (rev : ℕ) (logged : List (LoggedEvent P)) → All (λ e. e.rev ≤ covering rev logged) logged
  unfolding covering
  covering-covers rev [] = tt
  covering-covers rev (e ∷ logged) =
      (omega (arith, le-covering (max rev e.rev) logged), covering-covers (max rev e.rev) logged)

  -- The answer from a log: its events are those of the log that the filters pass, in the log's order; each
  -- one's `prev` is the rev of the one before it, the cursor for the first; and its rev is at least what
  -- `revs` answered and every rev of the log, a refused event's included.
  pub since_answer-IsChain :
      (filters : LoggedEvent P → List FilterResult) (rev cursor : ℕ) (key : Option Text)
      (logged : List (LoggedEvent P))
      → (events : List (PolledEvent P)) × (covered : ℕ) × (since_answer filters rev cursor key
            (some logged)
          ≡ answer_with covered (some events) key)
        × IsChain cursor events
        × (map shown events ≡ map content (passed filters logged))
        × (rev ≤ covered)
        × All (λ e. e.rev ≤ covered) logged
  unfolding since_answer
  since_answer-IsChain filters rev cursor key logged = (
    chain_events filters cursor logged,
    covering rev logged,
    refl,
    chain_events-IsChain filters cursor logged,
    shown-chain_events filters cursor logged,
    le-covering rev logged,
    covering-covers rev logged,
  )
