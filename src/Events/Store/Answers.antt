-- ===== src/Events/Store/Answers.antt =====
-- When `since` answers, and what `revs` answers.
use mathlib.Core.List.{reverse-append, reverse-cons, append_assoc}
use fastapi_viewsets.Prelude.{
  ℕ, ◌≡◌, refl, Text, lookup, insert, lookup-insert, list_eq, nat_eq, beq-eq, nat_beq,
  if◌then◌else◌, List, [], ◌∷◌, ◌++◌, reverse, none, some, Bool-cases, inl, inr, arith, Dict, ap,
  contains, ◌∙◌,
}
use fastapi_viewsets.Events.Store.{
  LoggedEvent, Topic, MemoryEventStore, rev_of, live_log, since, since_at, revs, revs_into, collect,
}
use fastapi_viewsets.Events.Store.Chain.{collect_complete}
use fastapi_viewsets.Events.Store.History.{Tracks, since-eq-events_after}
use fastapi_viewsets.Events.Store.Chain.{events_after}

module _ {P : Type 0} where
  regroup :
      (e : LoggedEvent P) (newer older : List (LoggedEvent P))
      → reverse (e ∷ newer) ++ older ≡ reverse newer ++ e ∷ older
  regroup e newer older = rw reverse-cons (append_assoc (reverse newer) (e ∷ []) older)

  lookup-revs_into :
      (wanted : List Text) (t : Text) (topics : MemoryEventStore P) (answer : Dict Text ℕ)
      → lookup t (revs_into answer wanted topics)
        ≡ (if contains t wanted then some (rev_of (lookup t topics)) else lookup t answer)
  unfolding revs_into
  lookup-revs_into [] t topics answer = refl
  lookup-revs_into (x ∷ xs) t topics answer =
      let found = rev_of (lookup x topics) in
      let answer' = insert x found answer in
      lookup-revs_into xs t topics answer'
      ∙ ground (arith, lookup-insert x t found answer, beq-eq x t)

  collect-reverse :
      (after : ℕ) (older : List (LoggedEvent P)) (e : LoggedEvent P) (newer : List (LoggedEvent P))
      → e.prev ≡ after
      → (events : List (LoggedEvent P)) × (collect after [] (reverse (older ++ e ∷ newer))
          ≡ some events)
  collect-reverse after older e newer h =
      rw (reverse-append older (e ∷ newer), regroup e newer (reverse older))
        (collect_complete after [] (reverse newer) e (reverse older) h)

  since_at_answers :
      (state : Topic P) (now_ms : ℕ) (t : Text) (topics : MemoryEventStore P)
      (older : List (LoggedEvent P)) (e : LoggedEvent P) (newer : List (LoggedEvent P))
      → live_log state now_ms ≡ older ++ e ∷ newer
      → (events : List (LoggedEvent P)) × ((since_at (some state) now_ms t e.prev topics).1
          ≡ some events)
  unfolding since_at
  since_at_answers state now_ms t topics older e newer kept =
      elim (Bool-cases (nat_beq e.prev state.rev)) [
        | inl current ↦ ([], rw current)
        | inr behind ↦ rw (behind, kept) (collect-reverse e.prev older e newer refl)
      ]

  -- Where the store tracks the histories of its topics, a cursor that is the `prev` of an event which the
  -- topic's log still keeps is answered, and with every event of the history after it.
  pub since_complete :
      (topics : MemoryEventStore P) (history : Text → List (LoggedEvent P)) (now_ms : ℕ) (t : Text)
      (state : Topic P) (older : List (LoggedEvent P)) (e : LoggedEvent P)
      (newer : List (LoggedEvent P))
      → Tracks topics history
      → lookup t topics ≡ some state
      → live_log state now_ms ≡ older ++ e ∷ newer
      → (since now_ms t e.prev topics).1 ≡ some (events_after e.prev (history t))
  unfolding since
  since_complete topics history now_ms t state older e newer h found kept =
      let (events, answered) = since_at_answers state now_ms t topics older e newer kept in
      let same : (since now_ms t e.prev topics).1 ≡ some events = rw found answered in
      same ∙ ap some (since-eq-events_after topics history now_ms t e.prev h same)

  -- `revs` answers the current rev of every topic asked for, 0 for a topic without events.
  pub lookup-revs :
      (wanted : List Text) (t : Text) (topics : MemoryEventStore P)
      → lookup t (revs wanted topics)
        ≡ (if contains t wanted then some (rev_of (lookup t topics)) else none)
  unfolding revs lookup
  lookup-revs wanted t topics = lookup-revs_into wanted t topics []
