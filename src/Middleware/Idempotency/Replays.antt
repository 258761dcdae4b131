-- ===== src/Middleware/Idempotency/Replays.antt =====
-- What repeats of a call are answered after any interleaving of calls, renewals and ends.
use fastapi_viewsets.Prelude.{
  ℕ, ◌<◌, ◌≡◌, refl, Text, lookup, IsKeyed, list_eq, nat_eq, ◌==◌, beq-eq, lt→ltb, if◌then◌else◌,
  List, [], ◌∷◌, Option, none, some, Bool, ap, sym, ◌∙◌, Bool-cases, inl, inr, subst,
}
use fastapi_viewsets.Middleware.Idempotency.{
  KeyRecord, Run, Idempotency, Ttls, prune_records, key_reused, replays, begun, begin, is_owner,
  answer_same, renew_in_memory, finish,
}
use fastapi_viewsets.Middleware.Idempotency.Pinned.{
  IsPinned, prune-IsPinned, claim-pinned, begin-IsPinned, renew-IsPinned, finish-IsPinned,
}

-- What happens at an instance between two suspensions of its calls.
pub data Event (O : Type 0) : Type 0 where
  -- a call with a key and a fingerprint claims the key
  call : Text → Text → Event O
  -- a running call renews its lock
  renewal : Text → Run → Event O
  -- a running call ends, with an outcome or without one
  ending : Text → Run → Option O → Bool → Event O

-- The key holds the record, among keys that are held once each.
abbrev pub Holds : {O : Type 0} → Text → KeyRecord O → Idempotency O → Type 0
Holds key r s = (lookup key s.records ≡ some r) × IsKeyed s.records

module _ {O : Type 0} (keeps : O → Bool) (ttls : Ttls) where
  abbrev pub happen : ℕ → Event O → Idempotency O → Idempotency O
  happen now (call key fingerprint) s = (begin ttls now key fingerprint s).0
  happen now (renewal key run) s = (renew_in_memory ttls now key run s).0
  happen now (ending key run outcome safe) s = finish keeps ttls now key run outcome safe s

  abbrev pub happens : List (ℕ × Event O) → Idempotency O → Idempotency O
  happens [] s = s
  happens ((now, event) ∷ events) s = happens events (happen now event s)

  -- Every event comes before `end`.
  abbrev pub IsBefore : ℕ → List (ℕ × Event O) → Type 0
  IsBefore end [] = Unit
  IsBefore end ((now, _) ∷ events) = (now < end) × IsBefore end events

  pinned :
      (now : ℕ) (key : Text) (r : KeyRecord O) (s : Idempotency O)
      → now < r.expires_at
      → Holds key r s
      → IsPinned ttls now key r s
  pinned now key r s early h = (h.0, (h.1, lt→ltb now r.expires_at early))

  begin-stored :
      (now : ℕ) (key fingerprint : Text) (r : KeyRecord O) (s : Idempotency O) {outcome : O}
      → r.outcome ≡ some outcome
      → IsPinned ttls now key r s
      → begin ttls now key fingerprint s ≡ (
        prune_records ttls now s,
        (if r.fingerprint == fingerprint then replays outcome else key_reused),
      )
  unfolding begin
  begin-stored now key fingerprint r s {outcome} done p =
      ap (begun key fingerprint) (claim-pinned ttls now key fingerprint r s p)
      ∙ elim (Bool-cases (r.fingerprint == fingerprint)) [
        | inl alike ↦ rw alike (ap (λ o. answer_same o key (prune_records ttls now s)) done)
        | inr differ ↦ rw differ refl
      ]

  happen-Holds :
      (now : ℕ) (event : Event O) (key : Text) (r : KeyRecord O) (s : Idempotency O) {outcome : O}
      → r.owner ≡ none
      → r.outcome ≡ some outcome
      → now < r.expires_at
      → Holds key r s
      → Holds key r (happen now event s)
  happen-Holds now (call k fingerprint) key r s {outcome} free done early h =
      let p = pinned now key r s early h in
      elim (Bool-cases (k == key)) [
        | inl alike ↦
            subst (λ t. Holds key r t)
              (sym (
                ap (λ j. (begin ttls now j fingerprint s).0) (beq-eq k key alike)
                ∙ ap (λ b. b.0) (begin-stored now key fingerprint r s {outcome = outcome} done p)))
              (let q = prune-IsPinned ttls now key r s p in (q.0, q.1.0))
        | inr differ ↦
            let q = begin-IsPinned ttls now key k fingerprint r s differ p in (q.0, q.1.0)
      ]
  happen-Holds now (renewal k run) key r s free done early h =
      let q =
        renew-IsPinned ttls now key k run r s (ap (is_owner run.owner) free)
          (pinned now key r s early h) in
      (q.0, q.1.0)
  happen-Holds now (ending k run outcome safe) key r s free done early h =
      let q =
        finish-IsPinned ttls now keeps key k run outcome safe r s (ap (is_owner run.owner) free)
          (pinned now key r s early h) in
      (q.0, q.1.0)

  happens-Holds :
      (events : List (ℕ × Event O)) (key : Text) (r : KeyRecord O) (s : Idempotency O) {outcome : O}
      → r.owner ≡ none
      → r.outcome ≡ some outcome
      → IsBefore r.expires_at events
      → Holds key r s
      → Holds key r (happens events s)
  happens-Holds [] key r s free done before h = h
  happens-Holds ((now, event) ∷ events) key r s {outcome} free done before h =
      happens-Holds events key r (happen now event s) {outcome = outcome} free done before.1
        (happen-Holds now event key r s {outcome = outcome} free done before.0 h)

  -- Where a key holds a stored outcome, and each key is held once: after any interleaving of calls,
  -- renewals and ends under any keys, all before the record expires, a call with that key runs
  -- nothing; it replays the outcome if its request has the record's fingerprint, and is refused
  -- otherwise.
  pub begin-replays :
      (events : List (ℕ × Event O)) (now : ℕ) (key fingerprint : Text) (r : KeyRecord O)
      (s : Idempotency O) (outcome : O)
      → r.owner ≡ none
      → r.outcome ≡ some outcome
      → IsBefore r.expires_at events
      → now < r.expires_at
      → Holds key r s
      → (begin ttls now key fingerprint (happens events s)).1
        ≡ (if r.fingerprint == fingerprint then replays outcome else key_reused)
  begin-replays events now key fingerprint r s outcome free done before early h =
      let kept = happens-Holds events key r s {outcome = outcome} free done before h in
      ap (λ b. b.1)
        (begin-stored now key fingerprint r (happens events s) {outcome = outcome} done
          (pinned now key r (happens events s) early kept))
