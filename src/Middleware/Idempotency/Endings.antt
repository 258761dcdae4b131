-- ===== src/Middleware/Idempotency/Endings.antt =====
-- What the end of a call leaves under its key.
use fastapi_viewsets.Prelude.{
  ℕ, ◌+◌, ◌≡◌, refl, Text, lookup, lookup-insert, lookup-erase, list_eq, nat_eq, beq_refl,
  if◌then◌else◌, Option, none, some, Bool, true, false, not, ◌&&◌, ◌||◌, ap, ◌∙◌, arith, Bool-cases,
  inl, inr,
}
use fastapi_viewsets.Middleware.Idempotency.{
  KeyRecord, Run, Idempotency, Ttls, Mode, is_owner, owned_by, stores, finished_at,
  finish_in_memory, recorded, forget_run, finish,
}
use fastapi_viewsets.Middleware.Idempotency.Locks.{IsLocked}

module _ {O : Type 0} (keeps : O → Bool) (ttls : Ttls) (now : ℕ) where
  records-forget_run :
      (key : Text) (run : Run) (s : Idempotency O) → (forget_run key run s).records ≡ s.records
  unfolding forget_run
  records-forget_run key run s = ground arith

  finish_in_memory-owned :
      (key : Text) (run : Run) (r : KeyRecord O) (outcome : Option O) (mode : Mode)
      (s : Idempotency O)
      → lookup key s.records ≡ some r
      → is_owner run.owner r.owner ≡ true
      → finish_in_memory ttls now key run outcome mode s
        ≡ finished_at (some r) ttls now key run outcome mode s
  unfolding finish_in_memory
  finish_in_memory-owned key run r outcome mode s held own =
      let owned : owned_by run.owner (lookup key s.records) ≡ true =
        ap (owned_by run.owner) held ∙ own in
      rw owned (ap (λ o. finished_at o ttls now key run outcome mode s) held)

  finished_at-lookup :
      (key : Text) (run : Run) (r : KeyRecord O) (outcome : Option O) (mode : Mode)
      (s : Idempotency O)
      → lookup key (finished_at (some r) ttls now key run outcome mode s).records ≡ (
          if stores mode run.attached
          then some (record {
            fingerprint = r.fingerprint;
            owner = none;
            outcome = outcome;
            expires_at = now + ttls.ttl;
          })
          else none)
  finished_at-lookup key run r outcome mode s = elim (Bool-cases (stores mode run.attached)) [
    | inl kept ↦ rw kept (lookup-insert key key _ s.records ∙ rw (beq_refl key) refl)
    | inr lost ↦ rw lost (lookup-erase key key s.records ∙ rw (beq_refl key) refl)
  ]

  -- The outcomes that the end of a call stores: one that `keeps` accepts, of a method other than GET
  -- and HEAD or with a repeat attached to the call.
  abbrev pub is_stored : Bool → Bool → Option O → Bool
  is_stored safe attached_ none = false
  is_stored safe attached_ (some outcome) = keeps outcome && (not safe || attached_)

  -- The record of an outcome.
  abbrev pub record_of : Text → Option O → KeyRecord O
  record_of fingerprint outcome = record {
    fingerprint = fingerprint;
    owner = none;
    outcome = outcome;
    expires_at = now + ttls.ttl;
  }

  stored-recorded :
      (safe attached_ : Bool) (outcome : Option O) (fingerprint : Text)
      → (if stores (recorded keeps safe outcome).0 attached_
          then some (record_of fingerprint (recorded keeps safe outcome).1)
          else none)
        ≡ (if is_stored safe attached_ outcome then some (record_of fingerprint outcome) else none)
  unfolding recorded
  stored-recorded safe attached_ none fingerprint = refl
  stored-recorded true attached_ (some outcome) fingerprint = elim (Bool-cases (keeps outcome)) [
    | inl kept ↦ rw kept refl
    | inr lost ↦ rw lost refl
  ]
  stored-recorded false attached_ (some outcome) fingerprint = elim (Bool-cases (keeps outcome)) [
    | inl kept ↦ rw kept refl
    | inr lost ↦ rw lost refl
  ]

  -- The end of the call that locks a key leaves under the key its outcome, for the lock's fingerprint
  -- and the time to live, where that outcome is to be stored, and no record otherwise.
  pub finish-lookup :
      (key fingerprint : Text) (owner until : ℕ) (attached_ safe : Bool) (outcome : Option O)
      (s : Idempotency O)
      → IsLocked key fingerprint owner until s
      → lookup key
          (finish keeps ttls now key
            (record { owner = owner; attached = attached_ })
            outcome
            safe
            s).records
        ≡ (if is_stored safe attached_ outcome
            then some (record {
              fingerprint = fingerprint;
              owner = none;
              outcome = outcome;
              expires_at = now + ttls.ttl;
            })
            else none)
  unfolding finish
  finish-lookup key fingerprint owner until attached_ safe outcome s l =
      let run : Run = record { owner = owner; attached = attached_ } in
      let what = recorded keeps safe outcome in
      ap (λ d. lookup key d)
        (records-forget_run key run (finish_in_memory ttls now key run what.1 what.0 s))
      ∙ ap (λ t. lookup key t.records)
          (finish_in_memory-owned key run l.entry what.1 what.0 s l.holds.0
            (ap (is_owner owner) l.locked ∙ beq_refl owner))
      ∙ finished_at-lookup key run l.entry what.1 what.0 s
      ∙ stored-recorded safe attached_ outcome l.entry.fingerprint
      ∙ ap (λ f. if is_stored safe attached_ outcome then some (record_of f outcome) else none)
          l.claimed_for
