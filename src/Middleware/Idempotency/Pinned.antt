-- ===== src/Middleware/Idempotency/Pinned.antt =====
-- A live record through each operation of the idempotency middleware.
use fastapi_viewsets.Prelude.{
  ℕ, ◌+◌, ◌≡◌, refl, Text, lookup, insert, IsKeyed, lookup-select, select-IsKeyed, insert-IsKeyed,
  erase-IsKeyed, lookup-insert, lookup-erase, list_eq, nat_eq, ◌==◌, beq-eq, ltb, Option, none,
  some, Bool, true, false, ap, ◌∙◌, arith, Bool-cases, inl, inr,
}
use fastapi_viewsets.Middleware.Idempotency.{
  KeyRecord, Run, Idempotency, Ttls, Mode, is_live, prune_records, Claimed, claimed, found, running,
  take_key, claim_at, claim_in_memory, attach_at, answer_same, begun, begin, owned_by, renewed_at,
  renew_in_memory, is_owner, stores, finished_at, finish_in_memory, recorded, is_run, forget_run,
  finish,
}

module _ {O : Type 0} (ttls : Ttls) (now : ℕ) where
  -- The key holds the record, which is live.
  abbrev pub IsPinned : Text → KeyRecord O → Idempotency O → Type 0
  IsPinned key r s = (lookup key s.records ≡ some r) × (IsKeyed s.records × (is_live now r ≡ true))

  pub prune-IsPinned :
      (key : Text) (r : KeyRecord O) (s : Idempotency O)
      → IsPinned key r s
      → IsPinned key r (prune_records ttls now s)
  unfolding prune_records
  prune-IsPinned key r s h = elim (Bool-cases (ltb now s.next_prune)) [
    | inl early ↦ rw early h
    | inr late ↦ rw late (
      (lookup-select (is_live now) key s.records h.1.0 ∙ rw h.0 (rw h.1.1 refl)),
      (select-IsKeyed (is_live now) s.records h.1.0, h.1.1),
    )
  ]

  pub runs-prune : (s : Idempotency O) → (prune_records ttls now s).runs ≡ s.runs
  unfolding prune_records
  runs-prune s = ground arith

  -- A live record is what every claim of its key finds.
  pub claim-pinned :
      (key fingerprint : Text) (r : KeyRecord O) (s : Idempotency O)
      → IsPinned key r s
      → claim_in_memory ttls now key fingerprint s ≡ (prune_records ttls now s, found r)
  unfolding claim_in_memory
  claim-pinned key fingerprint r s h =
      let p = prune-IsPinned key r s h in
      ap (λ o. claim_at o ttls now key fingerprint (prune_records ttls now s)) p.0 ∙ rw h.1.1 refl

  take_key-IsPinned :
      (key other fingerprint : Text) (r : KeyRecord O) (s : Idempotency O)
      → (other == key) ≡ false
      → IsPinned key r s
      → IsPinned key r (take_key ttls now other fingerprint s).0
  take_key-IsPinned key other fingerprint r s differ h = (
    (lookup-insert other key (running ttls now fingerprint s.next_owner) s.records ∙ rw differ h.0),
    (insert-IsKeyed other (running ttls now fingerprint s.next_owner) s.records h.1.0, h.1.1),
  )

  claim_at-IsPinned :
      (o : Option (KeyRecord O)) (key other fingerprint : Text) (r : KeyRecord O)
      (s : Idempotency O)
      → (other == key) ≡ false
      → IsPinned key r s
      → IsPinned key r (claim_at o ttls now other fingerprint s).0
  claim_at-IsPinned none key other fingerprint r s differ h =
      take_key-IsPinned key other fingerprint r s differ h
  claim_at-IsPinned (some q) key other fingerprint r s differ h =
      elim (Bool-cases (is_live now q)) [
        | inl lives ↦ rw lives h
        | inr dead ↦ rw dead (take_key-IsPinned key other fingerprint r s differ h)
      ]

  attach_at-IsPinned :
      (o : Option Run) (key other : Text) (r : KeyRecord O) (s : Idempotency O)
      → (other == key) ≡ false
      → IsPinned key r s
      → IsPinned key r (attach_at o other s).0
  attach_at-IsPinned none key other r s differ h = (
    (lookup-erase other key s.records ∙ rw differ h.0),
    (erase-IsKeyed other s.records h.1.0, h.1.1),
  )
  attach_at-IsPinned (some run) key other r s differ h = h

  answer_same-IsPinned :
      (o : Option O) (key other : Text) (r : KeyRecord O) (s : Idempotency O)
      → (other == key) ≡ false
      → IsPinned key r s
      → IsPinned key r (answer_same o other s).0
  answer_same-IsPinned none key other r s differ h =
      attach_at-IsPinned (lookup other s.runs) key other r s differ h
  answer_same-IsPinned (some outcome) key other r s differ h = h

  begun-IsPinned :
      (key other fingerprint : Text) (r : KeyRecord O) (s : Idempotency O) (c : Claimed O)
      → (other == key) ≡ false
      → IsPinned key r s
      → IsPinned key r (begun other fingerprint (s, c)).0
  begun-IsPinned key other fingerprint r s (claimed run) differ h = h
  begun-IsPinned key other fingerprint r s (found q) differ h =
      elim (Bool-cases (q.fingerprint == fingerprint)) [
        | inl alike ↦ rw alike (answer_same-IsPinned q.outcome key other r s differ h)
        | inr unlike ↦ rw unlike h
      ]

  -- A call with another key leaves the record.
  pub begin-IsPinned :
      (key other fingerprint : Text) (r : KeyRecord O) (s : Idempotency O)
      → (other == key) ≡ false
      → IsPinned key r s
      → IsPinned key r (begin ttls now other fingerprint s).0
  unfolding begin claim_in_memory
  begin-IsPinned key other fingerprint r s differ h =
      let p = prune_records ttls now s in
      let c = claim_at (lookup other p.records) ttls now other fingerprint p in
      begun-IsPinned key other fingerprint r c.0 c.1 differ (
        claim_at-IsPinned (lookup other p.records) key other fingerprint r p differ
          (prune-IsPinned key r s h))

  renewed_at-IsPinned :
      (o : Option (KeyRecord O)) (key other : Text) (expires_at : ℕ) (r : KeyRecord O)
      (s : Idempotency O)
      → (other == key) ≡ false
      → IsPinned key r s
      → IsPinned key r (renewed_at o expires_at other s)
  renewed_at-IsPinned none key other e r s differ h = h
  renewed_at-IsPinned (some q) key other e r s differ h =
      let q' = record q { expires_at = e } in
      (
        (lookup-insert other key q' s.records ∙ rw differ h.0),
        (insert-IsKeyed other q' s.records h.1.0, h.1.1),
      )

  finished_at-IsPinned :
      (o : Option (KeyRecord O)) (key other : Text) (run : Run) (outcome : Option O) (mode : Mode)
      (r : KeyRecord O) (s : Idempotency O)
      → (other == key) ≡ false
      → IsPinned key r s
      → IsPinned key r (finished_at o ttls now other run outcome mode s)
  finished_at-IsPinned none key other run outcome mode r s differ h = h
  finished_at-IsPinned (some q) key other run outcome mode r s differ h =
      elim (Bool-cases (stores mode run.attached)) [
        | inl kept ↦
            let q' : KeyRecord O = record {
              fingerprint = q.fingerprint;
              owner = none;
              outcome = outcome;
              expires_at = now + ttls.ttl;
            } in
            rw kept (
              (lookup-insert other key q' s.records ∙ rw differ h.0),
              (insert-IsKeyed other q' s.records h.1.0, h.1.1),
            )
        | inr lost ↦ rw lost (
          (lookup-erase other key s.records ∙ rw differ h.0),
          (erase-IsKeyed other s.records h.1.0, h.1.1),
        )
      ]

  not_owned :
      (key other : Text) (run : Run) (r : KeyRecord O) (s : Idempotency O)
      → is_owner run.owner r.owner ≡ false
      → lookup key s.records ≡ some r
      → (other == key) ≡ true
      → owned_by run.owner (lookup other s.records) ≡ false
  not_owned key other run r s foreign held alike =
      ap (owned_by run.owner) (ap (λ k. lookup k s.records) (beq-eq other key alike) ∙ held)
      ∙ foreign

  finish_in_memory-IsPinned :
      (key other : Text) (run : Run) (outcome : Option O) (mode : Mode) (r : KeyRecord O)
      (s : Idempotency O)
      → is_owner run.owner r.owner ≡ false
      → IsPinned key r s
      → IsPinned key r (finish_in_memory ttls now other run outcome mode s)
  unfolding finish_in_memory
  finish_in_memory-IsPinned key other run outcome mode r s foreign h =
      elim (Bool-cases (other == key)) [
        | inl alike ↦ rw (not_owned key other run r s foreign h.0 alike) h
        | inr differ ↦ elim (Bool-cases (owned_by run.owner (lookup other s.records))) [
          | inr other_own ↦ rw other_own h
          | inl own ↦ rw own (
              finished_at-IsPinned (lookup other s.records) key other run outcome mode r s differ h)
        ]
      ]

  forget_run-IsPinned :
      (key other : Text) (run : Run) (r : KeyRecord O) (s : Idempotency O)
      → IsPinned key r s
      → IsPinned key r (forget_run other run s)
  unfolding forget_run
  forget_run-IsPinned key other run r s h = elim (Bool-cases (is_run run (lookup other s.runs))) [
    | inl mine ↦ rw mine h
    | inr not_mine ↦ rw not_mine h
  ]

  -- A renewal under another key leaves the record.
  pub renew_other-IsPinned :
      (key other : Text) (run : Run) (r : KeyRecord O) (s : Idempotency O)
      → (other == key) ≡ false
      → IsPinned key r s
      → IsPinned key r (renew_in_memory ttls now other run s).0
  unfolding renew_in_memory
  renew_other-IsPinned key other run r s differ h =
      elim (Bool-cases (owned_by run.owner (lookup other s.records))) [
        | inr other_own ↦ rw other_own h
        | inl own ↦ rw own (
            renewed_at-IsPinned (lookup other s.records) key other (now + ttls.lock_ttl) r s differ
              h)
      ]

  -- A renewal by a call that does not own the record leaves it.
  pub renew-IsPinned :
      (key other : Text) (run : Run) (r : KeyRecord O) (s : Idempotency O)
      → is_owner run.owner r.owner ≡ false
      → IsPinned key r s
      → IsPinned key r (renew_in_memory ttls now other run s).0
  unfolding renew_in_memory
  renew-IsPinned key other run r s foreign h = elim (Bool-cases (other == key)) [
    | inl alike ↦ rw (not_owned key other run r s foreign h.0 alike) h
    | inr differ ↦ renew_other-IsPinned key other run r s differ h
  ]

  -- A renewal by the record's owner moves its expiry.
  pub records-renew_own :
      (key : Text) (run : Run) (r : KeyRecord O) (s : Idempotency O)
      → lookup key s.records ≡ some r
      → is_owner run.owner r.owner ≡ true
      → (renew_in_memory ttls now key run s).0.records
        ≡ insert key (record r { expires_at = now + ttls.lock_ttl }) s.records
  unfolding renew_in_memory
  records-renew_own key run r s held own =
      let owned : owned_by run.owner (lookup key s.records) ≡ true =
        ap (owned_by run.owner) held ∙ own in
      rw owned (ap (λ o. (renewed_at o (now + ttls.lock_ttl) key s).records) held)

  -- The end of a call that does not own the record leaves it.
  pub finish-IsPinned :
      (keeps : O → Bool) (key other : Text) (run : Run) (outcome : Option O) (safe : Bool)
      (r : KeyRecord O) (s : Idempotency O)
      → is_owner run.owner r.owner ≡ false
      → IsPinned key r s
      → IsPinned key r (finish keeps ttls now other run outcome safe s)
  unfolding finish
  finish-IsPinned keeps key other run outcome safe r s foreign h =
      let what = recorded keeps safe outcome in
      forget_run-IsPinned key other run r (finish_in_memory ttls now other run what.1 what.0 s)
        (finish_in_memory-IsPinned key other run what.1 what.0 r s foreign h)
