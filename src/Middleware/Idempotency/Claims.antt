-- ===== src/Middleware/Idempotency/Claims.antt =====
-- A call that finds no live record takes the key's lock.
use fastapi_viewsets.Prelude.{
  ℕ, ◌+◌, ◌≡◌, refl, Text, lookup, insert, keep, lookup-select, select-IsKeyed, IsKeyed,
  insert-IsKeyed, lookup-insert, list_eq, nat_eq, beq_refl, ltb, Option, none, some, ap, sym, ◌∙◌,
  arith, Bool-cases, inl, inr, subst,
}
use fastapi_viewsets.Middleware.Idempotency.{
  KeyRecord, Idempotency, Ttls, prune_records, running, new_run, take_key, claim_at,
  claim_in_memory, runs, begun, begin, is_run, is_live,
}
use fastapi_viewsets.Middleware.Idempotency.Locks.{IsLocked}

module _ {O : Type 0} (ttls : Ttls) (now : ℕ) where
  claim_at-gone :
      (o : Option (KeyRecord O)) (key fingerprint : Text) (s : Idempotency O)
      → keep (is_live now) o ≡ none
      → claim_at o ttls now key fingerprint s ≡ take_key ttls now key fingerprint s
  claim_at-gone none key fingerprint s gone = refl
  claim_at-gone (some q) key fingerprint s gone = ground arith

  keep-twice :
      (o : Option (KeyRecord O)) → keep (is_live now) (keep (is_live now) o) ≡ keep (is_live now) o
  keep-twice none = refl
  keep-twice (some q) = ground arith

  gone-prune :
      (key : Text) (s : Idempotency O)
      → IsKeyed s.records
      → keep (is_live now) (lookup key (prune_records ttls now s).records)
        ≡ keep (is_live now) (lookup key s.records)
  unfolding prune_records
  gone-prune key s keyed =
      ground
        (arith, lookup-select (is_live now) key s.records keyed, keep-twice (lookup key s.records))

  prune-IsKeyed :
      (s : Idempotency O) → IsKeyed s.records → IsKeyed (prune_records ttls now s).records
  unfolding prune_records
  prune-IsKeyed s keyed = elim (Bool-cases (ltb now s.next_prune)) [
    | inl early ↦ rw early keyed
    | inr late ↦ rw late (select-IsKeyed (is_live now) s.records keyed)
  ]

  next_owner-prune : (s : Idempotency O) → (prune_records ttls now s).next_owner ≡ s.next_owner
  unfolding prune_records
  next_owner-prune s = ground arith

  take_key-IsLocked :
      (key fingerprint : Text) (s : Idempotency O)
      → IsKeyed s.records
      → IsLocked key fingerprint s.next_owner
          (now + ttls.lock_ttl)
          (take_key ttls now key fingerprint s).0
  take_key-IsLocked key fingerprint s keyed =
      let stored : lookup key (insert key (new_run s.next_owner) s.runs)
          ≡ some (new_run s.next_owner) =
        lookup-insert key key (new_run s.next_owner) s.runs ∙ rw (beq_refl key) refl in
      record {
        entry = running ttls now fingerprint s.next_owner;
        holds = (
          (lookup-insert key key (running ttls now fingerprint s.next_owner) s.records
              ∙ rw (beq_refl key) refl),
          insert-IsKeyed key (running ttls now fingerprint s.next_owner) s.records keyed,
        );
        locked = refl;
        undone = refl;
        claimed_for = refl;
        lasts = omega arith;
        has_run = ap (is_run (new_run s.next_owner)) stored ∙ beq_refl s.next_owner;
      }

  -- Where each key is held once: a call that finds no live record of its key runs, under a new owner,
  -- and locks the key for its request's fingerprint as long as the lock lives.
  pub begin-IsLocked :
      (key fingerprint : Text) (s : Idempotency O)
      → IsKeyed s.records
      → keep (is_live now) (lookup key s.records) ≡ none
      → ((begin ttls now key fingerprint s).1 ≡ runs (new_run s.next_owner))
        × IsLocked key fingerprint s.next_owner
            (now + ttls.lock_ttl)
            (begin ttls now key fingerprint s).0
  unfolding begin claim_in_memory
  begin-IsLocked key fingerprint s keyed gone =
      let p = prune_records ttls now s in
      let taken =
        ap (begun key fingerprint) (
          claim_at-gone (lookup key p.records) key fingerprint p (gone-prune key s keyed ∙ gone)) in
      (
        ap (λ b. b.1) taken ∙ ap (λ n. runs (new_run n)) (next_owner-prune s),
        subst
            (λ n.
              IsLocked key fingerprint n (now + ttls.lock_ttl) (begin ttls now key fingerprint s).0)
            (next_owner-prune s)
            (subst (λ b. IsLocked key fingerprint p.next_owner (now + ttls.lock_ttl) b.0)
              (sym taken) (take_key-IsLocked key fingerprint p (prune-IsKeyed s keyed))),
      )
