-- ===== src/Middleware/Idempotency/Locks.antt =====
-- A call that runs under a key is the only one, as long as its lock lasts.
use fastapi_viewsets.Prelude.{
  ℕ, ◌+◌, ◌≤◌, ◌<◌, ◌≡◌, refl, Text, lookup, insert, IsKeyed, insert-IsKeyed, lookup-insert,
  list_eq, nat_eq, ◌==◌, beq-eq, nat_beq, lt→ltb, if◌then◌else◌, List, [], ◌∷◌, Option, none, some,
  Bool, true, false, ap, sym, ◌∙◌, arith, Bool-cases, inl, inr, subst,
}
use fastapi_viewsets.Middleware.Idempotency.{
  KeyRecord, Run, Idempotency, Ttls, prune_records, found, new_run, waits, key_reused, attach_at,
  answer_same, answer_found, begun, begin, is_owner, renew_in_memory, is_run, finish,
}
use fastapi_viewsets.Middleware.Idempotency.Pinned.{
  IsPinned, records-renew_own, renew_other-IsPinned, prune-IsPinned, runs-prune, claim-pinned,
  begin-IsPinned, renew-IsPinned, finish-IsPinned,
}
use fastapi_viewsets.Middleware.Idempotency.Runs.{
  HasRun, begin-HasRun, begun-HasRun, runs-renew, finish-HasRun,
}
use fastapi_viewsets.Middleware.Idempotency.Replays.{
  Event, call, renewal, ending, happen, happens, Holds,
}

-- The key is locked by the call that owns `owner`, at least until `until`, for requests of the
-- fingerprint.
pub record IsLocked {O : Type 0} (key fingerprint : Text) (owner until : ℕ) (s : Idempotency O)
    : Type 0 where
  pub entry : KeyRecord O
  pub holds : Holds key entry s
  pub locked : entry.owner ≡ some owner
  pub undone : entry.outcome ≡ none
  pub claimed_for : entry.fingerprint ≡ fingerprint
  pub lasts : until ≤ entry.expires_at
  pub has_run : HasRun key owner s

-- An event that is not the end of the call that owns `owner`.
abbrev pub IsOther : {O : Type 0} → ℕ → Event O → Type 0
IsOther owner (call key fingerprint) = Unit
IsOther owner (renewal key run) = Unit
IsOther owner (ending key run outcome safe) = nat_beq owner run.owner ≡ false

module _ {O : Type 0} (keeps : O → Bool) (ttls : Ttls) (key fingerprint : Text)
    (owner until : ℕ) where
  live_entry :
      (now : ℕ) (s : Idempotency O) (l : IsLocked key fingerprint owner until s)
      → now < until
      → IsPinned ttls now key l.entry s
  live_entry now s l early =
      (l.holds.0, (l.holds.1, lt→ltb now l.entry.expires_at (omega (arith, early, l.lasts))))

  -- A claim of a locked key finds the lock.
  begin-locked :
      (now : ℕ) (other_print : Text) (s : Idempotency O)
      (l : IsLocked key fingerprint owner until s)
      → now < until
      → begin ttls now key other_print s
        ≡ answer_found key other_print l.entry (prune_records ttls now s)
  unfolding begin
  begin-locked now other_print s l early =
      ap (begun key other_print)
        (claim-pinned ttls now key other_print l.entry s (live_entry now s l early))

  attached_run :
      (o : Option Run) (k : Text) (s : Idempotency O)
      → is_run (new_run owner) o ≡ true
      → ((attach_at o k s).1 ≡ waits) × ((attach_at o k s).0.records ≡ s.records)
  attached_run none k s h = ground arith
  attached_run (some run) k s h = (refl, refl)

  -- At a locked key a call changes no record but by pruning: it waits or is refused.
  answer_locked :
      (other_print : Text) (r : KeyRecord O) (s : Idempotency O)
      → r.outcome ≡ none
      → HasRun key owner s
      → ((answer_found key other_print r s).1
          ≡ (if r.fingerprint == other_print then waits else key_reused))
        × ((answer_found key other_print r s).0.records ≡ s.records)
  answer_locked other_print r s undone running = elim (Bool-cases (r.fingerprint == other_print)) [
    | inl alike ↦
        let same : answer_same r.outcome key s ≡ attach_at (lookup key s.runs) key s =
          ap (λ o. answer_same o key s) undone in
        let there = attached_run (lookup key s.runs) key s running in
        rw alike ((ap (λ b. b.1) same ∙ there.0), (ap (λ b. b.0.records) same ∙ there.1))
    | inr differ ↦ rw differ (refl, refl)
  ]

  pruned-HasRun :
      (now : ℕ) (s : Idempotency O)
      → HasRun key owner s
      → HasRun key owner (prune_records ttls now s)
  pruned-HasRun now s h =
      ap (λ rs. is_run (new_run owner) (lookup key rs)) (runs-prune ttls now s) ∙ h

  call-IsLocked :
      (now : ℕ) (k other_print : Text) (s : Idempotency O)
      → now < until
      → IsLocked key fingerprint owner until s
      → IsLocked key fingerprint owner until (begin ttls now k other_print s).0
  call-IsLocked now k other_print s early l = elim (Bool-cases (k == key)) [
    | inr differ ↦
        let p =
          begin-IsPinned ttls now key k other_print l.entry s differ (live_entry now s l early) in
        record {
          entry = l.entry;
          holds = (p.0, p.1.0);
          locked = l.locked;
          undone = l.undone;
          claimed_for = l.claimed_for;
          lasts = l.lasts;
          has_run = begin-HasRun ttls now key k other_print owner s differ l.has_run;
        }
    | inl alike ↦
        let pruned = prune_records ttls now s in
        let p = prune-IsPinned ttls now key l.entry s (live_entry now s l early) in
        let answer = answer_found key other_print l.entry pruned in
        let answered =
          answer_locked other_print l.entry pruned l.undone (pruned-HasRun now s l.has_run) in
        let same : (begin ttls now k other_print s).0 ≡ answer.0 =
          ap (λ j. (begin ttls now j other_print s).0) (beq-eq k key alike)
          ∙ ap (λ b. b.0) (begin-locked now other_print s l early) in
        subst (IsLocked key fingerprint owner until) (sym same) (record {
          entry = l.entry;
          holds = (
            ap (λ d. lookup key d) answered.1 ∙ p.0,
            subst (λ d. IsKeyed d) (sym answered.1) p.1.0,
          );
          locked = l.locked;
          undone = l.undone;
          claimed_for = l.claimed_for;
          lasts = l.lasts;
          has_run =
              begun-HasRun key key other_print owner pruned (found l.entry)
                (pruned-HasRun now s l.has_run);
        })
  ]

  ending-IsLocked :
      (now : ℕ) (k : Text) (run : Run) (outcome : Option O) (safe : Bool) (s : Idempotency O)
      → nat_beq owner run.owner ≡ false
      → now < until
      → IsLocked key fingerprint owner until s
      → IsLocked key fingerprint owner until (finish keeps ttls now k run outcome safe s)
  ending-IsLocked now k run outcome safe s foreign early l =
      let p =
        finish-IsPinned ttls now keeps key k run outcome safe l.entry s
          (ap (is_owner run.owner) l.locked ∙ foreign) (live_entry now s l early) in
      record {
        entry = l.entry;
        holds = (p.0, p.1.0);
        locked = l.locked;
        undone = l.undone;
        claimed_for = l.claimed_for;
        lasts = l.lasts;
        has_run = finish-HasRun keeps ttls now key k run outcome safe owner s foreign l.has_run;
      }

  renewal-IsLocked :
      (now : ℕ) (k : Text) (run : Run) (s : Idempotency O)
      → now < until
      → until ≤ now + ttls.lock_ttl
      → IsLocked key fingerprint owner until s
      → IsLocked key fingerprint owner until (renew_in_memory ttls now k run s).0
  renewal-IsLocked now k run s early lease l =
      let running =
        ap (λ rs. is_run (new_run owner) (lookup key rs)) (runs-renew ttls now k run s)
        ∙ l.has_run in
      let foreign_case : is_owner run.owner l.entry.owner ≡ false
          → IsLocked key fingerprint owner until (renew_in_memory ttls now k run s).0 =
        λ foreign.
          let p = renew-IsPinned ttls now key k run l.entry s foreign (live_entry now s l early) in
          record {
            entry = l.entry;
            holds = (p.0, p.1.0);
            locked = l.locked;
            undone = l.undone;
            claimed_for = l.claimed_for;
            lasts = l.lasts;
            has_run = running;
          } in
      elim (Bool-cases (k == key)) [
        | inr differ ↦
            let p =
              renew_other-IsPinned ttls now key k run l.entry s differ (live_entry now s l early) in
            record {
              entry = l.entry;
              holds = (p.0, p.1.0);
              locked = l.locked;
              undone = l.undone;
              claimed_for = l.claimed_for;
              lasts = l.lasts;
              has_run = running;
            }
        | inl alike ↦ elim (Bool-cases (is_owner run.owner l.entry.owner)) [
          | inr foreign ↦ foreign_case foreign
          | inl own ↦
              let held : lookup k s.records ≡ some l.entry =
                ap (λ j. lookup j s.records) (beq-eq k key alike) ∙ l.holds.0 in
              let renewed = record l.entry { expires_at = now + ttls.lock_ttl } in
              let records : (renew_in_memory ttls now k run s).0.records
                  ≡ insert k renewed s.records =
                records-renew_own ttls now k run l.entry s held own in
              let stored : lookup key (insert k renewed s.records) ≡ some renewed =
                lookup-insert k key renewed s.records ∙ rw alike refl in
              record {
                entry = renewed;
                holds = (
                  ap (λ d. lookup key d) records ∙ stored,
                  subst (λ d. IsKeyed d) (sym records)
                      (insert-IsKeyed k renewed s.records l.holds.1),
                );
                locked = l.locked;
                undone = l.undone;
                claimed_for = l.claimed_for;
                lasts = lease;
                has_run = running;
              }
        ]
      ]

  -- Times at which the lock lasts, and that its renewals carry it past `until`.
  abbrev pub IsDuring : List (ℕ × Event O) → Type 0
  IsDuring [] = Unit
  IsDuring ((now, event) ∷ events) =
      (now < until) × ((until ≤ now + ttls.lock_ttl) × (IsOther owner event × IsDuring events))

  happen-IsLocked :
      (now : ℕ) (event : Event O) (s : Idempotency O)
      → now < until
      → until ≤ now + ttls.lock_ttl
      → IsOther owner event
      → IsLocked key fingerprint owner until s
      → IsLocked key fingerprint owner until (happen keeps ttls now event s)
  happen-IsLocked now (call k other_print) s early lease other l =
      call-IsLocked now k other_print s early l
  happen-IsLocked now (renewal k run) s early lease other l =
      renewal-IsLocked now k run s early lease l
  happen-IsLocked now (ending k run outcome safe) s early lease other l =
      ending-IsLocked now k run outcome safe s other early l

  happens-IsLocked :
      (events : List (ℕ × Event O)) (s : Idempotency O)
      → IsDuring events
      → IsLocked key fingerprint owner until s
      → IsLocked key fingerprint owner until (happens keeps ttls events s)
  happens-IsLocked [] s during l = l
  happens-IsLocked ((now, event) ∷ events) s during l =
      happens-IsLocked events (happen keeps ttls now event s) during.1.1.1
        (happen-IsLocked now event s during.0 during.1.0 during.1.1.0 l)

  -- Where a call owns the lock of a key and the lock lasts until `until`: after any interleaving of
  -- other calls, of renewals and of the ends of other calls under any keys, at times before `until`
  -- from which a renewal reaches `until`, a call with that key runs nothing; it waits for the owner if
  -- its request has the lock's fingerprint, and is refused otherwise.
  pub begin-excluded :
      (events : List (ℕ × Event O)) (now : ℕ) (other_print : Text) (s : Idempotency O)
      → IsDuring events
      → now < until
      → IsLocked key fingerprint owner until s
      → (begin ttls now key other_print (happens keeps ttls events s)).1
        ≡ (if fingerprint == other_print then waits else key_reused)
  begin-excluded events now other_print s during early l =
      let s' = happens keeps ttls events s in
      let l' = happens-IsLocked events s during l in
      ap (λ b. b.1) (begin-locked now other_print s' l' early)
      ∙ (answer_locked other_print l'.entry (prune_records ttls now s') l'.undone
          (pruned-HasRun now s' l'.has_run)).0
      ∙ ap (λ f. if f == other_print then waits else key_reused) l'.claimed_for
