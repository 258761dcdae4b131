-- ===== src/Middleware/Idempotency/Runs.antt =====
-- The running calls of an instance through each operation of the idempotency middleware.
use fastapi_viewsets.Prelude.{
  ℕ, ◌+◌, ◌≡◌, refl, Text, lookup, insert, erase, lookup-insert, lookup-erase, list_eq, nat_eq,
  ◌==◌, beq-eq, nat_beq, Option, none, some, Bool, true, false, ap, sym, ◌∙◌, arith, Bool-cases,
  inl, inr, subst,
}
use fastapi_viewsets.Middleware.Idempotency.{
  KeyRecord, Run, Idempotency, Ttls, Mode, prune_records, Claimed, claimed, found, new_run,
  take_key, claim_at, claim_in_memory, attach_at, answer_same, begun, begin, renewed_at,
  renew_in_memory, finished_at, finish_in_memory, recorded, is_run, forget_run, finish, is_live,
}
use fastapi_viewsets.Middleware.Idempotency.Pinned.{runs-prune}

one_owner :
    (o : Option Run) (run : Run) (owner : ℕ)
    → is_run run o ≡ true
    → is_run (new_run owner) o ≡ true
    → nat_beq owner run.owner ≡ true
one_owner none run owner h k = ground arith
one_owner (some held) run owner h k = ground arith

module _ {O : Type 0} where
  -- The call that owns `owner` is among the running calls, under its key.
  abbrev pub HasRun : Text → ℕ → Idempotency O → Type 0
  HasRun key owner s = is_run (new_run owner) (lookup key s.runs) ≡ true

  take_key-HasRun :
      (ttls : Ttls) (now : ℕ) (key other fingerprint : Text) (owner : ℕ) (s : Idempotency O)
      → (other == key) ≡ false
      → HasRun key owner s
      → HasRun key owner (take_key ttls now other fingerprint s).0
  take_key-HasRun ttls now key other fingerprint owner s differ h =
      ap (is_run (new_run owner))
        (lookup-insert other key (new_run s.next_owner) s.runs ∙ rw differ refl)
      ∙ h

  claim_at-HasRun :
      (o : Option (KeyRecord O)) (ttls : Ttls) (now : ℕ) (key other fingerprint : Text) (owner : ℕ)
      (s : Idempotency O)
      → (other == key) ≡ false
      → HasRun key owner s
      → HasRun key owner (claim_at o ttls now other fingerprint s).0
  claim_at-HasRun none ttls now key other fingerprint owner s differ h =
      take_key-HasRun ttls now key other fingerprint owner s differ h
  claim_at-HasRun (some q) ttls now key other fingerprint owner s differ h =
      elim (Bool-cases (is_live now q)) [
        | inl lives ↦ rw lives h
        | inr dead ↦ rw dead (take_key-HasRun ttls now key other fingerprint owner s differ h)
      ]

  attach_at-HasRun :
      (o : Option Run) (key other : Text) (owner : ℕ) (s : Idempotency O)
      → lookup other s.runs ≡ o
      → HasRun key owner s
      → HasRun key owner (attach_at o other s).0
  attach_at-HasRun none key other owner s e h = h
  attach_at-HasRun (some run) key other owner s e h = elim (Bool-cases (other == key)) [
    | inl alike ↦
        let marked = record run { attached = true } in
        let held : lookup key s.runs ≡ some run =
          subst (λ k. lookup k s.runs ≡ some run) (beq-eq other key alike) e in
        let mine : nat_beq run.owner owner ≡ true = ap (is_run (new_run owner)) (sym held) ∙ h in
        let stored : lookup key (insert other marked s.runs) ≡ some marked =
          lookup-insert other key marked s.runs ∙ rw alike refl in
        ap (is_run (new_run owner)) stored ∙ mine
    | inr differ ↦
        let marked = record run { attached = true } in
        let kept : lookup key (insert other marked s.runs) ≡ lookup key s.runs =
          lookup-insert other key marked s.runs ∙ rw differ refl in
        ap (is_run (new_run owner)) kept ∙ h
  ]

  answer_same-HasRun :
      (o : Option O) (key other : Text) (owner : ℕ) (s : Idempotency O)
      → HasRun key owner s
      → HasRun key owner (answer_same o other s).0
  answer_same-HasRun none key other owner s h =
      attach_at-HasRun (lookup other s.runs) key other owner s refl h
  answer_same-HasRun (some outcome) key other owner s h = h

  pub begun-HasRun :
      (key other fingerprint : Text) (owner : ℕ) (s : Idempotency O) (c : Claimed O)
      → HasRun key owner s
      → HasRun key owner (begun other fingerprint (s, c)).0
  begun-HasRun key other fingerprint owner s (claimed run) h = h
  begun-HasRun key other fingerprint owner s (found q) h =
      elim (Bool-cases (q.fingerprint == fingerprint)) [
        | inl alike ↦ rw alike (answer_same-HasRun q.outcome key other owner s h)
        | inr differ ↦ rw differ h
      ]

  pub begin-HasRun :
      (ttls : Ttls) (now : ℕ) (key other fingerprint : Text) (owner : ℕ) (s : Idempotency O)
      → (other == key) ≡ false
      → HasRun key owner s
      → HasRun key owner (begin ttls now other fingerprint s).0
  unfolding begin claim_in_memory
  begin-HasRun ttls now key other fingerprint owner s differ h =
      let p = prune_records ttls now s in
      let c = claim_at (lookup other p.records) ttls now other fingerprint p in
      begun-HasRun key other fingerprint owner c.0 c.1 (
        claim_at-HasRun (lookup other p.records) ttls now key other fingerprint owner p differ
          (ap (λ rs. is_run (new_run owner) (lookup key rs)) (runs-prune ttls now s) ∙ h))

  runs-renewed_at :
      (o : Option (KeyRecord O)) (e : ℕ) (key : Text) (s : Idempotency O)
      → (renewed_at o e key s).runs ≡ s.runs
  runs-renewed_at none e key s = refl
  runs-renewed_at (some q) e key s = refl

  pub runs-renew :
      (ttls : Ttls) (now : ℕ) (key : Text) (run : Run) (s : Idempotency O)
      → (renew_in_memory ttls now key run s).0.runs ≡ s.runs
  unfolding renew_in_memory
  runs-renew ttls now key run s =
      ground (arith, runs-renewed_at (lookup key s.records) (now + ttls.lock_ttl) key s)

  runs-finished_at :
      (o : Option (KeyRecord O)) (ttls : Ttls) (now : ℕ) (key : Text) (run : Run)
      (outcome : Option O) (mode : Mode) (s : Idempotency O)
      → (finished_at o ttls now key run outcome mode s).runs ≡ s.runs
  runs-finished_at none ttls now key run outcome mode s = refl
  runs-finished_at (some q) ttls now key run outcome mode s = ground arith

  runs-finish :
      (ttls : Ttls) (now : ℕ) (key : Text) (run : Run) (outcome : Option O) (mode : Mode)
      (s : Idempotency O)
      → (finish_in_memory ttls now key run outcome mode s).runs ≡ s.runs
  unfolding finish_in_memory
  runs-finish ttls now key run outcome mode s =
      ground (arith, runs-finished_at (lookup key s.records) ttls now key run outcome mode s)

  forget_run-HasRun :
      (key other : Text) (run : Run) (owner : ℕ) (s : Idempotency O)
      → nat_beq owner run.owner ≡ false
      → HasRun key owner s
      → HasRun key owner (forget_run other run s)
  unfolding forget_run
  forget_run-HasRun key other run owner s foreign h =
      elim (Bool-cases (is_run run (lookup other s.runs))) [
        | inr not_mine ↦ rw not_mine h
        | inl mine ↦ elim (Bool-cases (other == key)) [
          | inl alike ↦
              let same : nat_beq owner run.owner ≡ true =
                one_owner (lookup key s.runs) run owner
                  (subst (λ k. is_run run (lookup k s.runs) ≡ true) (beq-eq other key alike) mine)
                  h in
              absurd (ground (arith, same, foreign))
          | inr differ ↦
              let kept : lookup key (erase other s.runs) ≡ lookup key s.runs =
                lookup-erase other key s.runs ∙ rw differ refl in
              rw mine (ap (is_run (new_run owner)) kept ∙ h)
        ]
      ]

  pub finish-HasRun :
      (keeps : O → Bool) (ttls : Ttls) (now : ℕ) (key other : Text) (run : Run) (outcome : Option O)
      (safe : Bool) (owner : ℕ) (s : Idempotency O)
      → nat_beq owner run.owner ≡ false
      → HasRun key owner s
      → HasRun key owner (finish keeps ttls now other run outcome safe s)
  unfolding finish
  finish-HasRun keeps ttls now key other run outcome safe owner s foreign h =
      let what = recorded keeps safe outcome in
      forget_run-HasRun key other run owner (finish_in_memory ttls now other run what.1 what.0 s)
        foreign
        (ap (λ rs. is_run (new_run owner) (lookup key rs))
            (runs-finish ttls now other run what.1 what.0 s)
          ∙ h)
