-- ===== src/Transport/Reader/Stopping.antt =====
-- No call waits for a reader that has stopped: `_fail_pending_futures` of
-- fastapi_viewsets/decorators/celery_viewset/result_reader.py.
use fastapi_viewsets.Prelude.{
  ℕ, Text, Dict, lookup, lookup-insert, lookup-erase, erase, IsKeyed, list_eq, nat_eq, option_eq,
  ◌==◌, beq_refl, beq-eq, if◌then◌else◌, [], ◌∷◌, Option, none, some, Bool, true, false, not, ◌||◌,
  ◌≡◌, refl, ap, ◌∙◌, sym, subst, arith, Bool-cases, inl, inr,
}
use fastapi_viewsets.Transport.Reader.{
  Outcome, exception, reader_stopped, Pending, Reader, is_done, settle, fail_one, fail_all,
  fail_pending_futures,
}
use fastapi_viewsets.Transport.Reader.Settled.{pending-settle, futures-fail_all}

-- Whether a call waits for the reader of a queue.
abbrev pub waits_for : Text → Pending → Bool
waits_for queue_key p = p.queue_key == some queue_key

same_pending :
    (c d : Text) (p q : Pending) (items : Dict Text Pending)
    → (d == c) ≡ true
    → lookup c ((d, q) ∷ items) ≡ some p
    → q ≡ p
unfolding lookup
same_pending c d p q items hit h = ground (arith, hit, h)

module _ {O : Type 0} where
  -- A future that is done, whatever it is done with.
  abbrev pub IsDone : ℕ → Reader O → Type 0
  IsDone f r = is_done (lookup f r.futures) ≡ true

  settle-IsDone : (f : ℕ) (outcome : Outcome O) (r : Reader O) → IsDone f (settle f outcome r)
  unfolding settle
  settle-IsDone f outcome r = elim (Bool-cases (is_done (lookup f r.futures))) [
    | inl d ↦ rw d d
    | inr d ↦ rw (d, lookup-insert f f outcome r.futures, beq_refl f) refl
  ]

  fail_all-IsDone :
      (f : ℕ) (queue_key : Text) (items : Dict Text Pending) (r : Reader O)
      → IsDone f r
      → IsDone f (fail_all queue_key items r)
  fail_all-IsDone f queue_key items r h = at (lookup f r.futures) refl h
    where
      at :
          (found : Option (Outcome O))
          → lookup f r.futures ≡ found
          → is_done found ≡ true
          → IsDone f (fail_all queue_key items r)
      at none e h = ground (arith, h)
      at (some o) e h = ap is_done (futures-fail_all f o queue_key items r e)

  pending-fail_one :
      (c : Text) (queue_key correlation_id : Text) (p : Pending) (r : Reader O)
      → lookup c (fail_one queue_key correlation_id p r).pending ≡ (
          if waits_for queue_key p
          then (if correlation_id == c then none else lookup c r.pending)
          else lookup c r.pending)
  unfolding fail_one
  pending-fail_one c queue_key correlation_id p r = elim (Bool-cases (waits_for queue_key p)) [
    | inl own ↦ rw own (
        ap (lookup c) (
          pending-settle p.future (exception (reader_stopped queue_key))
            (record r { pending = erase correlation_id r.pending }))
        ∙ lookup-erase correlation_id c r.pending)
    | inr other ↦ rw other refl
  ]

  gone-fail_one :
      (c queue_key d : Text) (q : Pending) (r : Reader O)
      → (d == c) ≡ true
      → waits_for queue_key q ≡ true
      → lookup c (fail_one queue_key d q r).pending ≡ none
  gone-fail_one c queue_key d q r hit own = ground (arith, pending-fail_one c queue_key d q r)

  fail_one-IsDone :
      (queue_key d : Text) (q : Pending) (r : Reader O)
      → waits_for queue_key q ≡ true
      → IsDone q.future (fail_one queue_key d q r)
  unfolding fail_one
  fail_one-IsDone queue_key d q r own = rw own (
      settle-IsDone q.future (exception (reader_stopped queue_key))
        (record r { pending = erase d r.pending }))

  gone-fail_all :
      (c queue_key : Text) (items : Dict Text Pending) (r : Reader O)
      → lookup c r.pending ≡ none
      → lookup c (fail_all queue_key items r).pending ≡ none
  unfolding fail_all
  gone-fail_all c queue_key [] r h = h
  gone-fail_all c queue_key ((d, p) ∷ items) r h =
      gone-fail_all c queue_key items (fail_one queue_key d p r)
        (ground (arith, pending-fail_one c queue_key d p r))

  left-fail_all :
      (c queue_key : Text) (items : Dict Text Pending) (r : Reader O)
      → lookup c items ≡ none
      → lookup c (fail_all queue_key items r).pending ≡ lookup c r.pending
  unfolding fail_all lookup
  left-fail_all c queue_key [] r h = refl
  left-fail_all c queue_key ((d, p) ∷ items) r h =
      left-fail_all c queue_key items (fail_one queue_key d p r) (ground arith)
      ∙ ground (arith, pending-fail_one c queue_key d p r)

  ended-fail_all :
      (c queue_key : Text) (p : Pending) (items : Dict Text Pending) (r : Reader O)
      → lookup c items ≡ some p
      → waits_for queue_key p ≡ true
      → (lookup c (fail_all queue_key items r).pending ≡ none)
        × IsDone p.future (fail_all queue_key items r)
  unfolding fail_all lookup
  ended-fail_all c queue_key p [] r h own = (ground arith, ground arith)
  ended-fail_all c queue_key p ((d, q) ∷ items) r h own = elim (Bool-cases (d == c)) [
    | inl hit ↦ (
      gone-fail_all c queue_key items (fail_one queue_key d q r) (
          gone-fail_one c queue_key d q r hit
            (ap (waits_for queue_key) (same_pending c d p q items hit h) ∙ own)),
      subst (λ v. IsDone v.future (fail_all queue_key items (fail_one queue_key d q r)))
          (same_pending c d p q items hit h)
          (fail_all-IsDone q.future queue_key items (fail_one queue_key d q r) (
            fail_one-IsDone queue_key d q r
              (ap (waits_for queue_key) (same_pending c d p q items hit h) ∙ own))),
    )
    | inr miss ↦ ended-fail_all c queue_key p items (fail_one queue_key d q r) (ground arith) own
  ]

  kept-fail_all :
      (c queue_key : Text) (p : Pending) (items : Dict Text Pending) (r : Reader O)
      → IsKeyed items
      → lookup c items ≡ some p
      → waits_for queue_key p ≡ false
      → lookup c (fail_all queue_key items r).pending ≡ lookup c r.pending
  unfolding fail_all lookup
  kept-fail_all c queue_key p [] r keyed h other = ground arith
  kept-fail_all c queue_key p ((d, q) ∷ items) r keyed h other = elim (Bool-cases (d == c)) [
    | inl hit ↦
        left-fail_all c queue_key items (fail_one queue_key d q r)
          (ap (λ k. lookup k items) (sym (beq-eq d c hit)) ∙ keyed.0)
        ∙ pending-fail_one c queue_key d q r
        ∙ ap (λ b. if b then (if d == c then none else lookup c r.pending) else lookup c r.pending)
            (ap (waits_for queue_key) (same_pending c d p q items hit h) ∙ other)
    | inr miss ↦
        kept-fail_all c queue_key p items (fail_one queue_key d q r) keyed.1 (ground arith) other
        ∙ ground (arith, pending-fail_one c queue_key d q r)
  ]

  -- When a queue's reader stops, a call that waits for it is done and waits no longer, and a call that waits
  -- for another reader, or for none, waits on; where no correlation id is pending twice.
  pub fail_pending_futures-ends :
      (c queue_key : Text) (p : Pending) (r : Reader O)
      → IsKeyed r.pending
      → lookup c r.pending ≡ some p
      → (lookup c (fail_pending_futures queue_key r).pending
          ≡ (if waits_for queue_key p then none else some p))
        × ((not (waits_for queue_key p)
              || is_done (lookup p.future (fail_pending_futures queue_key r).futures))
            ≡ true)
  unfolding fail_pending_futures
  fail_pending_futures-ends c queue_key p r keyed h = elim (Bool-cases (waits_for queue_key p)) [
    | inl own ↦ rw own (ended-fail_all c queue_key p r.pending r h own)
    | inr other ↦ rw other (kept-fail_all c queue_key p r.pending r keyed h other ∙ h, refl)
  ]
