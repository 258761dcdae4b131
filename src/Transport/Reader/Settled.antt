-- ===== src/Transport/Reader/Settled.antt =====
-- A waiting call ends once, and with what its worker sent:
-- fastapi_viewsets/decorators/celery_viewset/result_reader.py.
use fastapi_viewsets.Prelude.{
  ℕ, Text, text, Dict, lookup, lookup-insert, lookup-erase, erase, list_eq, nat_eq, option_eq, ◌==◌,
  beq_refl, if◌then◌else◌, List, [], ◌∷◌, Option, none, some, ◌≡◌, refl, ap, ◌∙◌, arith, Bool-cases,
  inl, inr,
}
use fastapi_viewsets.Transport.Json
use fastapi_viewsets.Transport.Json.{Json, Members}
use fastapi_viewsets.Transport.Values.{Classes}
use fastapi_viewsets.Transport.Errors.{
  Error, http_exception, viewset_error, request_validation_error, other_error, error_to_jsonable,
  error_from_jsonable, Crosses, error_from_jsonable-error_to_jsonable,
}
use fastapi_viewsets.Transport.Reader.{
  Outcome, exception, reader_stopped, Pending, Reader, string_of, as_sent, payload_error,
  error_payload, is_done, settle, register_future, unregister_future, fail_one, fail_all,
  fail_pending_futures, or_failed, as_exception, payload_outcome, resolve, popped, read_for,
  read_payload,
}

-- What happens to a reader's calls: one is made or given up, an item is read, a queue's reader stops.
pub data Event (O : Type 0) : Type 0 where
  made : Text → ℕ → Option Text → Event O
  given_up : Text → Event O
  item_read : Classes O → Members → Event O
  stopped : Text → Event O

as_sent-Crosses : (task : Option Text) (error : Error) → Crosses error → as_sent task error ≡ error
as_sent-Crosses task (http_exception status_code detail headers) h = refl
as_sent-Crosses task (viewset_error class_ status_code detail code params headers) h = refl
as_sent-Crosses task (request_validation_error errors) h = refl
as_sent-Crosses task other_error h = absurd h

module _ {O : Type 0} where
  futures-settle :
      (f g : ℕ) (outcome o : Outcome O) (r : Reader O)
      → lookup f r.futures ≡ some o
      → lookup f (settle g outcome r).futures ≡ some o
  unfolding settle
  futures-settle f g outcome o r h =
      ground (arith, lookup-insert g f outcome r.futures, nat_eq.same_iff g f)

  futures-fail_one :
      (f : ℕ) (o : Outcome O) (queue_key correlation_id : Text) (p : Pending) (r : Reader O)
      → lookup f r.futures ≡ some o
      → lookup f (fail_one queue_key correlation_id p r).futures ≡ some o
  unfolding fail_one
  futures-fail_one f o queue_key correlation_id p r h =
      elim (Bool-cases (p.queue_key == some queue_key)) [
        | inl own ↦ rw own (
            futures-settle f p.future (exception (reader_stopped queue_key)) o
              (record r { pending = erase correlation_id r.pending }) h)
        | inr other ↦ rw other h
      ]

  pub futures-fail_all :
      (f : ℕ) (o : Outcome O) (queue_key : Text) (items : Dict Text Pending) (r : Reader O)
      → lookup f r.futures ≡ some o
      → lookup f (fail_all queue_key items r).futures ≡ some o
  unfolding fail_all
  futures-fail_all f o queue_key [] r h = h
  futures-fail_all f o queue_key ((c, p) ∷ items) r h =
      futures-fail_all f o queue_key items (fail_one queue_key c p r)
        (futures-fail_one f o queue_key c p r h)

  futures-popped :
      (classes : Classes O) (f : ℕ) (o : Outcome O) (c : Text) (found : Option Pending)
      (payload : Members) (r : Reader O)
      → lookup f r.futures ≡ some o
      → lookup f (popped classes c found payload r).futures ≡ some o
  unfolding resolve
  futures-popped classes f o c none payload r h = h
  futures-popped classes f o c (some p) payload r h =
      futures-settle f p.future
        (or_failed (string_of (Json.get (text "task") payload))
          (payload_outcome classes (Json.get (text "error") payload) payload))
        o (record r { pending = erase c r.pending }) h

  futures-read_for :
      (classes : Classes O) (f : ℕ) (o : Outcome O) (c : Option Text) (payload : Members)
      (r : Reader O)
      → lookup f r.futures ≡ some o
      → lookup f (read_for classes c payload r).futures ≡ some o
  futures-read_for classes f o none payload r h = h
  futures-read_for classes f o (some c) payload r h =
      futures-popped classes f o c (lookup c r.pending) payload r h

  unfoldable pub happen : Event O → Reader O → Reader O
  unfolding read_payload fail_pending_futures register_future unregister_future
  happen (made correlation_id future queue_key) r =
      register_future correlation_id future queue_key r
  happen (given_up correlation_id) r = unregister_future correlation_id r
  happen (item_read classes payload) r = read_payload classes payload r
  happen (stopped queue_key) r = fail_pending_futures queue_key r

  unfoldable pub run : List (Event O) → Reader O → Reader O
  unfolding happen
  run [] r = r
  run (event ∷ events) r = run events (happen event r)

  futures-happen :
      (event : Event O) (f : ℕ) (o : Outcome O) (r : Reader O)
      → lookup f r.futures ≡ some o
      → lookup f (happen event r).futures ≡ some o
  unfolding happen
  futures-happen (made correlation_id future queue_key) f o r h = h
  futures-happen (given_up correlation_id) f o r h = h
  futures-happen (item_read classes payload) f o r h =
      futures-read_for classes f o (string_of (Json.get (text "correlation_id") payload)) payload r
        h
  futures-happen (stopped queue_key) f o r h = futures-fail_all f o queue_key r.pending r h

  -- A call that has ended stays as it ended, whatever is made, given up, read or stopped after it.
  pub futures-run :
      (events : List (Event O)) (f : ℕ) (o : Outcome O) (r : Reader O)
      → lookup f r.futures ≡ some o
      → lookup f (run events r).futures ≡ some o
  unfolding run
  futures-run [] f o r h = h
  futures-run (event ∷ events) f o r h =
      futures-run events f o (happen event r) (futures-happen event f o r h)

  payload_outcome-error_payload :
      (classes : Classes O) (c : Text) (task : Option Text) (error : Error)
      → Crosses error
      → payload_outcome classes
          (Json.get (text "error") (error_payload c task error))
          (error_payload c task error)
        ≡ some (exception error)
  unfolding error_payload payload_error Json.get
  payload_outcome-error_payload classes c task error h =
      ap (λ e. as_exception (error_from_jsonable (error_to_jsonable e)))
        (as_sent-Crosses task error h)
      ∙ ap as_exception (error_from_jsonable-error_to_jsonable error h)

  settle-open :
      (f : ℕ) (outcome : Outcome O) (r : Reader O)
      → lookup f r.futures ≡ none
      → lookup f (settle f outcome r).futures ≡ some outcome
  unfolding settle
  settle-open f outcome r h = rw (h, lookup-insert f f outcome r.futures, beq_refl f) refl

  pub pending-settle :
      (f : ℕ) (outcome : Outcome O) (r : Reader O) → (settle f outcome r).pending ≡ r.pending
  unfolding settle
  pending-settle f outcome r = elim (Bool-cases (is_done (lookup f r.futures))) [
    | inl d ↦ rw d refl
    | inr d ↦ rw d refl
  ]

  popped-pending :
      (classes : Classes O) (c : Text) (p : Pending) (payload : Members) (error : Error)
      (r : Reader O)
      → payload_outcome classes (Json.get (text "error") payload) payload ≡ some (exception error)
      → lookup p.future r.futures ≡ none
      → (lookup p.future (popped classes c (some p) payload r).futures ≡ some (exception error))
        × (lookup c (popped classes c (some p) payload r).pending ≡ none)
  unfolding resolve
  popped-pending classes c p payload error r outcome open_ =
      let left = record r { pending = erase c r.pending } in
      let end =
        or_failed (string_of (Json.get (text "task") payload))
          (payload_outcome classes (Json.get (text "error") payload) payload) in
      (
        settle-open p.future end left open_
            ∙ ap (λ o. some (or_failed (string_of (Json.get (text "task") payload)) o)) outcome,
        ap (lookup c) (pending-settle p.future end left)
            ∙ lookup-erase c c r.pending
            ∙ ap (λ b. if b then none else lookup c r.pending) (beq_refl c),
      )

  read_payload-popped :
      (classes : Classes O) (c : Text) (task : Option Text) (error : Error) (r : Reader O)
      → read_payload classes (error_payload c task error) r
        ≡ popped classes c (lookup c r.pending) (error_payload c task error) r
  unfolding read_payload error_payload Json.get
  read_payload-popped classes c task error r = refl

  -- An error that crosses whole reaches the call that waits for it, and whose future is not done yet, as it
  -- was sent, and the call no longer waits.
  pub read_payload-error_payload :
      (classes : Classes O) (c : Text) (task : Option Text) (error : Error) (p : Pending)
      (r : Reader O)
      → Crosses error
      → lookup c r.pending ≡ some p
      → lookup p.future r.futures ≡ none
      → (lookup p.future (read_payload classes (error_payload c task error) r).futures
          ≡ some (exception error))
        × (lookup c (read_payload classes (error_payload c task error) r).pending ≡ none)
  read_payload-error_payload classes c task error p r crosses waits open_ =
      let outcome = payload_outcome-error_payload classes c task error crosses in
      let there =
        read_payload-popped classes c task error r
        ∙ ap (λ found. popped classes c found (error_payload c task error) r) waits in
      let ended = popped-pending classes c p (error_payload c task error) error r outcome open_ in
      (
        ap (λ q. lookup p.future q.futures) there ∙ ended.0,
        ap (λ q. lookup c q.pending) there ∙ ended.1,
      )
