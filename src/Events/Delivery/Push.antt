-- ===== src/Events/Delivery/Push.antt =====
-- fastapi_viewsets/events/delivery.py: the push of one event to one subscription (`_push`), with its
-- reauthorization, its filters and its failures. Each await is answered by a parameter.
use fastapi_viewsets.Prelude.{
  ℕ, ◌+◌, Text, list_eq, nat_eq, ◌==◌, beq-eq, leb, ltb, nat_beq, if◌then◌else◌, List, [], ◌∷◌,
  Option, none, some, Bool, true, false, ◌&&◌, not, ◌≡◌, refl, ◌⊎◌, inl, inr, arith, ap, sym,
  Bool-cases,
}
use fastapi_viewsets.Events.Delivery.{
  Subscription, Registry, Reauthorization, answered, refused, failed, reauthorized, drop_peer,
  store_topic_of,
}
use fastapi_viewsets.Events.Delivery.Consistent.{IsConsistent}
use fastapi_viewsets.Events.Delivery.Calls.{reauthorized-IsConsistent, IsIdentity}
use fastapi_viewsets.Events.Delivery.Drops.{drop_peer-IsConsistent}

-- What a delivery filter comes to.
pub data FilterResult : Type 0 where
  is_false other_answer raised : FilterResult

-- `passes_filters`
unfoldable pub passes_filters : List FilterResult → Bool
passes_filters [] = true
passes_filters (is_false ∷ filters) = false
passes_filters (other_answer ∷ filters) = passes_filters filters
passes_filters (raised ∷ filters) = passes_filters filters

-- What `await subscription.reauthorize()` comes to: a store topic, an `HTTPException` with its status, or
-- another exception.
pub data Attempt : Type 0 where
  returned : Text → Attempt
  http_error : ℕ → Attempt
  other_error : Attempt

-- `_is_refusal`
unfoldable pub is_refusal : Attempt → Bool
is_refusal (http_error status) = leb 400 status && ltb status 500 && not (nat_beq status 429)
is_refusal (returned topic) = false
is_refusal other_error = false

abbrev pub outcome_of : Attempt → Reauthorization
outcome_of (returned topic) = answered topic
outcome_of (http_error status) = if is_refusal (http_error status) then refused else failed
outcome_of other_error = failed

-- The event as it is pushed: its headers and its payload.
pub record Frame (P : Type 0) : Type 0 where
  pub event : Text
  pub version : ℕ
  pub topic : Text
  pub rev : ℕ
  pub prev : ℕ
  pub scope : Option Text
  pub payload : P

-- What `peer.notify` comes to: sent, `ConnectionLost`, or another exception or the timeout.
pub data Notified : Type 0 where
  sent connection_lost failed_otherwise : Notified

frame_or : {P : Type 0} → Frame P → Option (Frame P) → Frame P
frame_or frame none = frame
frame_or frame (some out) = out

module _ {C : Type 0} where
  -- `_needs_reauthorization`; `after` is `settings.viewsets_event_reauthorize_after`
  unfoldable pub needs_reauthorization : Option ℕ → ℕ → Subscription C → Bool
  needs_reauthorization none now s = false
  needs_reauthorization (some after) now s = s.reauthorize && leb (s.authorized_at + after) now

  -- What a frame that goes out proves of the reauthorization.
  reauthorized_ok :
      (attempt : Attempt) (s : Subscription C) (now : ℕ) (r : Registry C)
      → (reauthorized (outcome_of attempt) s now r).1 ≡ true
      → attempt ≡ returned (store_topic_of s)
  unfolding reauthorized
  reauthorized_ok (returned topic) s now r h = elim (Bool-cases (topic == store_topic_of s)) [
    | inl same ↦ ap returned (beq-eq topic (store_topic_of s) same)
    | inr differ ↦ absurd (ground arith)
  ]
  reauthorized_ok (http_error status) s now r h = absurd (ground arith)
  reauthorized_ok other_error s now r h = absurd (ground arith)

  module _ {P : Type 0} where
    abbrev pub frame_of : Text → ℕ → ℕ → ℕ → P → Subscription C → Frame P
    frame_of name version rev prev payload s = record {
      event = name;
      version = version;
      topic = s.topic;
      rev = rev;
      prev = prev;
      scope = s.scope;
      payload = payload;
    }

    -- `peer.notify`, and what its failure does
    abbrev pub notified :
        Notified → Frame P → Subscription C → Registry C → Registry C × Option (Frame P)
    notified sent frame s r = (r, some frame)
    notified connection_lost frame s r = (drop_peer s.peer r, none)
    notified failed_otherwise frame s r = (r, none)

    abbrev pub filtered :
        List FilterResult
        → Notified
        → Frame P
        → Subscription C
        → Registry C
        → Registry C × Option (Frame P)
    filtered filters outcome frame s r =
        let there = notified outcome frame s r in
        if passes_filters filters then there else (r, none)

    abbrev pub allowed :
        List FilterResult
        → Notified
        → Frame P
        → Subscription C
        → Registry C × Bool
        → Registry C × Option (Frame P)
    allowed filters outcome frame s (r, false) = (r, none)
    allowed filters outcome frame s (r, true) = filtered filters outcome frame s r

    -- `_push`: `later` is the reading of the clock after the reauthorization
    unfoldable pub push :
        Option ℕ
        → ℕ
        → ℕ
        → Attempt
        → List FilterResult
        → Notified
        → Text
        → ℕ
        → ℕ
        → ℕ
        → P
        → Subscription C
        → Registry C
        → Registry C × Option (Frame P)
    unfolding needs_reauthorization passes_filters
    push after now later attempt filters outcome name version rev prev payload s r =
        allowed filters outcome (frame_of name version rev prev payload s) s (
          if needs_reauthorization after now s
          then reauthorized (outcome_of attempt) s later r
          else (r, true))

    allowed-some :
        (filters : List FilterResult) (outcome : Notified) (frame : Frame P) (s : Subscription C)
        (a : Registry C × Bool) {out : Frame P}
        → (allowed filters outcome frame s a).1 ≡ some out
        → (a.1 ≡ true) × ((passes_filters filters ≡ true) × (out ≡ frame))
    unfolding frame_or
    allowed-some filters outcome frame s (r, false) h = absurd (ground arith)
    allowed-some filters sent frame s (r, true) h = elim (Bool-cases (passes_filters filters)) [
      | inl pass ↦ (refl, (pass, sym (ap (frame_or frame) (rw pass at h))))
      | inr block ↦ absurd (ground arith)
    ]
    allowed-some filters connection_lost frame s (r, true) h = absurd (ground arith)
    allowed-some filters failed_otherwise frame s (r, true) h = absurd (ground arith)

    -- An event reaches a socket only as the subscription's own frame, after every delivery filter let it
    -- pass, and, where the subscription's authorization is due for renewal, after its reauthorization
    -- answered the store topic that the subscription delivers.
    pub push_reaches :
        (after : Option ℕ) (now later : ℕ) (attempt : Attempt) (filters : List FilterResult)
        (outcome : Notified) (name : Text) (version rev prev : ℕ) (payload : P) (out : Frame P)
        (s : Subscription C) (r : Registry C)
        → (push after now later attempt filters outcome name version rev prev payload s r).1
          ≡ some out
        → (out ≡ frame_of name version rev prev payload s)
          × ((passes_filters filters ≡ true)
              × ((needs_reauthorization after now s ≡ false)
                  ⊎ (attempt ≡ returned (store_topic_of s))))
    unfolding push
    push_reaches after now later attempt filters outcome name version rev prev payload out s r h =
        let frame = frame_of name version rev prev payload s in
        elim (Bool-cases (needs_reauthorization after now s)) [
          | inr fresh ↦
              let facts = allowed-some filters outcome frame s (r, true) (rw fresh at h) in
              (facts.1.1, (facts.1.0, inl fresh))
          | inl due ↦
              let facts =
                allowed-some filters outcome frame s (reauthorized (outcome_of attempt) s later r)
                  (rw due at h) in
              (facts.1.1, (facts.1.0, inr (reauthorized_ok attempt s later r facts.0)))
        ]

    notified-IsConsistent :
        (outcome : Notified) (frame : Frame P) (s : Subscription C) (r : Registry C)
        → IsConsistent r
        → IsConsistent (notified outcome frame s r).0
    notified-IsConsistent sent frame s r h = h
    notified-IsConsistent connection_lost frame s r h = drop_peer-IsConsistent s.peer r h
    notified-IsConsistent failed_otherwise frame s r h = h

    allowed-IsConsistent :
        (filters : List FilterResult) (outcome : Notified) (frame : Frame P) (s : Subscription C)
        (a : Registry C × Bool)
        → IsConsistent a.0
        → IsConsistent (allowed filters outcome frame s a).0
    allowed-IsConsistent filters outcome frame s (r, false) h = h
    allowed-IsConsistent filters outcome frame s (r, true) h =
        elim (Bool-cases (passes_filters filters)) [
          | inl pass ↦ rw pass (notified-IsConsistent outcome frame s r h)
          | inr block ↦ rw block h
        ]

    -- After a push, whatever its reauthorization, its filters and its notification came to, each store
    -- topic lists exactly the held subscriptions that it delivers to, if it did before and the object
    -- of the identity of `s` that the socket may hold is `s`.
    pub push-IsConsistent :
        (after : Option ℕ) (now later : ℕ) (attempt : Attempt) (filters : List FilterResult)
        (outcome : Notified) (name : Text) (version rev prev : ℕ) (payload : P) (s : Subscription C)
        (r : Registry C)
        → IsConsistent r
        → IsIdentity s r
        → IsConsistent
            (push after now later attempt filters outcome name version rev prev payload s r).0
    unfolding push
    push-IsConsistent after now later attempt filters outcome name version rev prev payload s r
          consistent same =
        let frame = frame_of name version rev prev payload s in
        elim (Bool-cases (needs_reauthorization after now s)) [
          | inr fresh ↦ rw fresh (allowed-IsConsistent filters outcome frame s (r, true) consistent)
          | inl due ↦ rw due (
              allowed-IsConsistent filters outcome frame s
                (reauthorized (outcome_of attempt) s later r)
                (reauthorized-IsConsistent (outcome_of attempt) s later r consistent same))
        ]
