-- ===== src/Events/Polling.antt =====
-- `poll` of fastapi_viewsets/events/viewset.py: the admission of each cursor's topic, and the answer from
-- the store for an admitted one. `C` is the type of contexts, `P` of payloads.
pub mod Answers
pub mod Chained
pub mod Covered
pub mod Order
pub mod Examples
use fastapi_viewsets.Prelude.{
  ℕ, max, Text, Dict, lookup, insert, list_eq, nat_eq, ◌==◌, length, ltb, leb, nat_beq,
  if◌then◌else◌, List, [], ◌∷◌, ◌++◌, Option, none, some, Bool, true, false, ◌&&◌, ◌||◌, not, map,
}
use fastapi_viewsets.Events.Topics.{is_valid_topic}
use fastapi_viewsets.Events.Delivery.{Registry, unsubscribe}
use fastapi_viewsets.Events.Delivery.Push.{Attempt, http_error, other_error, is_refusal}
use fastapi_viewsets.Events.Authorizers.{
  Decision, Gated, ok, topic_refused, scope_missing, raised, authorize_topic,
}

-- `ResolvedTopic`
pub record ResolvedTopic : Type 0 where
  pub topic : Text
  pub store_topic : Text
  pub scope : Option Text

-- The errors that an answer shows: those of the package, or the `HTTPException` of a check with its status.
pub data GateError : Type 0 where
  event_topic_invalid event_topic_refused event_scope_missing : GateError
  http_exception : ℕ → GateError

-- A check's exception: an `HTTPException` with its status, or another.
abbrev pub Raised : Type 0
Raised = Attempt

pub record PolledEvent (P : Type 0) : Type 0 where
  pub rev : ℕ
  pub prev : ℕ
  pub event : Text
  pub version : ℕ
  pub payload : P

pub record TopicAnswer (P : Type 0) : Type 0 where
  pub rev : Option ℕ
  pub events : Option (List (PolledEvent P))
  pub error : Option GateError
  pub status : Option ℕ
  pub scope : Option Text

-- What a poll comes to: its answer, `EventCursorsExceededError`, or an exception that is no `HTTPException`.
pub data Polled (P : Type 0) : Type 0 where
  answered : Dict Text (TopicAnswer P) → Polled P
  cursors_exceeded : ℕ → ℕ → Polled P
  propagated : Polled P

-- A call's request: the authorizers of the settings at it, `resolve_topic` at it, the socket it came on.
pub record Caller : Type 0 where
  pub authorizers : List (Text → Decision Raised)
  pub resolve_topic : Text → Gated Raised ResolvedTopic
  pub peer : Option ℕ

abbrev pub and_then :
    Gated Raised (Unit {0}) → Gated Raised ResolvedTopic → Gated Raised ResolvedTopic
and_then (ok _) later = later
and_then topic_refused later = topic_refused
and_then scope_missing later = scope_missing
and_then (raised error) later = raised error

-- `authorize_topic`, then `resolve_topic`
unfoldable pub admission : Caller → Text → Gated Raised ResolvedTopic
admission caller topic =
    and_then (authorize_topic caller.authorizers topic) (caller.resolve_topic topic)

-- `status_code`
abbrev pub status_of : GateError → ℕ
status_of event_topic_invalid = 422
status_of event_topic_refused = 403
status_of event_scope_missing = 403
status_of (http_exception status) = status

module _ {P : Type 0} where
  abbrev pub refusal : GateError → TopicAnswer P
  refusal error = record {
    rev = none;
    events = none;
    error = some error;
    status = some (status_of error);
    scope = none;
  }

-- The first loop's state: the answers so far, the admitted topics, and the subscriptions.
pub record Admission (C P : Type 0) : Type 0 where
  pub answers : Dict Text (TopicAnswer P)
  pub admitted : List ResolvedTopic
  pub registry : Registry C

-- Where the loop stands: it goes on, or an exception that is no `HTTPException` has left it.
pub data Admitted (C P : Type 0) : Type 0 where
  going stopped : Admission C P → Admitted C P

module _ {C P : Type 0} where
  -- `except HTTPException as error`
  unfoldable pub refused_at : Option ℕ → Text → GateError → Admission C P → Admission C P
  refused_at peer topic error s = record s {
    answers = insert topic (refusal error) s.answers;
    registry = elim peer [
      | none ↦ s.registry
      | some key ↦
          if is_refusal (http_error (status_of error))
          then unsubscribe key topic s.registry
          else s.registry
    ];
  }

  abbrev pub admitted_at :
      Option ℕ → Text → Gated Raised ResolvedTopic → Admission C P → Admitted C P
  admitted_at peer topic (ok resolved) s =
      going (record s { admitted = s.admitted ++ resolved ∷ [] })
  admitted_at peer topic topic_refused s = going (refused_at peer topic event_topic_refused s)
  admitted_at peer topic scope_missing s = going (refused_at peer topic event_scope_missing s)
  admitted_at peer topic (raised (http_error status)) s =
      going (refused_at peer topic (http_exception status) s)
  admitted_at peer topic (raised other) s = stopped s

  -- one turn of the first loop
  unfoldable pub admit_one : Caller → Text → Admission C P → Admitted C P
  unfolding admission
  admit_one caller topic s =
      if is_valid_topic topic
      then admitted_at caller.peer topic (admission caller topic) s
      else going (record s { answers = insert topic (refusal event_topic_invalid) s.answers })

  abbrev pub then_admit : Admitted C P → (Admission C P → Admitted C P) → Admitted C P
  then_admit (stopped s) later = stopped s
  then_admit (going s) later = later s

  -- the first loop
  unfoldable pub admit : Caller → List Text → Admission C P → Admitted C P
  unfolding admit_one
  admit caller [] s = going s
  admit caller (topic ∷ topics) s = then_admit (admit_one caller topic s) (admit caller topics)
