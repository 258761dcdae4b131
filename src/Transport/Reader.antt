-- ===== src/Transport/Reader.antt =====
-- fastapi_viewsets/decorators/celery_viewset/result_reader.py: the calls of a process that wait for a
-- worker's results. A future stands for itself by a number; `futures` holds those that are done. A payload
-- is the object that `json.loads` makes of one item of the process's list.
pub mod Settled
pub mod Stopping
pub mod Examples
use fastapi_viewsets.Prelude.{
  ℕ, Text, text, Dict, lookup, insert, erase, list_eq, nat_eq, option_eq, ◌==◌, ◌++◌, if◌then◌else◌,
  List, [], ◌∷◌, Option, none, some, Bool, true, false, not,
}
use fastapi_viewsets.Transport.Json
use fastapi_viewsets.Transport.Json.{Json, Members}
use fastapi_viewsets.Transport.Values.{Value, Classes, from_jsonable}
use fastapi_viewsets.Transport.Errors.{
  Error, http_exception, viewset_error, request_validation_error, other_error, error_to_jsonable,
  error_from_jsonable,
}

-- What a future is done with: `EncodedResult`, a value of `push_result`, or an exception.
pub data Outcome (O : Type 0) : Type 0 where
  encoded_result : Json → Json → Outcome O
  result : Value O → Outcome O
  exception : Error → Outcome O

pub record Pending : Type 0 where
  pub future : ℕ
  pub queue_key : Option Text

pub record Reader (O : Type 0) : Type 0 where
  -- `_pending_futures`
  pub pending : Dict Text Pending
  pub futures : Dict ℕ (Outcome O)

abbrev pub text_or_null : Option Text → Json
text_or_null none = Json.null
text_or_null (some t) = Json.str t

abbrev pub failed_message : Option Text → Text
failed_message none = text "The action failed"
failed_message (some []) = text "The action failed"
failed_message (some (c ∷ cs)) = (c ∷ cs) ++ text " failed"

-- `ActionFailedError(task, reason)`
unfoldable pub action_failed : Option Text → Text → Error
action_failed task reason =
    viewset_error (text "ActionFailedError") 500 (Json.str (failed_message task))
      (text "fastapi-viewsets.action_failed")
      (Json.object (
        Json.member (text "task") (text_or_null task)
          (Json.member (text "reason") (Json.str reason) Json.no_members)))
      none

-- `ResultReaderStoppedError(queue_key)`
unfoldable pub reader_stopped : Text → Error
reader_stopped queue_key =
    viewset_error (text "ResultReaderStoppedError") 503
      (Json.str
        (text "The result reader for " ++ (queue_key ++ text " stopped before the result arrived")))
      (text "fastapi-viewsets.result_reader_stopped")
      (Json.object (Json.member (text "queue_key") (Json.str queue_key) Json.no_members)) none

-- `data.get(key)` where it is a string
abbrev pub string_of : Option Json → Option Text
string_of (some (Json.str t)) = some t
string_of other = none

-- the answer of a payload's error without encoded fields
abbrev pub bare_error : Option Json → Option Json → Option Text → Error
bare_error (some (Json.int status_code)) (some detail) task = http_exception status_code detail none
bare_error (some (Json.int status_code)) none task = http_exception status_code Json.null none
bare_error other detail task = action_failed task (text "error")

-- `_payload_error`; none where it raises
unfoldable pub payload_error : Json → Members → Option Error
payload_error (Json.object fields) payload = error_from_jsonable fields
payload_error error payload = some (
    bare_error (Json.get (text "http_status_code") payload) (Json.get (text "http_detail") payload)
      (string_of (Json.get (text "task") payload)))

-- `error_payload`
abbrev pub as_sent : Option Text → Error → Error
as_sent task (http_exception status_code detail headers) = http_exception status_code detail headers
as_sent task (viewset_error class_ status_code detail code params headers) =
    viewset_error class_ status_code detail code params headers
as_sent task (request_validation_error errors) = request_validation_error errors
as_sent task other_error = action_failed task (text "error")

abbrev pub or_null : Option Json → Json
or_null none = Json.null
or_null (some value) = value

unfoldable pub error_payload : Text → Option Text → Error → Members
unfolding action_failed
error_payload correlation_id task error =
    let encoded = error_to_jsonable (as_sent task error) in
    Json.member (text "correlation_id") (Json.str correlation_id) (
      Json.member (text "task") (text_or_null task) (
        Json.member (text "error") (Json.object encoded) (
          Json.member (text "http_status_code") (or_null (Json.get (text "status_code") encoded)) (
            Json.member (text "http_detail") (or_null (Json.get (text "detail") encoded))
              Json.no_members))))

module _ {O : Type 0} where
  abbrev pub is_done : Option (Outcome O) → Bool
  is_done none = false
  is_done (some _) = true

  -- `if not future.done(): future.set_...`
  unfoldable pub settle : ℕ → Outcome O → Reader O → Reader O
  settle future outcome r =
      if is_done (lookup future r.futures)
      then r
      else record r { futures = insert future outcome r.futures }

  -- `register_future`
  unfoldable pub register_future : Text → ℕ → Option Text → Reader O → Reader O
  register_future correlation_id future queue_key r = record r {
    pending = insert correlation_id (record { future = future; queue_key = queue_key }) r.pending;
  }

  -- `unregister_future`
  unfoldable pub unregister_future : Text → Reader O → Reader O
  unregister_future correlation_id r = record r { pending = erase correlation_id r.pending }

  -- one turn of the loop of `_fail_pending_futures`
  unfoldable pub fail_one : Text → Text → Pending → Reader O → Reader O
  unfolding settle
  fail_one queue_key correlation_id p r =
      if p.queue_key == some queue_key
      then settle p.future (exception (reader_stopped queue_key))
          (record r { pending = erase correlation_id r.pending })
      else r

  unfoldable pub fail_all : Text → Dict Text Pending → Reader O → Reader O
  unfolding fail_one
  fail_all queue_key [] r = r
  fail_all queue_key ((correlation_id, p) ∷ items) r =
      fail_all queue_key items (fail_one queue_key correlation_id p r)

  -- `_fail_pending_futures`, over the items as they are at its start
  unfoldable pub fail_pending_futures : Text → Reader O → Reader O
  unfolding fail_all
  fail_pending_futures queue_key r = fail_all queue_key r.pending r

  abbrev pub or_failed : Option Text → Option (Outcome O) → Outcome O
  or_failed task none = exception (action_failed task (text "result"))
  or_failed task (some outcome) = outcome

  abbrev pub as_exception : Option Error → Option (Outcome O)
  as_exception none = none
  as_exception (some error) = some (exception error)

  abbrev pub as_result : Option (Value O) → Option (Outcome O)
  as_result none = none
  as_result (some value) = some (result value)

  -- what a payload without an error carries
  abbrev pub result_outcome : Classes O → Option Json → Json → Option (Outcome O)
  result_outcome classes (some encoding) value = some (encoded_result value encoding)
  result_outcome classes none value = as_result (from_jsonable classes value)

  abbrev pub payload_outcome : Classes O → Option Json → Members → Option (Outcome O)
  payload_outcome classes none payload =
      result_outcome classes (Json.get (text "result_encoding") payload)
        (or_null (Json.get (text "result") payload))
  payload_outcome classes (some Json.null) payload =
      result_outcome classes (Json.get (text "result_encoding") payload)
        (or_null (Json.get (text "result") payload))
  payload_outcome classes (some error) payload = as_exception (payload_error error payload)

  -- `_resolve`
  unfoldable pub resolve : Classes O → ℕ → Members → Reader O → Reader O
  unfolding settle payload_error
  resolve classes future payload r =
      settle future
        (or_failed (string_of (Json.get (text "task") payload))
          (payload_outcome classes (Json.get (text "error") payload) payload))
        r

  abbrev pub popped : Classes O → Text → Option Pending → Members → Reader O → Reader O
  popped classes correlation_id none payload r = r
  popped classes correlation_id (some p) payload r =
      resolve classes p.future payload (record r { pending = erase correlation_id r.pending })

  abbrev pub read_for : Classes O → Option Text → Members → Reader O → Reader O
  read_for classes none payload r = r
  read_for classes (some correlation_id) payload r =
      popped classes correlation_id (lookup correlation_id r.pending) payload r

  -- one item read in `_read_results`
  unfoldable pub read_payload : Classes O → Members → Reader O → Reader O
  unfolding resolve
  read_payload classes payload r =
      read_for classes (string_of (Json.get (text "correlation_id") payload)) payload r
