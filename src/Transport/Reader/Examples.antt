-- ===== src/Transport/Reader/Examples.antt =====
-- A process's calls at a concrete reader: two wait for the queue `a`, one for `b`.
use fastapi_viewsets.Prelude.{
  ℕ, Text, text, lookup, insert, erase, lookup-nil, IsKeyed, list_eq, nat_eq, option_eq, List, [],
  ◌∷◌, Option, none, some, true, ◌≡◌, refl,
}
use fastapi_viewsets.Transport.Json
use fastapi_viewsets.Transport.Json.{Json, Members}
use fastapi_viewsets.Transport.Values.{int, Classes, from_jsonable}
use fastapi_viewsets.Transport.Errors.{Error, http_exception}
use fastapi_viewsets.Transport.Reader.{
  result, exception, Pending, Reader, is_done, fail_pending_futures, read_payload, error_payload,
}
use fastapi_viewsets.Transport.Reader.Settled.{
  Event, made, given_up, item_read, stopped, read_payload-error_payload,
}
use fastapi_viewsets.Transport.Reader.Stopping.{fail_pending_futures-ends}

abbrev queue_a : Text
queue_a = text "a"

abbrev queue_b : Text
queue_b = text "b"

abbrev call : ℕ → Text → Pending
call future queue_key = record { future = future; queue_key = some queue_key }

abbrev reader : Reader ℕ
reader = record {
  pending =
      (text "c1", call 1 queue_a) ∷ (text "c2", call 2 queue_b) ∷ (text "c3", call 3 queue_a) ∷ [];
  futures = [];
}

abbrev no_object : Text → Json → Option ℕ
no_object tag value = none

abbrev classes : Classes ℕ
classes = record {
  class_tag = λ o. text "app:Number";
  serialize = λ o. Json.int o;
  deserialize = no_object;
}

abbrev answer : Members
answer =
    Json.member (text "correlation_id") (Json.str (text "c2")) (
      Json.member (text "task") Json.null
        (Json.member (text "result") (Json.int 7) Json.no_members))

answered : (read_payload classes answer reader).futures ≡ (2, result (int 7)) ∷ []
unfolding read_payload lookup insert Json.get from_jsonable
answered = refl

stopped_a : (fail_pending_futures queue_a reader).pending ≡ (text "c2", call 2 queue_b) ∷ []
unfolding fail_pending_futures lookup insert erase
stopped_a = refl

reader-IsKeyed : IsKeyed reader.pending
unfolding lookup
reader-IsKeyed = (refl, (refl, (refl, tt)))

waiting : lookup (text "c3") reader.pending ≡ some (call 3 queue_a)
unfolding lookup
waiting = refl

fail_pending_futures-ends_example :
    (lookup (text "c3") (fail_pending_futures queue_a reader).pending ≡ none)
    × (is_done (lookup 3 (fail_pending_futures queue_a reader).futures) ≡ true)
fail_pending_futures-ends_example =
    fail_pending_futures-ends (text "c3") queue_a (call 3 queue_a) reader reader-IsKeyed waiting

abbrev not_found : Error
not_found = http_exception 404 (Json.str (text "Not Found")) none

read_payload-error_payload_example :
    (lookup 3
        (read_payload classes
          (error_payload (text "c3") (some (text "load")) not_found)
          reader).futures
      ≡ some (exception not_found))
    × (lookup
          (text "c3")
          (read_payload classes
            (error_payload (text "c3") (some (text "load")) not_found)
            reader).pending
        ≡ none)
read_payload-error_payload_example =
    read_payload-error_payload classes (text "c3") (some (text "load")) not_found (call 3 queue_a)
      reader tt waiting (lookup-nil 3)

abbrev ended_reader : Reader ℕ
ended_reader = record reader { futures = (2, result (int 7)) ∷ [] }

abbrev later : List (Event ℕ)
later =
    stopped queue_b ∷ item_read classes answer ∷ given_up (text "c2") ∷ made (text "c4") 4 none ∷ []

ended : lookup 2 ended_reader.futures ≡ some (result (int 7))
unfolding lookup
ended = refl
