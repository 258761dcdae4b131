-- ===== src/Listing/Cursors.antt =====
-- fastapi_viewsets/cursor.py: the state of a cursor, its decoding against the query, and the
-- predicate made of it.
use fastapi_viewsets.Prelude.{
  Text, lookup, list_eq, nat_eq, ◌==◌, if◌then◌else◌, List, [], ◌∷◌, Option, none, some, Bool,
}
use fastapi_viewsets.Listing.Values.{Value, null, Record, read}
use fastapi_viewsets.Listing.Order.{CursorKeys, CursorPredicate}

-- `CursorState`
pub record CursorState : Type 0 where
  pub position : Record
  pub backwards : Bool
  pub inclusive : Bool
  pub query : Text

-- What a cursor's text decodes to: an object with a position under "p" (none where that is not an
-- object), the truth of "b" and of "i", and the text under "q" (none where that is not a text); or
-- JSON that is not an object.
pub data Payload : Type 0 where
  object : Option Record → Bool → Bool → Option Text → Payload
  no_object : Payload

-- `CursorError`, by its code
pub data CursorError : Type 0 where
  unreadable missing_position stale : CursorError
  missing_keys : List Text → CursorError
  value_mismatch : Text → CursorError

pub data Decoded (A : Type 0) : Type 0 where
  ok : A → Decoded A
  error : CursorError → Decoded A

-- The response model's fields, with the coercion of pydantic's `TypeAdapter(annotation)`: none where
-- it refuses the value.
abbrev pub Annotations : Type 0
Annotations = Text → Option (Value → Option Value)

-- The JSON and base64 text of a cursor.
pub record Codec : Type 0 where
  pub dumps : Payload → Text
  pub loads : Text → Option Payload

-- `CursorState.encode`
unfoldable pub encode : Codec → CursorState → Text
encode codec state =
    codec.dumps (object (some state.position) state.backwards state.inclusive (some state.query))

abbrev unless_found : Text → Option Value → List Text → List Text
unless_found name none rest = name ∷ rest
unless_found name (some value) rest = rest

-- the names of `keys` that `position` has no entry for
unfoldable pub missing_of : CursorKeys → Record → List Text
missing_of [] position = []
missing_of ((name, _) ∷ keys) position =
    unless_found name (lookup name position) (missing_of keys position)

-- one value of the position, as its field's annotation takes it
unfoldable pub coerce_value : Option (Value → Option Value) → Value → Option Value
coerce_value annotation null = some null
coerce_value none value = some value
coerce_value (some validate) value = validate value

abbrev add_coerced : Text → Option Value → Decoded Record → Decoded Record
add_coerced name none rest = error (value_mismatch name)
add_coerced name (some value) (error e) = error e
add_coerced name (some value) (ok rest) = ok ((name, value) ∷ rest)

-- the loop over `keys` that fills `coerced`
unfoldable pub coerce : Annotations → CursorKeys → Record → Decoded Record
unfolding coerce_value
coerce annotations [] position = ok []
coerce annotations ((name, _) ∷ keys) position =
    add_coerced name (coerce_value (annotations name) (read position name))
      (coerce annotations keys position)

abbrev with_flags : Bool → Bool → Text → Decoded Record → Decoded CursorState
with_flags b i query (error e) = error e
with_flags b i query (ok coerced) =
    ok (record { position = coerced; backwards = b; inclusive = i; query = query })

abbrev unless_missing : List Text → Decoded CursorState → Decoded CursorState
unless_missing [] state = state
unless_missing (name ∷ names) state = error (missing_keys (name ∷ names))

-- past the check that the cursor is of this query
abbrev from_position : Annotations → CursorKeys → Text → Record → Bool → Bool → Decoded CursorState
from_position annotations keys query position b i =
    unless_missing (missing_of keys position)
      (with_flags b i query (coerce annotations keys position))

unfoldable pub from_payload : Annotations → CursorKeys → Text → Option Payload → Decoded CursorState
unfolding missing_of coerce
from_payload annotations keys expected none = error unreadable
from_payload annotations keys expected (some no_object) = error missing_position
from_payload annotations keys expected (some (object none b i q)) = error missing_position
from_payload annotations keys expected (some (object (some p) b i none)) = error stale
from_payload annotations keys expected (some (object (some p) b i (some q))) =
    if q == expected then from_position annotations keys expected p b i else error stale

-- `decode_cursor`
unfoldable pub decode_cursor : Codec → Text → CursorKeys → Text → Annotations → Decoded CursorState
unfolding from_payload
decode_cursor codec raw keys expected annotations =
    from_payload annotations keys expected (codec.loads raw)

-- `make_predicate`
unfoldable pub make_predicate : CursorState → CursorKeys → Bool → CursorPredicate
make_predicate state keys nulls_first = record {
  keys = keys;
  position = state.position;
  backwards = state.backwards;
  inclusive = state.inclusive;
  nulls_first = nulls_first;
}
