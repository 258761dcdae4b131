-- ===== src/Transport/Errors.antt =====
-- `_error_to_jsonable`, `_error_from_jsonable` and `_rebuild_error` of fastapi_viewsets/exceptions.py. What
-- `jsonable_encoder` makes of a detail and of params is JSON already.
mod Examples
use fastapi_viewsets.Prelude.{
  ℕ, zero, suc, Text, text, list_eq, nat_eq, ◌==◌, beq_refl, contains, if◌then◌else◌, List, [], ◌∷◌,
  Option, none, some, Bool, true, false, ◌≡◌, refl, ap, ◌∙◌, arith,
}
use fastapi_viewsets.Transport.Json
use fastapi_viewsets.Transport.Json.{Json, Members}

-- An exception: `HTTPException`, `DfViewSetError` of a class, `RequestValidationError`, or another.
pub data Error : Type 0 where
  http_exception : (status_code : ℕ) (detail : Json) (headers : Option (List (Text × Text))) → Error
  viewset_error :
      (class_ : Text) (status_code : ℕ) (detail : Json) (code : Text) (params : Json)
      (headers : Option (List (Text × Text)))
      → Error
  request_validation_error : (errors : Json) → Error
  other_error : Error

-- The `DfViewSetError` classes of the module, by name.
abbrev pub error_classes : List Text
error_classes =
    text "DfViewSetError"
    ∷ text "NotFoundError"
    ∷ text "ReadOnlyCollectionError"
    ∷ text "SessionExpiredError"
    ∷ text "NotAuthorizedError"
    ∷ text "RateLimitedError"
    ∷ text "ActionOutcomeUnknownError"
    ∷ text "ResultTimeoutError"
    ∷ text "ResultReaderStoppedError"
    ∷ text "ActionDispatchError"
    ∷ text "ActionInterruptedError"
    ∷ text "ActionFailedError"
    ∷ text "IdempotencyKeyInvalidError"
    ∷ text "IdempotencyKeyReusedError"
    ∷ text "UnsupportedListShapeError"
    ∷ text "CursorRequestError"
    ∷ text "EventTopicInvalidError"
    ∷ text "EventTopicRefusedError"
    ∷ text "EventScopeMissingError"
    ∷ text "EventSubscriptionsExceededError"
    ∷ text "EventCursorsExceededError"
    ∷ text "UnhandledError"
    ∷ text "CommandInvalidError"
    ∷ []

-- A dict of strings as JSON, and back; a value that is no string is kept out of the model.
abbrev pub text_members : List (Text × Text) → Members
text_members [] = Json.no_members
text_members ((name, value) ∷ rest) = Json.member name (Json.str value) (text_members rest)

abbrev pub texts_of : Members → List (Text × Text)
texts_of Json.no_members = []
texts_of (Json.member name (Json.str value) rest) = (name, value) ∷ texts_of rest
texts_of (Json.member name other rest) = texts_of rest

-- `dict(error.headers) if error.headers else None`
abbrev pub headers_to_json : Option (List (Text × Text)) → Json
headers_to_json none = Json.null
headers_to_json (some []) = Json.null
headers_to_json (some (header ∷ headers)) = Json.object (text_members (header ∷ headers))

abbrev pub headers_from_json : Option Json → Option (List (Text × Text))
headers_from_json (some (Json.object members)) = some (texts_of members)
headers_from_json other = none

abbrev pub viewset_members : Text → ℕ → Json → Text → Json → Option (List (Text × Text)) → Members
viewset_members class_ status_code detail code params headers =
    Json.member (text "status_code") (Json.int status_code) (
      Json.member (text "detail") detail (
        Json.member (text "headers") (headers_to_json headers) (
          Json.member (text "class") (Json.str class_) (
            Json.member (text "code") (Json.str code)
              (Json.member (text "params") params Json.no_members)))))

-- `_error_to_jsonable`; an error of another type becomes `UnhandledError()`
unfoldable pub error_to_jsonable : Error → Members
error_to_jsonable (request_validation_error errors) =
    Json.member (text "status_code") (Json.int 422) (
      Json.member (text "detail") errors (
        Json.member (text "headers") Json.null
          (Json.member (text "class") (Json.str (text "RequestValidationError")) Json.no_members)))
error_to_jsonable (http_exception status_code detail headers) =
    Json.member (text "status_code") (Json.int status_code) (
      Json.member (text "detail") detail
        (Json.member (text "headers") (headers_to_json headers) Json.no_members))
error_to_jsonable (viewset_error class_ status_code detail code params headers) =
    viewset_members class_ status_code detail code params headers
error_to_jsonable other_error =
    viewset_members (text "UnhandledError") 500 (Json.str (text "Internal Server Error"))
      (text "fastapi-viewsets.unhandled_error") (Json.object Json.no_members) none

-- the class of the module with this name, else the base
abbrev pub class_of : Option Json → Text
class_of (some (Json.str name)) =
    if contains name error_classes then name else text "DfViewSetError"
class_of other = text "DfViewSetError"

-- `bool(value)`
abbrev pub is_truthy : Json → Bool
is_truthy Json.null = false
is_truthy (Json.bool b) = b
is_truthy (Json.int zero) = false
is_truthy (Json.int (suc n)) = true
is_truthy (Json.negint n) = true
is_truthy (Json.str []) = false
is_truthy (Json.str (c ∷ cs)) = true
is_truthy (Json.array Json.no_items) = false
is_truthy (Json.array (Json.item value values)) = true
is_truthy (Json.object Json.no_members) = false
is_truthy (Json.object (Json.member name value rest)) = true

-- `params or {}`
abbrev pub params_of : Option Json → Json
params_of none = Json.object Json.no_members
params_of (some params) = if is_truthy params then params else Json.object Json.no_members

-- `_rebuild_error`
unfoldable pub rebuild_error : Text → ℕ → Json → Text → Option Json → Option Json → Error
rebuild_error class_ status_code detail code params headers =
    viewset_error class_ status_code detail code (params_of params) (headers_from_json headers)

abbrev pub is_validation : Option Json → Bool
is_validation (some (Json.str name)) = name == text "RequestValidationError"
is_validation other = false

-- the error without a `code`
abbrev pub without_code : Option Json → ℕ → Json → Option Json → Error
without_code class_ status_code detail headers =
    if is_validation class_
    then request_validation_error detail
    else http_exception status_code detail (headers_from_json headers)

abbrev pub from_fields : Option Json → Option Json → Option Json → Members → Option Error
from_fields (some (Json.int status_code)) (some detail) (some (Json.str code)) fields = some (
    rebuild_error (class_of (Json.get (text "class") fields)) status_code detail code
      (Json.get (text "params") fields) (Json.get (text "headers") fields))
from_fields (some (Json.int status_code)) (some detail) none fields = some (
    without_code (Json.get (text "class") fields) status_code detail
      (Json.get (text "headers") fields))
from_fields status_code detail code fields = none

-- `_error_from_jsonable`; none where a field is missing or of another type
unfoldable pub error_from_jsonable : Members → Option Error
unfolding rebuild_error
error_from_jsonable fields =
    from_fields (Json.get (text "status_code") fields) (Json.get (text "detail") fields)
      (Json.get (text "code") fields) fields

-- Headers that cross: none, or some that are not empty.
abbrev pub HasHeaders : Option (List (Text × Text)) → Type 0
HasHeaders none = Unit
HasHeaders (some []) = ⊥
HasHeaders (some (_ ∷ _)) = Unit

-- Errors that cross whole: a `DfViewSetError` of a class of the module, whose params `params or {}` keeps.
abbrev pub Crosses : Error → Type 0
Crosses (http_exception status_code detail headers) = HasHeaders headers
Crosses (viewset_error class_ status_code detail code params headers) =
    (contains class_ error_classes ≡ true) × (params_of (some params) ≡ params) × HasHeaders headers
Crosses (request_validation_error errors) = Unit
Crosses other_error = ⊥

texts_of-text_members : (headers : List (Text × Text)) → texts_of (text_members headers) ≡ headers
texts_of-text_members [] = refl
texts_of-text_members ((name, value) ∷ rest) =
    ap (λ t. (name, value) ∷ t) (texts_of-text_members rest)

headers_crossed :
    (headers : Option (List (Text × Text)))
    → HasHeaders headers
    → headers_from_json (some (headers_to_json headers)) ≡ headers
headers_crossed none h = refl
headers_crossed (some []) h = absurd h
headers_crossed (some ((name, value) ∷ rest)) h =
    ap (λ t. some ((name, value) ∷ t)) (texts_of-text_members rest)

-- An error comes back from its JSON as it was, where it is of a class the module knows, its headers are
-- absent or hold a name, and a `DfViewSetError`'s params are truthy or an empty object.
pub error_from_jsonable-error_to_jsonable :
    (error : Error) → Crosses error → error_from_jsonable (error_to_jsonable error) ≡ some error
unfolding error_from_jsonable error_to_jsonable Json.get
error_from_jsonable-error_to_jsonable (http_exception status_code detail headers) h =
    ap (λ t. some (http_exception status_code detail t)) (headers_crossed headers h)
error_from_jsonable-error_to_jsonable (viewset_error class_ status_code detail code params headers)
      h =
    ap
      (λ c. some (
        viewset_error c status_code detail code (params_of (some params))
          (headers_from_json (some (headers_to_json headers)))))
      (ap (λ b. if b then class_ else text "DfViewSetError") h.0)
    ∙ ap
        (λ p. some (
          viewset_error class_ status_code detail code p
            (headers_from_json (some (headers_to_json headers)))))
        h.1
    ∙ ap (λ t. some (viewset_error class_ status_code detail code params t))
        (headers_crossed headers h.2)
error_from_jsonable-error_to_jsonable (request_validation_error errors) h = refl
error_from_jsonable-error_to_jsonable other_error h = absurd h
