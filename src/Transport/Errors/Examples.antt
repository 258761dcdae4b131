-- ===== src/Transport/Errors/Examples.antt =====
-- Errors there and back through JSON.
use fastapi_viewsets.Prelude.{Text, text, list_eq, nat_eq, List, [], ◌∷◌, none, some, ◌≡◌, refl}
use fastapi_viewsets.Transport.Json
use fastapi_viewsets.Transport.Json.{Json, Members}
use fastapi_viewsets.Transport.Errors.{
  Error, viewset_error, other_error, error_to_jsonable, error_from_jsonable,
  error_from_jsonable-error_to_jsonable,
}

abbrev headers : List (Text × Text)
headers = (text "Retry-After", text "3") ∷ []

abbrev rate_limited : Error
rate_limited =
    viewset_error (text "RateLimitedError") 429 (Json.str (text "Too many requests"))
      (text "fastapi-viewsets.rate_limited")
      (Json.object (Json.member (text "retry_after") (Json.int 3) Json.no_members)) (some headers)

hidden :
    error_from_jsonable (error_to_jsonable other_error)
    ≡ some (
        viewset_error
          (text "UnhandledError")
          500
          (Json.str (text "Internal Server Error"))
          (text "fastapi-viewsets.unhandled_error")
          (Json.object Json.no_members)
          none)
unfolding error_from_jsonable error_to_jsonable Json.get
hidden = refl

-- An error of a class that the module does not have comes back as one of the base class.
abbrev foreign : Error
foreign =
    viewset_error (text "AppError") 400 Json.null (text "app.error") (Json.object Json.no_members)
      none

foreign_class :
    error_from_jsonable (error_to_jsonable foreign)
    ≡ some (
        viewset_error
          (text "DfViewSetError")
          400
          Json.null
          (text "app.error")
          (Json.object Json.no_members)
          none)
unfolding error_from_jsonable error_to_jsonable Json.get
foreign_class = refl

error_from_jsonable-error_to_jsonable_example :
    error_from_jsonable (error_to_jsonable rate_limited) ≡ some rate_limited
error_from_jsonable-error_to_jsonable_example =
    error_from_jsonable-error_to_jsonable rate_limited (refl, refl, tt)
