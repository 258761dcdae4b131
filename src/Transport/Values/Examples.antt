-- ===== src/Transport/Values/Examples.antt =====
-- Values of one application's classes there and back.
use fastapi_viewsets.Prelude.{
  ℕ, Text, text, list_eq, nat_eq, ◌==◌, if◌then◌else◌, Option, none, some, ◌≡◌, refl,
}
use fastapi_viewsets.Transport.Json
use fastapi_viewsets.Transport.Json.{Json, Members}
use fastapi_viewsets.Transport.Values.{
  Value, serializable, str, list, dict, no_values, item, no_entries, entry, Classes, tagged,
  serialize_value, to_jsonable, from_jsonable,
}
use fastapi_viewsets.Transport.Values.RoundTrip.{from_jsonable-to_jsonable}

abbrev number_of : Text → Json → Option ℕ
number_of tag (Json.int n) = if tag == text "app:Number" then some n else none
number_of tag other = none

-- Objects of a class `Number` that keep one integer.
abbrev classes : Classes ℕ
classes = record {
  class_tag = λ o. text "app:Number";
  serialize = λ o. Json.int o;
  deserialize = number_of;
}

abbrev nested : Value ℕ
nested =
    dict
      (entry (text "a") (list (item (serializable 3) (item (str (text "b")) no_values))) no_entries)

nested_json :
    to_jsonable classes nested
    ≡ Json.object (
        Json.member
          (text "a")
          (Json.array (
            Json.item
              (tagged (text "app:Number") (Json.int 3))
              (Json.item (Json.str (text "b")) Json.no_items)))
          Json.no_members)
unfolding to_jsonable serialize_value
nested_json = refl

unknown_tag : from_jsonable classes (tagged (text "app:Other") (Json.int 3)) ≡ none
unfolding from_jsonable Json.has Json.get
unknown_tag = refl

from_jsonable-to_jsonable_example : from_jsonable classes (to_jsonable classes nested) ≡ some nested
from_jsonable-to_jsonable_example =
    from_jsonable-to_jsonable classes (λ o. refl) nested (refl, ((tt, (tt, tt)), tt))
