-- ===== src/Transport/Contexts/Examples.antt =====
-- Contexts of a concrete application.
use fastapi_viewsets.Prelude.{
  ℕ, Text, text, list_eq, nat_eq, ◌==◌, if◌then◌else◌, List, [], ◌∷◌, Option, none, some, ◌≡◌, refl,
}
use fastapi_viewsets.Transport.Json.{Json, Members}
use fastapi_viewsets.Transport.Values.{Classes}
use fastapi_viewsets.Transport.Contexts.{
  serializable, awaitable, plain, Context, get_shared_context,
}
use fastapi_viewsets.Transport.Contexts.Lazy.{
  value, awaitable, raised, Event, awaited, ended, deserialize, calls, AreCalled, calls-deserialize,
}

abbrev number_of : Text → Json → Option ℕ
number_of tag (Json.int n) = if tag == text "app:User" then some n else none
number_of tag other = none

abbrev classes : Classes ℕ
classes = record {
  class_tag = λ o. text "app:User";
  serialize = λ o. Json.int o;
  deserialize = number_of;
}

abbrev context : Context ℕ ℕ
context = record {
  values = (text "user", serializable 8) ∷ (text "tenant", awaitable (Json.str (text "t1"))) ∷ [];
  action_configuration = [];
  action_name = some (text "retrieve");
}

abbrev unchanged : Members → Members
unchanged members = members

abbrev clone : Context ℕ ℕ
clone = record {
  values = (text "user", serializable 8) ∷ (text "tenant", plain (Json.str (text "t1"))) ∷ [];
  action_configuration = [];
  action_name = some (text "update");
}

-- One context for a request's middleware and its command.
shared_once : get_shared_context (some (some context)) clone ≡ (some (some context), context)
unfolding get_shared_context
shared_once = refl

abbrev recipe_3 : ℕ × Option Json
recipe_3 = (3, none)

-- The first call raises, the second returns an awaitable, which ends in an exception.
abbrev awaits : List Event
awaits =
    awaited raised
    ∷ awaited awaitable
    ∷ awaited raised
    ∷ ended none
    ∷ awaited (value Json.null)
    ∷ []

awaits_call : calls awaits (deserialize recipe_3) ≡ raised ∷ awaitable ∷ []
unfolding calls deserialize
awaits_call = refl

calls-deserialize_example : AreCalled none (calls awaits (deserialize recipe_3))
calls-deserialize_example = calls-deserialize awaits 3 none
