-- ===== src/Transport/Contexts.antt =====
-- `Context` with `serialize_context`, `deserialize_context`, `clone_for_command` and `build_context`, and
-- `LazyObject`, of fastapi_viewsets/context/__init__.py. The JSON encoder and decoder of the settings are
-- parameters, `recode`: what `json.loads(json.dumps(_))` makes of an object.
pub mod Cloning
pub mod Lazy
pub mod Examples
use fastapi_viewsets.Prelude.{
  ℕ, Text, Dict, lookup, insert, update, list_eq, nat_eq, if◌then◌else◌, List, [], ◌∷◌, Option,
  none, some, Bool, true, false, ◌&&◌,
}
use fastapi_viewsets.Transport.Json
use fastapi_viewsets.Transport.Json.{Json, Members}
use fastapi_viewsets.Transport.Values.{
  Classes, type_key, value_key, serialize_value, option_map, both,
}
use fastapi_viewsets.Middleware.Configuration.{Configuration, Identifier, configuration_for}

-- A context's value: a `SerializableObject`, an awaitable with the value that awaiting it gives, or a value
-- in JSON form.
pub data Entry (O : Type 0) : Type 0 where
  serializable : O → Entry O
  awaitable : Json → Entry O
  plain : Json → Entry O

pub record Context (O V : Type 0) : Type 0 where
  -- `_data`
  pub values : Dict Text (Entry O)
  pub action_configuration : Configuration V
  pub action_name : Option Text

abbrev pub decoded : Option (Members → Members) → Members → Members
decoded none members = members
decoded (some decode) members = decode members

abbrev pub or_name : Option Text → Option Text → Option Text
or_name none original = original
or_name (some given) original = some given

module _ {O V : Type 0} where
  abbrev pub cloned : Option Text → Context O V → Dict Text (Entry O) → Context O V
  cloned action_name context values = record {
    values = values;
    action_configuration = context.action_configuration;
    action_name = or_name action_name context.action_name;
  }

module _ {O : Type 0} where
  abbrev pub and_entry : Text → Entry O → Dict Text (Entry O) → Dict Text (Entry O)
  and_entry key entry entries = (key, entry) ∷ entries

module _ {O : Type 0} (classes : Classes O) where
  -- one turn of the loop of `serialize_context`
  unfoldable pub serialize_entry : Entry O → Json
  serialize_entry (serializable o) = serialize_value classes o
  serialize_entry (awaitable value) = value
  serialize_entry (plain value) = value

  unfoldable pub serialize_entries : Dict Text (Entry O) → Members
  unfolding serialize_entry
  serialize_entries [] = Json.no_members
  serialize_entries ((key, entry) ∷ entries) =
      Json.member key (serialize_entry entry) (serialize_entries entries)

  -- `serialize_context`
  unfoldable pub serialize_context : (Members → Members) → Dict Text (Entry O) → Members
  unfolding serialize_entries
  serialize_context recode entries = recode (serialize_entries entries)

  abbrev pub rebuilt : Option Json → Option Json → Option (Entry O)
  rebuilt (some (Json.str tag)) (some payload) =
      option_map serializable (classes.deserialize tag payload)
  rebuilt (some _) (some payload) = none
  rebuilt (some _) none = none
  rebuilt none payload = none

  -- one turn of the loop of `deserialize_context`; none where an exception is raised
  unfoldable pub deserialize_entry : Json → Option (Entry O)
  deserialize_entry (Json.object members) =
      if Json.has type_key members && Json.has value_key members
      then rebuilt (Json.get type_key members) (Json.get value_key members)
      else some (plain (Json.object members))
  deserialize_entry Json.null = some (plain Json.null)
  deserialize_entry (Json.bool b) = some (plain (Json.bool b))
  deserialize_entry (Json.int n) = some (plain (Json.int n))
  deserialize_entry (Json.negint n) = some (plain (Json.negint n))
  deserialize_entry (Json.str s) = some (plain (Json.str s))
  deserialize_entry (Json.array items) = some (plain (Json.array items))

  unfoldable pub deserialize_entries : Members → Option (Dict Text (Entry O))
  unfolding deserialize_entry
  deserialize_entries Json.no_members = some []
  deserialize_entries (Json.member key value members) =
      both (and_entry key) (deserialize_entry value) (deserialize_entries members)

  -- `deserialize_context`
  unfoldable pub deserialize_context :
      Option (Members → Members) → Members → Option (Dict Text (Entry O))
  unfolding deserialize_entries
  deserialize_context decode members = deserialize_entries (decoded decode members)

  module _ {V : Type 0} where
    -- `Context.clone_for_command`
    unfoldable pub clone_for_command :
        (Members → Members)
        → Option (Members → Members)
        → Option Text
        → Context O V
        → Option (Context O V)
    unfolding serialize_context deserialize_context
    clone_for_command encode decode action_name context =
        option_map (cloned action_name context)
          (deserialize_context decode (serialize_context encode context.values))

-- the loop of `build_context`: what each processor answers, in the settings' order
unfoldable pub merge_processors :
    {O : Type 0} → List (Dict Text (Entry O)) → Dict Text (Entry O) → Dict Text (Entry O)
merge_processors [] merged = merged
merge_processors (answer ∷ answers) merged = merge_processors answers (update merged answer)

module _ {O V : Type 0} where
  -- `Context.set`
  unfoldable pub set : Text → Entry O → Context O V → Context O V
  set key value context = record context { values = insert key value context.values }

  -- `build_context`
  unfoldable pub build_context :
      List (Dict Text (Entry O)) → Configuration V → Option Text → Context O V
  unfolding merge_processors
  build_context answers action_configuration action_name = record {
    values = merge_processors answers [];
    action_configuration = action_configuration;
    action_name = action_name;
  }

  -- `get_shared_context`, with `request.state._context` as it stands, none without a request
  unfoldable pub get_shared_context :
      Option (Option (Context O V)) → Context O V → Option (Option (Context O V)) × Context O V
  get_shared_context none built = (none, built)
  get_shared_context (some none) built = (some (some built), built)
  get_shared_context (some (some cached)) built = (some (some cached), cached)
