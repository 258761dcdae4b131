-- ===== src/Transport/Contexts/Cloning.antt =====
-- What a context cloned for a command holds, and what a built context holds: `clone_for_command` and
-- `build_context` of fastapi_viewsets/context/__init__.py.
use fastapi_viewsets.Prelude.{
  Text, Dict, lookup, update, lookup-update, IsKeyed, or_else, All, list_eq, nat_eq, map, List, [],
  ◌∷◌, Option, some, false, ◌&&◌, ◌≡◌, refl, ap, ◌∙◌,
}
use fastapi_viewsets.Transport.Json
use fastapi_viewsets.Transport.Json.{Json, Members}
use fastapi_viewsets.Transport.Values.{Classes, type_key, value_key, serialize_value, option_map}
use fastapi_viewsets.Transport.Contexts.{
  Entry, serializable, awaitable, plain, Context, serialize_entry, serialize_entries,
  deserialize_entry, deserialize_entries, decoded, or_name, cloned, clone_for_command,
  merge_processors,
}

-- JSON that is not mistaken for a tagged object.
abbrev pub IsUntagged : Json → Type 0
IsUntagged (Json.object members) = (Json.has type_key members && Json.has value_key members) ≡ false
IsUntagged other = Unit

module _ {O : Type 0} where
  abbrev pub HoldsNoTag : Entry O → Type 0
  HoldsNoTag (serializable o) = Unit
  HoldsNoTag (awaitable value) = IsUntagged value
  HoldsNoTag (plain value) = IsUntagged value

  -- An awaitable's value in its place.
  abbrev pub settled : Entry O → Entry O
  settled (serializable o) = serializable o
  settled (awaitable value) = plain value
  settled (plain value) = plain value

  module _ (classes : Classes O)
      (law : (o : O)
        → classes.deserialize (classes.class_tag o) (classes.serialize o) ≡ some o) where
    deserialize_entry-untagged :
        (value : Json) → IsUntagged value → deserialize_entry classes value ≡ some (plain value)
    unfolding deserialize_entry
    deserialize_entry-untagged (Json.object fields) h = rw h refl
    deserialize_entry-untagged Json.null h = refl
    deserialize_entry-untagged (Json.bool b) h = refl
    deserialize_entry-untagged (Json.int n) h = refl
    deserialize_entry-untagged (Json.negint n) h = refl
    deserialize_entry-untagged (Json.str s) h = refl
    deserialize_entry-untagged (Json.array items) h = refl

    deserialize_entry-serialize_entry :
        (entry : Entry O)
        → HoldsNoTag entry
        → deserialize_entry classes (serialize_entry classes entry) ≡ some (settled entry)
    unfolding deserialize_entry serialize_entry serialize_value Json.has Json.get
    deserialize_entry-serialize_entry (serializable o) h = ap (option_map serializable) (law o)
    deserialize_entry-serialize_entry (awaitable value) h = deserialize_entry-untagged value h
    deserialize_entry-serialize_entry (plain value) h = deserialize_entry-untagged value h

    deserialize_entries-serialize_entries :
        (entries : Dict Text (Entry O))
        → All (λ e. HoldsNoTag e.1) entries
        → deserialize_entries classes (serialize_entries classes entries)
          ≡ some (map (λ e. (e.0, settled e.1)) entries)
    unfolding deserialize_entries serialize_entries
    deserialize_entries-serialize_entries [] h = refl
    deserialize_entries-serialize_entries ((key, entry) ∷ entries) h = rw (
      deserialize_entry-serialize_entry entry h.0,
      deserialize_entries-serialize_entries entries h.1,
    )

    -- A clone for a command holds the same values, each awaitable's value in its place and every
    -- `SerializableObject` rebuilt, with the configuration of the original and the given action; where
    -- its classes rebuild what they serialized, the settings' codecs keep the JSON, and no plain value
    -- looks like a tagged one.
    pub clone_for_command-settled :
        {V : Type 0} (encode : Members → Members) (decode : Option (Members → Members))
        (action_name : Option Text) (context : Context O V)
        → decoded decode (encode (serialize_entries classes context.values))
          ≡ serialize_entries classes context.values
        → All (λ e. HoldsNoTag e.1) context.values
        → clone_for_command classes encode decode action_name context
          ≡ some (record {
            values = map (λ e. (e.0, settled e.1)) context.values;
            action_configuration = context.action_configuration;
            action_name = or_name action_name context.action_name;
          })
    unfolding clone_for_command
    clone_for_command-settled encode decode action_name context kept h =
        ap
          (λ members. option_map (cloned action_name context) (deserialize_entries classes members))
          kept
        ∙ ap (option_map (cloned action_name context))
            (deserialize_entries-serialize_entries context.values h)

  -- The last answer that has a key.
  abbrev pub last_answer : List (Dict Text (Entry O)) → Text → Option (Entry O) → Option (Entry O)
  last_answer [] key found = found
  last_answer (answer ∷ answers) key found =
      last_answer answers key (or_else (lookup key answer) found)

  -- A built context holds for each key the value of the last processor that answers it.
  pub lookup-merge_processors :
      (answers : List (Dict Text (Entry O))) (merged : Dict Text (Entry O)) (key : Text)
      → All IsKeyed answers
      → lookup key (merge_processors answers merged) ≡ last_answer answers key (lookup key merged)
  unfolding merge_processors
  lookup-merge_processors [] merged key h = refl
  lookup-merge_processors (answer ∷ answers) merged key h =
      lookup-merge_processors answers (update merged answer) key h.1
      ∙ ap (last_answer answers key) (lookup-update key merged answer h.0)
