-- ===== src/Transport/Values.antt =====
-- `to_jsonable` and `from_jsonable` of fastapi_viewsets/context/__init__.py: values with tagged
-- `SerializableObject`s inside them. An application's classes are a parameter: `O` is the type of their
-- objects, and a `Classes` what `_class_tag`, `__serialize__`, `_resolve_class` and `__deserialize__` do.
pub mod RoundTrip
pub mod Examples
use fastapi_viewsets.Prelude.{
  ℕ, Text, text, list_eq, nat_eq, ◌==◌, if◌then◌else◌, List, [], ◌∷◌, Option, none, some, Bool,
  true, false, ◌&&◌, ◌||◌, not,
}
use fastapi_viewsets.Transport.Json
use fastapi_viewsets.Transport.Json.{Json, Elements, Members}

-- A Python value: a `SerializableObject`, or what JSON has. `dumped` is a pydantic model or another value
-- that pydantic dumps, by its dump.
mutual
  pub data Value (O : Type 0) : Type 0 where
    serializable : O → Value O
    dumped : Json → Value O
    null : Value O
    bool : Bool → Value O
    int negint : ℕ → Value O
    str : Text → Value O
    list : Values O → Value O
    dict : Entries O → Value O

  pub data Values (O : Type 0) : Type 0 where
    no_values : Values O
    item : Value O → Values O → Values O

  pub data Entries (O : Type 0) : Type 0 where
    no_entries : Entries O
    entry : Text → Value O → Entries O → Entries O

pub record Classes (O : Type 0) : Type 0 where
  pub class_tag : O → Text
  pub serialize : O → Json
  -- none for a `TypeError`, or an exception of the class
  pub deserialize : Text → Json → Option O

abbrev pub option_map {ℓ κ} : {A : Type ℓ} {B : Type κ} → (A → B) → Option A → Option B
option_map f none = none
option_map f (some a) = some (f a)

-- Both answers, or none.
abbrev pub both {ℓ κ ρ} :
    {A : Type ℓ} {B : Type κ} {C : Type ρ} → (A → B → C) → Option A → Option B → Option C
both f none b = none
both f (some a) none = none
both f (some a) (some b) = some (f a b)

-- `_TYPE_KEY`, `_VALUE_KEY`
abbrev pub type_key : Text
type_key = text "__fpv_type__"

abbrev pub value_key : Text
value_key = text "__fpv_value__"

abbrev pub tagged : Text → Json → Json
tagged tag payload =
    Json.object
      (Json.member type_key (Json.str tag) (Json.member value_key payload Json.no_members))

module _ {O : Type 0} (classes : Classes O) where
  -- `serialize_value` of a `SerializableObject`
  unfoldable pub serialize_value : O → Json
  serialize_value o = tagged (classes.class_tag o) (classes.serialize o)

  unfoldable mutual
    -- `to_jsonable`
    pub to_jsonable : Value O → Json
    to_jsonable (serializable o) = serialize_value o
    to_jsonable (dumped json) = json
    to_jsonable null = Json.null
    to_jsonable (bool b) = Json.bool b
    to_jsonable (int n) = Json.int n
    to_jsonable (negint n) = Json.negint n
    to_jsonable (str s) = Json.str s
    to_jsonable (list values) = Json.array (to_jsonable_list values)
    to_jsonable (dict entries) = Json.object (to_jsonable_dict entries)

    pub to_jsonable_list : Values O → Elements
    to_jsonable_list no_values = Json.no_items
    to_jsonable_list (item first values) = Json.item (to_jsonable first) (to_jsonable_list values)

    pub to_jsonable_dict : Entries O → Members
    to_jsonable_dict no_entries = Json.no_members
    to_jsonable_dict (entry key first entries) =
        Json.member key (to_jsonable first) (to_jsonable_dict entries)

  -- `deserialize_value` of a tagged payload; none where an exception is raised
  abbrev pub rebuilt : Option Json → Option Json → Option (Value O)
  rebuilt (some (Json.str tag)) (some payload) =
      option_map serializable (classes.deserialize tag payload)
  rebuilt (some _) (some payload) = none
  rebuilt (some _) none = none
  rebuilt none payload = none

  unfoldable mutual
    -- `from_jsonable`
    pub from_jsonable : Json → Option (Value O)
    from_jsonable Json.null = some null
    from_jsonable (Json.bool b) = some (bool b)
    from_jsonable (Json.int n) = some (int n)
    from_jsonable (Json.negint n) = some (negint n)
    from_jsonable (Json.str s) = some (str s)
    from_jsonable (Json.array items) = option_map list (from_jsonable_list items)
    from_jsonable (Json.object members) =
        let inside = option_map dict (from_jsonable_dict members) in
        if Json.has type_key members && Json.has value_key members
        then rebuilt (Json.get type_key members) (Json.get value_key members)
        else inside

    pub from_jsonable_list : Elements → Option (Values O)
    from_jsonable_list Json.no_items = some no_values
    from_jsonable_list (Json.item first items) =
        both item (from_jsonable first) (from_jsonable_list items)

    pub from_jsonable_dict : Members → Option (Entries O)
    from_jsonable_dict Json.no_members = some no_entries
    from_jsonable_dict (Json.member key first members) =
        both (entry key) (from_jsonable first) (from_jsonable_dict members)
