-- ===== src/Transport/Json.antt =====
-- JSON as the program sees it after `json.loads`: the keys of an object in their order.
use fastapi_viewsets.Prelude.{
  ℕ, Text, list_eq, nat_eq, ◌==◌, if◌then◌else◌, List, [], ◌∷◌, Option, none, some, Bool, true,
  false,
}

mutual
  pub data Json : Type 0 where
    null : Json
    bool : Bool → Json
    -- an integer, `negint n` is -(n + 1)
    int negint : ℕ → Json
    str : Text → Json
    array : Elements → Json
    object : Members → Json

  pub data Elements : Type 0 where
    no_items : Elements
    item : Json → Elements → Elements

  pub data Members : Type 0 where
    no_members : Members
    member : Text → Json → Members → Members

-- `key in data`
unfoldable pub has : Text → Members → Bool
has key no_members = false
has key (member name value rest) = if name == key then true else has key rest

-- `data.get(key)` of an object
unfoldable pub get : Text → Members → Option Json
get key no_members = none
get key (member name value rest) = if name == key then some value else get key rest

abbrev pub get_of : Text → Json → Option Json
get_of key (object members) = get key members
get_of key value = none

abbrev pub elements : List Json → Elements
elements [] = no_items
elements (value ∷ values) = item value (elements values)

abbrev pub members : List (Text × Json) → Members
members [] = no_members
members ((key, value) ∷ rest) = member key value (members rest)
