-- ===== src/Transport/Values/RoundTrip.antt =====
-- What `from_jsonable` of fastapi_viewsets/context/__init__.py makes of a value that `to_jsonable` encoded.
use fastapi_viewsets.Prelude.{
  Text, list_eq, nat_eq, ◌==◌, if◌then◌else◌, some, Bool, true, false, ◌&&◌, ◌≡◌, refl, ap, ◌∙◌,
  arith,
}
use fastapi_viewsets.Transport.Json
use fastapi_viewsets.Transport.Json.{Json, Members}
use fastapi_viewsets.Transport.Values.{
  Value, Values, Entries, serializable, dumped, null, bool, int, negint, str, list, dict, no_values,
  item, no_entries, entry, Classes, option_map, type_key, value_key, serialize_value, to_jsonable,
  to_jsonable_list, to_jsonable_dict, rebuilt, from_jsonable, from_jsonable_list,
  from_jsonable_dict,
}

module _ {O : Type 0} where
  abbrev pub has_entry : Text → Entries O → Bool
  has_entry key no_entries = false
  has_entry key (entry name v rest) = if name == key then true else has_entry key rest

  -- Values that JSON keeps: nothing in them is only dumped, and no dict has both keys of a tag.
  abbrev mutual
    pub IsKept : Value O → Type 0
    IsKept (dumped json) = ⊥
    IsKept (list values) = AreKept values
    IsKept (dict entries) =
        ((has_entry type_key entries && has_entry value_key entries) ≡ false) × HaveKept entries
    IsKept other = Unit

    pub AreKept : Values O → Type 0
    AreKept no_values = Unit
    AreKept (item first values) = IsKept first × AreKept values

    pub HaveKept : Entries O → Type 0
    HaveKept no_entries = Unit
    HaveKept (entry key first entries) = IsKept first × HaveKept entries

  module _ (classes : Classes O)
      (law : (o : O)
        → classes.deserialize (classes.class_tag o) (classes.serialize o) ≡ some o) where
    has-to_jsonable_dict :
        (key : Text) (entries : Entries O)
        → Json.has key (to_jsonable_dict classes entries) ≡ has_entry key entries
    unfolding to_jsonable Json.has
    has-to_jsonable_dict key no_entries = refl
    has-to_jsonable_dict key (entry name v rest) = ground (arith, has-to_jsonable_dict key rest)

    rebuilt-serialize_value :
        (o : O) → from_jsonable classes (serialize_value classes o) ≡ some (serializable o)
    unfolding from_jsonable serialize_value Json.has Json.get
    rebuilt-serialize_value o = ap (option_map serializable) (law o)

    mutual
      unfolding from_jsonable to_jsonable

      value-kept : (v : Value O) → IsKept v → from_jsonable classes (to_jsonable classes v) ≡ some v
      value-kept (serializable o) h = rebuilt-serialize_value o
      value-kept (dumped json) h = absurd h
      value-kept null h = refl
      value-kept (bool b) h = refl
      value-kept (int n) h = refl
      value-kept (negint n) h = refl
      value-kept (str s) h = refl
      value-kept (list values) h = ap (option_map list) (list-kept values h)
      value-kept (dict entries) h =
          let untagged : (Json.has type_key (to_jsonable_dict classes entries)
                && Json.has value_key (to_jsonable_dict classes entries))
              ≡ false =
            ap (λ b. b && Json.has value_key (to_jsonable_dict classes entries))
              (has-to_jsonable_dict type_key entries)
            ∙ ap (λ b. has_entry type_key entries && b) (has-to_jsonable_dict value_key entries)
            ∙ h.0 in
          let kept = dict-kept entries h.1 in
          let inside = ap (option_map dict) kept in
          ap
            (λ b.
              if b
              then rebuilt classes (Json.get type_key (to_jsonable_dict classes entries))
                  (Json.get value_key (to_jsonable_dict classes entries))
              else option_map dict (from_jsonable_dict classes (to_jsonable_dict classes entries)))
            untagged
          ∙ inside

      list-kept :
          (values : Values O)
          → AreKept values
          → from_jsonable_list classes (to_jsonable_list classes values) ≡ some values
      list-kept no_values h = refl
      list-kept (item first values) h = rw (value-kept first h.0, list-kept values h.1)

      dict-kept :
          (entries : Entries O)
          → HaveKept entries
          → from_jsonable_dict classes (to_jsonable_dict classes entries) ≡ some entries
      dict-kept no_entries h = refl
      dict-kept (entry key first entries) h = rw (value-kept first h.0, dict-kept entries h.1)

    -- What crosses as JSON comes back: every `SerializableObject` is rebuilt at its place, where its class
    -- rebuilds what it serialized, in a value that holds nothing which is only dumped and no dict with both
    -- keys of a tag.
    pub from_jsonable-to_jsonable :
        (v : Value O) → IsKept v → from_jsonable classes (to_jsonable classes v) ≡ some v
    from_jsonable-to_jsonable v h = value-kept v h
