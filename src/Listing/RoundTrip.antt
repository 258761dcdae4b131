-- ===== src/Listing/RoundTrip.antt =====
-- A cursor decodes to the state it was made of: `encode`, `decode_cursor` and `position_of` of
-- fastapi_viewsets/cursor.py.
use fastapi_viewsets.Prelude.{
  Text, lookup, list_eq, nat_eq, ◌==◌, beq_refl, beq-eq, [], ◌∷◌, some, Bool, true, false, ◌≡◌,
  refl, arith, Bool-cases, inl, inr,
}
use fastapi_viewsets.Listing.Values.{Record, read}
use fastapi_viewsets.Listing.Order.{CursorKeys, position_of, has_key}
use fastapi_viewsets.Listing.Cursors.{
  CursorState, Payload, object, stale, ok, error, Annotations, Codec, encode, missing_of,
  coerce_value, coerce, from_payload, decode_cursor,
}

-- A row whose key values are what their fields' annotations make of them.
abbrev pub Fits : Annotations → CursorKeys → Record → Type 0
Fits annotations [] row = Unit
Fits annotations ((name, _) ∷ keys) row =
    (coerce_value (annotations name) (read row name) ≡ some (read row name))
    × Fits annotations keys row

-- The position holds what the row holds, under every key.
pub lookup-position_of :
    (keys : CursorKeys) (row : Record) (name : Text)
    → has_key name keys ≡ true
    → lookup name (position_of row keys) ≡ some (read row name)
unfolding position_of lookup
lookup-position_of [] row name h = ground arith
lookup-position_of ((key, d) ∷ keys) row name h = elim (Bool-cases (key == name)) [
  | inl e ↦ ground (arith, beq-eq key name)
  | inr e ↦ ground (arith, lookup-position_of keys row name)
]

-- `keys` is the end of `all`.
abbrev pub Covers : CursorKeys → CursorKeys → Type 0
Covers all [] = Unit
Covers all ((name, _) ∷ keys) = (has_key name all ≡ true) × Covers all keys

Covers-more :
    (key : Text × Bool) (all keys : CursorKeys) → Covers all keys → Covers (key ∷ all) keys
Covers-more key all [] h = tt
Covers-more (k, d) all ((name, _) ∷ keys) h = (ground arith, Covers-more (k, d) all keys h.1)

pub Covers-self : (keys : CursorKeys) → Covers keys keys
Covers-self [] = tt
Covers-self ((name, d) ∷ keys) =
    (rw (beq_refl name) refl, Covers-more (name, d) keys keys (Covers-self keys))

missing_of-position_of :
    (all keys : CursorKeys) (row : Record)
    → Covers all keys
    → missing_of keys (position_of row all) ≡ []
unfolding missing_of
missing_of-position_of all [] row h = refl
missing_of-position_of all ((name, d) ∷ keys) row h =
    rw (lookup-position_of all row name h.0) (missing_of-position_of all keys row h.1)

pub read-position_of :
    (keys : CursorKeys) (row : Record) (name : Text)
    → has_key name keys ≡ true
    → read (position_of row keys) name ≡ read row name
unfolding read
read-position_of keys row name h = rw (lookup-position_of keys row name h) refl

coerce-position_of :
    (annotations : Annotations) (all keys : CursorKeys) (row : Record)
    → Covers all keys
    → Fits annotations keys row
    → coerce annotations keys (position_of row all) ≡ ok (position_of row keys)
unfolding coerce position_of
coerce-position_of annotations all [] row h f = refl
coerce-position_of annotations all ((name, d) ∷ keys) row h f =
    rw (read-position_of all row name h.0, f.0, coerce-position_of annotations all keys row h.1 f.1)
      refl

-- A cursor made of a row's position decodes, for the same ordering keys and the same fingerprint, to
-- the state it was made of, where decoding undoes the codec's encoding of that cursor and each
-- key's value is what its field's annotation makes of it.
pub decode_cursor-encode :
    (codec : Codec) (annotations : Annotations) (keys : CursorKeys) (row : Record)
    (backwards inclusive : Bool) (query : Text)
    → ((payload : Payload) → codec.loads (codec.dumps payload) ≡ some payload)
    → Fits annotations keys row
    → decode_cursor codec
        (encode codec (record {
          position = position_of row keys;
          backwards = backwards;
          inclusive = inclusive;
          query = query;
        }))
        keys
        query
        annotations
      ≡ ok (record {
        position = position_of row keys;
        backwards = backwards;
        inclusive = inclusive;
        query = query;
      })
unfolding decode_cursor encode from_payload
decode_cursor-encode codec annotations keys row b i query law f =
    rw
      (
        law (object (some (position_of row keys)) b i (some query)),
        beq_refl query,
        missing_of-position_of keys keys row (Covers-self keys),
        coerce-position_of annotations keys keys row (Covers-self keys) f,
      )
      refl

-- A cursor issued for another ordering or filter is refused as stale, whatever it holds.
pub decode_cursor-stale :
    (codec : Codec) (annotations : Annotations) (keys : CursorKeys) (state : CursorState)
    (expected : Text)
    → ((payload : Payload) → codec.loads (codec.dumps payload) ≡ some payload)
    → (state.query == expected) ≡ false
    → decode_cursor codec (encode codec state) keys expected annotations ≡ error stale
unfolding decode_cursor encode from_payload
decode_cursor-stale codec annotations keys state expected law h =
    rw (law (object (some state.position) state.backwards state.inclusive (some state.query)), h)
      refl
