-- ===== src/Listing/Rows.antt =====
-- `compare` of sort_list orders typed rows totally, and tells apart rows of different primary keys.
use fastapi_viewsets.Prelude.{
  Text, ◌≡◌, ◌≢◌, refl, List, [], ◌∷◌, ◌++◌, Bool, true, false, Bool-cases, inl, inr, arith, All,
  list_eq, nat_eq, ◌==◌, beq-eq, beq_refl, subst,
}
use fastapi_viewsets.Listing.Values.{Ordering, less, equal, greater, lex, Record, read}
use fastapi_viewsets.Listing.Order.{
  CursorKeys, opposite, compare_in_order, compare_rows, cursor_keys, has_key,
}
use fastapi_viewsets.Listing.Sorting.{Agrees, IsOrder, IsDistinct}
use fastapi_viewsets.Listing.Keys.{
  Kind, HasKind, compare_in_order-turn, compare_in_order-Agrees, compare_in_order-equal, Agrees-lex,
  opposite-lex,
}

-- Every ordering key of the row holds a value of its field's kind.
abbrev pub IsTyped : (Text → Kind) → CursorKeys → Record → Type 0
IsTyped kinds [] row = Unit
IsTyped kinds ((name, _) ∷ keys) row = HasKind (kinds name) (read row name) × IsTyped kinds keys row

compare_rows-turn :
    (keys : CursorKeys) (n : Bool) (a b : Record)
    → compare_rows keys n b a ≡ opposite (compare_rows keys n a b)
unfolding compare_rows
compare_rows-turn [] n a b = refl
compare_rows-turn ((name, d) ∷ keys) n a b =
    rw
      (
        compare_in_order-turn (read a name) (read b name) d n,
        compare_rows-turn keys n a b,
        opposite-lex (compare_in_order (read a name) (read b name) d n) (compare_rows keys n a b),
      )
      refl

compare_rows-Agrees :
    (kinds : Text → Kind) (keys : CursorKeys) (n : Bool) (a b c : Record)
    → IsTyped kinds keys a
    → IsTyped kinds keys b
    → IsTyped kinds keys c
    → Agrees (compare_rows keys n a b) (compare_rows keys n b c) (compare_rows keys n a c)
unfolding compare_rows
compare_rows-Agrees kinds [] n a b c ha hb hc = refl
compare_rows-Agrees kinds ((name, d) ∷ keys) n a b c ha hb hc =
    Agrees-lex (compare_in_order (read a name) (read b name) d n)
      (compare_in_order (read b name) (read c name) d n)
      (compare_in_order (read a name) (read c name) d n) (compare_rows keys n a b)
      (compare_rows keys n b c) (compare_rows keys n a c)
      (compare_in_order-Agrees (kinds name) (read a name) (read b name) (read c name) d n ha.0 hb.0
        hc.0)
      (compare_rows-Agrees kinds keys n a b c ha.1 hb.1 hc.1)

-- The comparison of `sort_list` is a total order, up to ties, on rows whose keys hold one kind of
-- value each, in either direction of every key and for both placements of None.
pub compare_rows-IsOrder :
    (kinds : Text → Kind) (keys : CursorKeys) (nulls_first : Bool)
    → IsOrder (IsTyped kinds keys) (compare_rows keys nulls_first)
compare_rows-IsOrder kinds keys n = record {
  turn = compare_rows-turn keys n;
  trans = λ a b c ha hb hc. compare_rows-Agrees kinds keys n a b c ha hb hc;
}

-- Rows that tie agree on every ordering key.
abbrev pub AgreeOn : CursorKeys → Record → Record → Type 0
AgreeOn [] a b = Unit
AgreeOn ((name, _) ∷ keys) a b = (read a name ≡ read b name) × AgreeOn keys a b

lex-equal : (a b : Ordering) → lex a b ≡ equal → (a ≡ equal) × (b ≡ equal)
lex-equal less b h = ground arith
lex-equal equal b h = (refl, h)
lex-equal greater b h = ground arith

pub compare_rows-AgreeOn :
    (kinds : Text → Kind) (keys : CursorKeys) (n : Bool) (a b : Record)
    → IsTyped kinds keys a
    → IsTyped kinds keys b
    → compare_rows keys n a b ≡ equal
    → AgreeOn keys a b
unfolding compare_rows
compare_rows-AgreeOn kinds [] n a b ha hb h = tt
compare_rows-AgreeOn kinds ((name, d) ∷ keys) n a b ha hb h =
    let both =
      lex-equal (compare_in_order (read a name) (read b name) d n) (compare_rows keys n a b) h in
    (
      compare_in_order-equal (kinds name) (read a name) (read b name) d n ha.0 hb.0 both.0,
      compare_rows-AgreeOn kinds keys n a b ha.1 hb.1 both.1,
    )

AgreeOn-key :
    (keys : CursorKeys) (name : Text) (a b : Record)
    → has_key name keys ≡ true
    → AgreeOn keys a b
    → read a name ≡ read b name
AgreeOn-key [] name a b h k = ground arith
AgreeOn-key ((key, d) ∷ keys) name a b h k = elim (Bool-cases (key == name)) [
  | inl e ↦ subst (λ x. read a x ≡ read b x) (beq-eq key name e) k.0
  | inr e ↦ AgreeOn-key keys name a b (ground arith) k.1
]

has_key-last : (keys : CursorKeys) (name : Text) → has_key name (keys ++ (name, false) ∷ []) ≡ true
has_key-last [] name = rw (beq_refl name) refl
has_key-last ((key, d) ∷ keys) name = elim (Bool-cases (key == name)) [
  | inl e ↦ rw e refl
  | inr e ↦ rw (e, has_key-last keys name) refl
]

-- The primary key is among the cursor's keys, whatever the client's ordering.
pub has_key-cursor_keys : (sort : CursorKeys) (pk : Text) → has_key pk (cursor_keys sort pk) ≡ true
unfolding cursor_keys
has_key-cursor_keys sort pk = elim (Bool-cases (has_key pk sort)) [
  | inl e ↦ rw (e, e) refl
  | inr e ↦ rw (e, has_key-last sort pk) refl
]

-- No two rows have the same primary key.
abbrev pub HasUniqueKeys : Text → List Record → Type 0
HasUniqueKeys pk [] = Unit
HasUniqueKeys pk (row ∷ rows) =
    All (λ other. read row pk ≢ read other pk) rows × HasUniqueKeys pk rows

distinct_from :
    (kinds : Text → Kind) (keys : CursorKeys) (pk : Text) (n : Bool) (row : Record)
    (rows : List Record)
    → has_key pk keys ≡ true
    → IsTyped kinds keys row
    → All (IsTyped kinds keys) rows
    → All (λ other. read row pk ≢ read other pk) rows
    → All (λ other. compare_rows keys n row other ≢ equal) rows
distinct_from kinds keys pk n row [] h t ts u = tt
distinct_from kinds keys pk n row (other ∷ rows) h t ts u = (
  λ tie.
      u.0
        (AgreeOn-key keys pk row other h (compare_rows-AgreeOn kinds keys n row other t ts.0 tie)),
  distinct_from kinds keys pk n row rows h t ts.1 u.1,
)

-- With the primary key among the keys, no two rows tie.
pub unique-IsDistinct :
    (kinds : Text → Kind) (keys : CursorKeys) (pk : Text) (n : Bool) (rows : List Record)
    → has_key pk keys ≡ true
    → All (IsTyped kinds keys) rows
    → HasUniqueKeys pk rows
    → IsDistinct (compare_rows keys n) rows
unique-IsDistinct kinds keys pk n [] h ts u = tt
unique-IsDistinct kinds keys pk n (row ∷ rows) h ts u = (
  distinct_from kinds keys pk n row rows h ts.0 ts.1 u.0,
  unique-IsDistinct kinds keys pk n rows h ts.1 u.1,
)
