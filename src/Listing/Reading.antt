-- ===== src/Listing/Reading.antt =====
-- What the cursor's predicate and the reversed ordering read: fastapi_viewsets/cursor.py
-- (`CursorPredicate.matches`, `compare_in_order`) and `_prepare_cursor` of fastapi_viewsets/mixins.py.
use fastapi_viewsets.Prelude.{
  ◌≡◌, refl, List, [], ◌∷◌, Bool, true, false, not, All, reverse, arith, ap, ◌∙◌, fun_ext, Text,
}
use fastapi_viewsets.Listing.Values.{Value, Ordering, less, equal, greater, lex, Record, read}
use fastapi_viewsets.Listing.Order.{
  CursorKeys, CursorPredicate, opposite, compare_in_order, compare_rows, matches_keys, matches,
  position_of, sorted, has_key, sort_list,
}
use fastapi_viewsets.Listing.Sorting.{IsStrict, sorted-IsStrict}
use fastapi_viewsets.Listing.Keys.{Kind, compare_in_order-down, opposite-lex}
use fastapi_viewsets.Listing.Rows.{IsTyped, HasUniqueKeys, compare_rows-IsOrder, unique-IsDistinct}
use fastapi_viewsets.Listing.Cuts.{verdict, sorted-opposite}
use fastapi_viewsets.Listing.Cursors.{make_predicate}
use fastapi_viewsets.Listing.RoundTrip.{Covers, Covers-self, read-position_of}
use fastapi_viewsets.Listing.Pages.{directed_keys, unlike}

verdict-lex :
    (b i : Bool) (first rest : Ordering)
    → verdict b (verdict b i rest) first ≡ verdict b i (lex first rest)
verdict-lex b i less rest = refl
verdict-lex b i equal rest = refl
verdict-lex b i greater rest = refl

matches_keys-verdict :
    (keys : CursorKeys) (p : CursorPredicate) (row : Record) (a : Record)
    → All (λ key. read p.position key.0 ≡ read a key.0) keys
    → matches_keys keys p row
      ≡ verdict p.backwards p.inclusive (compare_rows keys p.nulls_first row a)
unfolding matches_keys compare_rows
matches_keys-verdict [] p row a h = refl
matches_keys-verdict ((name, d) ∷ keys) p row a h =
    let o = λ (v : Value). compare_in_order (read row name) v d p.nulls_first in
    ap (λ rest. verdict p.backwards rest (o (read p.position name)))
      (matches_keys-verdict keys p row a h.1)
    ∙ ap
        (λ v.
          verdict p.backwards
            (verdict p.backwards p.inclusive (compare_rows keys p.nulls_first row a)) (o v))
        h.0
    ∙ verdict-lex p.backwards p.inclusive (o (read a name)) (compare_rows keys p.nulls_first row a)

position_agrees :
    (all keys : CursorKeys) (row : Record)
    → Covers all keys
    → All (λ key. read (position_of row all) key.0 ≡ read row key.0) keys
position_agrees all [] row h = tt
position_agrees all ((name, d) ∷ keys) row h =
    (read-position_of all row name h.0, position_agrees all keys row h.1)

-- The predicate made of the position of a row tells how a row compares with that row in sort order.
pub matches-verdict :
    (keys : CursorKeys) (a row : Record) (backwards inclusive nulls_first : Bool) (query : Text)
    → matches
        (make_predicate
          (record {
            position = position_of a keys;
            backwards = backwards;
            inclusive = inclusive;
            query = query;
          })
          keys
          nulls_first)
        row
      ≡ verdict backwards inclusive (compare_rows keys nulls_first row a)
unfolding matches make_predicate
matches-verdict keys a row b i n query =
    matches_keys-verdict keys
      (record {
        keys = keys;
        position = position_of a keys;
        backwards = b;
        inclusive = i;
        nulls_first = n;
      })
      row a (position_agrees keys keys a (Covers-self keys))

compare_in_order-not :
    (a b : Value) (d n : Bool)
    → compare_in_order a b (not d) n ≡ opposite (compare_in_order a b d n)
compare_in_order-not a b false n = compare_in_order-down a b n
compare_in_order-not a b true n = ground (arith, compare_in_order-down a b n)

unlike-true : (d : Bool) → unlike d true ≡ not d
unlike-true false = refl
unlike-true true = refl

unlike-false : (d : Bool) → unlike d false ≡ d
unlike-false false = refl
unlike-false true = refl

compare_rows-directed :
    (keys : CursorKeys) (n : Bool) (a b : Record)
    → compare_rows (directed_keys true keys) n a b ≡ opposite (compare_rows keys n a b)
unfolding compare_rows directed_keys
compare_rows-directed [] n a b = refl
compare_rows-directed ((name, d) ∷ keys) n a b =
    rw
      (
        unlike-true d,
        compare_in_order-not (read a name) (read b name) d n,
        compare_rows-directed keys n a b,
        opposite-lex (compare_in_order (read a name) (read b name) d n) (compare_rows keys n a b),
      )
      refl

pub directed_keys-false : (keys : CursorKeys) → directed_keys false keys ≡ keys
unfolding directed_keys
directed_keys-false [] = refl
directed_keys-false ((name, d) ∷ keys) = rw (unlike-false d, directed_keys-false keys) refl

-- Sorting by the reversed ordering reverses the list, where no two rows tie.
pub sort_list-directed :
    (kinds : Text → Kind) (keys : CursorKeys) (pk : Text) (nulls_first : Bool) (rows : List Record)
    → has_key pk keys ≡ true
    → All (IsTyped kinds keys) rows
    → HasUniqueKeys pk rows
    → sort_list (directed_keys true keys) nulls_first rows
      ≡ reverse (sort_list keys nulls_first rows)
unfolding sort_list
sort_list-directed kinds keys pk n rows has typed unique =
    let turned = fun_ext (λ a. fun_ext (λ b. compare_rows-directed keys n a b)) in
    ap (λ order. sorted order rows) turned
    ∙ sorted-opposite (compare_rows keys n) (IsTyped kinds keys) (compare_rows-IsOrder kinds keys n)
        rows typed (unique-IsDistinct kinds keys pk n rows has typed unique)

-- The sorted rows come each strictly before all later ones, where no two rows tie.
pub sort_list-IsStrict :
    (kinds : Text → Kind) (keys : CursorKeys) (pk : Text) (nulls_first : Bool) (rows : List Record)
    → has_key pk keys ≡ true
    → All (IsTyped kinds keys) rows
    → HasUniqueKeys pk rows
    → IsStrict (compare_rows keys nulls_first) (sort_list keys nulls_first rows)
unfolding sort_list
sort_list-IsStrict kinds keys pk n rows has typed unique =
    sorted-IsStrict (compare_rows keys n) (IsTyped kinds keys) (compare_rows-IsOrder kinds keys n)
      rows typed (unique-IsDistinct kinds keys pk n rows has typed unique)
