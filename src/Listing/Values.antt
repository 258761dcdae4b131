-- ===== src/Listing/Values.antt =====
-- Values of a record's fields, with the comparisons that Python makes on them. A record is a dict of
-- its fields: `_read` of cursor.py and `Filter.read` of filters/base.py answer None for an absent one.
use fastapi_viewsets.Prelude.{
  ℕ, Text, Dict, lookup, list_eq, nat_eq, ltb, nat_beq, if◌then◌else◌, [], ◌∷◌, Option, none, some,
}

-- None, an `int` (`negsuc n` is -(n + 1)), or a `str`.
pub data Value : Type 0 where
  null : Value
  pos negsuc : ℕ → Value
  str : Text → Value

pub data Ordering : Type 0 where
  less equal greater : Ordering

abbrev pub compare_ℕ : ℕ → ℕ → Ordering
compare_ℕ a b = if ltb a b then less else if nat_beq a b then equal else greater

-- The first comparison that tells apart decides.
abbrev pub lex : Ordering → Ordering → Ordering
lex less rest = less
lex equal rest = rest
lex greater rest = greater

-- Lexicographic comparison of texts by code points.
unfoldable pub compare_text : Text → Text → Ordering
compare_text [] [] = equal
compare_text [] (d ∷ ds) = less
compare_text (c ∷ cs) [] = greater
compare_text (c ∷ cs) (d ∷ ds) = lex (compare_ℕ c d) (compare_text cs ds)

-- `<` and `>` of two values together; none where Python raises `TypeError`.
unfoldable pub compare_values : Value → Value → Option Ordering
unfolding compare_text
compare_values (pos a) (pos b) = some (compare_ℕ a b)
compare_values (pos a) (negsuc b) = some greater
compare_values (negsuc a) (pos b) = some less
compare_values (negsuc a) (negsuc b) = some (compare_ℕ b a)
compare_values (str a) (str b) = some (compare_text a b)
compare_values _ _ = none

abbrev pub Record : Type 0
Record = Dict Text Value

abbrev pub or_null : Option Value → Value
or_null none = null
or_null (some v) = v

-- `_read`, `Filter.read`
unfoldable pub read : Record → Text → Value
read row name = or_null (lookup name row)
