-- ===== src/Filters.antt =====
-- fastapi_viewsets/filters: the built-in operators with their in-memory tests (operators.py, base.py).
-- `Shown` is what `str()` and `str.lower()` make of a value, by Unicode's tables.
pub mod Parameters
pub mod Compilers
pub mod Declared
pub mod Compiled
pub mod Examples
use fastapi_viewsets.Prelude.{
  ℕ, Text, text, Dict, lookup, insert, list_eq, nat_eq, ◌==◌, nat_beq, if◌then◌else◌, contains,
  List, [], ◌∷◌, ◌++◌, Option, none, some, Bool, true, false, ◌&&◌, ◌||◌, not,
}
use fastapi_viewsets.Listing.Values.{
  Value, null, pos, negsuc, str, Ordering, less, equal, greater, compare_values,
}

-- The built-in operators, in the order of their registration.
pub data Operator : Type 0 where
  exact iexact contains_ icontains startswith gt gte lt lte in_ isnull overlaps : Operator

-- `_REGISTERED`
abbrev pub registered : Dict Text Operator
registered =
    (text "exact", exact)
    ∷ (text "iexact", iexact)
    ∷ (text "contains", contains_)
    ∷ (text "icontains", icontains)
    ∷ (text "startswith", startswith)
    ∷ (text "gt", gt)
    ∷ (text "gte", gte)
    ∷ (text "lt", lt)
    ∷ (text "lte", lte)
    ∷ (text "in", in_)
    ∷ (text "isnull", isnull)
    ∷ (text "overlaps", overlaps)
    ∷ []

-- `operator_for`; none for its `KeyError`
unfoldable pub operator_for : Text → Option Operator
operator_for name = lookup name registered

-- A field's or a filter's value: one value, or a list of them. The flag of `isnull` is 0 or 1.
pub data Operand : Type 0 where
  one : Value → Operand
  many : List Value → Operand

-- `Filter`
pub record Filter : Type 0 where
  pub operator : Operator
  pub field : Text
  pub value : Operand

abbrev pub value_beq : Value → Value → Bool
value_beq null null = true
value_beq (pos a) (pos b) = nat_beq a b
value_beq (negsuc a) (negsuc b) = nat_beq a b
value_beq (str a) (str b) = a == b
value_beq _ _ = false

abbrev pub values_beq : List Value → List Value → Bool
values_beq [] [] = true
values_beq [] (b ∷ ys) = false
values_beq (a ∷ xs) [] = false
values_beq (a ∷ xs) (b ∷ ys) = value_beq a b && values_beq xs ys

abbrev pub operand_beq : Operand → Operand → Bool
operand_beq (one a) (one b) = value_beq a b
operand_beq (many xs) (many ys) = values_beq xs ys
operand_beq _ _ = false

abbrev pub member : Value → List Value → Bool
member a [] = false
member a (b ∷ ys) = value_beq a b || member a ys

-- `bool(set(actual) & set(self.value))`
abbrev pub shares : List Value → List Value → Bool
shares [] bs = false
shares (a ∷ xs) bs = member a bs || shares xs bs

-- `text.startswith(prefix)`
abbrev pub starts_with : Text → Text → Bool
starts_with text [] = true
starts_with [] (p ∷ ps) = false
starts_with (c ∷ cs) (p ∷ ps) = nat_beq c p && starts_with cs ps

-- `part in text`
unfoldable pub is_part : Text → Text → Bool
is_part part [] = starts_with [] part
is_part part (c ∷ cs) = starts_with (c ∷ cs) part || is_part part cs

abbrev pub Fields : Type 0
Fields = Dict Text Operand

abbrev pub or_none : Option Operand → Operand
or_none none = one null
or_none (some value) = value

-- `Filter.read`
unfoldable pub read_field : Fields → Text → Operand
read_field record_ name = or_none (lookup name record_)

abbrev pub is_none : Operand → Bool
is_none (one null) = true
is_none other = false

-- `bool(self.value)`
abbrev pub truthy : Operand → Bool
truthy (one null) = false
truthy (one (pos n)) = not (nat_beq n 0)
truthy (one (negsuc n)) = true
truthy (one (str [])) = false
truthy (one (str (c ∷ cs))) = true
truthy (many []) = false
truthy (many (v ∷ vs)) = true

pub record Shown : Type 0 where
  pub show : Operand → Text
  pub lower : Text → Text

abbrev pub is_greater : Ordering → Bool
is_greater greater = true
is_greater other = false

abbrev pub is_less : Ordering → Bool
is_less less = true
is_less other = false

abbrev pub tested : (Ordering → Bool) → Option Ordering → Option Bool
tested test none = none
tested test (some order) = some (test order)

-- `actual > self.value` and its like; none for a `TypeError`
abbrev pub ordered : (Ordering → Bool) → Operand → Operand → Option Bool
ordered test (one null) value = some false
ordered test (one actual) (one value) = tested test (compare_values actual value)
ordered test (one actual) (many values) = none
ordered test (many actual) value = none

-- `self.read(record) in (self.value or ())`; a text as the value is not modelled
abbrev pub is_in : Operand → Operand → Option Bool
is_in (one actual) (many values) = some (member actual values)
is_in (many actual) (many values) = some false
is_in actual (one value) = if truthy (one value) then none else some false

abbrev pub overlapping : Operand → Operand → Option Bool
overlapping (one null) value = some false
overlapping actual (one null) = some false
overlapping (many actual) (many values) = some (shares actual values)
overlapping actual value = none

-- `matches` of each operator on the field's value; none for a `TypeError`
unfoldable pub passes : Shown → Operator → Operand → Operand → Option Bool
unfolding is_part
passes shown exact actual value = some (operand_beq actual value)
passes shown iexact actual value =
    some
      (not (is_none actual) && (shown.lower (shown.show actual) == shown.lower (shown.show value)))
passes shown contains_ actual value =
    some (not (is_none actual) && is_part (shown.show value) (shown.show actual))
passes shown icontains actual value = some (
    not (is_none actual)
    && is_part (shown.lower (shown.show value)) (shown.lower (shown.show actual)))
passes shown startswith actual value =
    some (not (is_none actual) && starts_with (shown.show actual) (shown.show value))
passes shown gt actual value = ordered is_greater actual value
passes shown gte actual value = ordered (λ o. not (is_less o)) actual value
passes shown lt actual value = ordered is_less actual value
passes shown lte actual value = ordered (λ o. not (is_greater o)) actual value
passes shown in_ actual value = is_in actual value
passes shown isnull actual value =
    some (if is_none actual then truthy value else not (truthy value))
passes shown overlaps actual value = overlapping actual value

-- `matches`
unfoldable pub matches_filter : Shown → Filter → Fields → Option Bool
unfolding passes read_field
matches_filter shown f record_ = passes shown f.operator (read_field record_ f.field) f.value

abbrev pub and_also : Option Bool → Option Bool → Option Bool
and_also none later = none
and_also (some false) later = some false
and_also (some true) later = later

-- `FilterSet.matches`
unfoldable pub matches_set : Shown → List Filter → Fields → Option Bool
unfolding matches_filter
matches_set shown [] record_ = some true
matches_set shown (f ∷ filters) record_ =
    and_also (matches_filter shown f record_) (matches_set shown filters record_)
