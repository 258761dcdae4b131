-- ===== src/Events/Topics.antt =====
-- fastapi_viewsets/events/topics.py: the forms of topics, matched in full by regular expressions.
-- A topic is the list of its code points.
pub mod Forms
pub mod Examples
use fastapi_viewsets.Prelude.{
  ℕ, Text, text, List, [], ◌∷◌, ◌++◌, Option, none, some, Bool, true, false, not, ◌&&◌, ◌||◌, leb,
  nat_beq, if◌then◌else◌,
}

-- What a function that may raise answers.
pub data Checked {ℓ} (A : Type ℓ) : Type ℓ where
  ok : A → Checked A
  value_error type_error : Checked A

-- `\s` of a Unicode pattern: the code points for which `str.isspace` answers true.
unfoldable pub is_space : ℕ → Bool
is_space c =
    (leb 9 c && leb c 13)
    || (leb 28 c && leb c 32)
    || nat_beq c 0x85
    || nat_beq c 0xa0
    || nat_beq c 0x1680
    || (leb 0x2000 c && leb c 0x200a)
    || nat_beq c 0x2028
    || nat_beq c 0x2029
    || nat_beq c 0x202f
    || nat_beq c 0x205f
    || nat_beq c 0x3000

-- `[^\s\x00-\x1f\x7f]`
unfoldable pub is_key_char : ℕ → Bool
is_key_char c = not (is_space c || leb c 31 || nat_beq c 127)

-- `[^\s\x00-\x1f\x7f:]`
unfoldable pub is_scope_char : ℕ → Bool
is_scope_char c = is_key_char c && not (nat_beq c b':')

-- `[a-z0-9_.-]`
unfoldable pub is_source_char : ℕ → Bool
is_source_char c =
    (leb b'a' c && leb c b'z')
    || (leb b'0' c && leb c b'9')
    || nat_beq c b'_'
    || nat_beq c b'.'
    || nat_beq c b'-'

-- `p*`, matched in full
unfoldable pub every : (ℕ → Bool) → Text → Bool
every p [] = true
every p (c ∷ cs) = p c && every p cs

-- `p+`, matched in full
unfoldable pub some_of : (ℕ → Bool) → Text → Bool
some_of p [] = false
some_of p (c ∷ cs) = every p (c ∷ cs)

-- The parts of a text before and after its first `:`; none without one.
unfoldable pub split_colon : Text → Option (Text × Text)
split_colon [] = none
split_colon (c ∷ cs) =
    let rest = split_colon cs in
    if nat_beq c b':'
    then some ([], cs)
    else elim rest [ none ↦ none | some (before, after) ↦ some (c ∷ before, after) ]

-- `is_viewset_topic`, `_VIEWSET_TOPIC`
unfoldable pub is_viewset_topic : Text → Bool
is_viewset_topic [] = false
is_viewset_topic (c ∷ cs) = nat_beq c b'/' && every is_key_char cs

-- `split_custom_topic`, `_CUSTOM_TOPIC`: a source name holds no `:`, so the first one ends it
unfoldable pub split_custom_topic : Text → Option (Text × Option Text)
split_custom_topic topic = elim (split_colon topic) [
  | none ↦ if some_of is_source_char topic then some (topic, none) else none
  | some (name, key) ↦
      if some_of is_source_char name && some_of is_key_char key then some (name, some key) else none
]

abbrev pub is_some {ℓ} : {A : Type ℓ} → Option A → Bool
is_some none = false
is_some (some _) = true

-- `is_valid_topic`
unfoldable pub is_valid_topic : Text → Bool
is_valid_topic topic = is_viewset_topic topic || is_some (split_custom_topic topic)

-- `validate_topic`
unfoldable pub validate_topic : Text → Checked Text
validate_topic topic = if is_valid_topic topic then ok topic else value_error

-- `split_scoped_topic`, `_SCOPED_TOPIC`: a scope name holds no `:`, so the first one ends it
unfoldable pub split_scoped_topic : Text → Option (Text × Text)
split_scoped_topic [] = none
split_scoped_topic (c ∷ topic) =
    if nat_beq c b'@'
    then elim (split_colon topic) [
      | none ↦ none
      | some (name, key) ↦
          if some_of is_scope_char name && some_of is_key_char key then some (name, key) else none
    ]
    else none

-- `is_scoped_topic`
unfoldable pub is_scoped_topic : Text → Bool
is_scoped_topic topic = is_some (split_scoped_topic topic)

-- `_scope_name`
unfoldable pub scope_name : Text → Checked Text
scope_name name = if some_of is_scope_char name then ok name else value_error

-- A scope key as a resolver may answer it: a `str`, an `int` with its decimal text, or another type.
pub data ScopeKey : Type 0 where
  str int : Text → ScopeKey
  other : ScopeKey

-- `_scope_key_text`
unfoldable pub scope_key_text : ScopeKey → Checked Text
scope_key_text (str key) = if some_of is_key_char key then ok key else value_error
scope_key_text (int key) = if some_of is_key_char key then ok key else value_error
scope_key_text other = type_error

infixl 5 ◌>>=◌
abbrev pub ◌>>=◌ {ℓ κ} : {A : Type ℓ} {B : Type κ} → Checked A → (A → Checked B) → Checked B
ok a >>= f = f a
value_error >>= f = value_error
type_error >>= f = type_error

-- `scoped_topic`
unfoldable pub scoped_topic : Text → ScopeKey → Checked Text
scoped_topic name key = do
  name' ← scope_name name
  key' ← scope_key_text key
  ok (b'@' ∷ (name' ++ b':' ∷ key'))

-- `_validate_published_topic`
unfoldable pub validate_published_topic : Text → Checked Text
validate_published_topic topic =
    if is_valid_topic topic || is_scoped_topic topic then ok topic else value_error

-- Everything above, for tests.
unfoldable pub topics_program : Unit {0}
unfolding is_space is_key_char is_scope_char is_source_char every some_of split_colon
    is_viewset_topic split_custom_topic is_valid_topic validate_topic split_scoped_topic
    is_scoped_topic scope_name scope_key_text scoped_topic validate_published_topic
topics_program = tt
