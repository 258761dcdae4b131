-- ===== src/Events/Topics/Forms.antt =====
-- How the forms of topics relate: scoped topics are built and split inversely, and are never topics
-- that a client can name.
use fastapi_viewsets.Prelude.{
  ℕ, Text, [], ◌∷◌, ◌++◌, some, Bool, true, false, nat_beq, ◌≡◌, refl, arith, Option-cases, inl,
  inr,
}
use fastapi_viewsets.Events.Topics.{
  ok, is_key_char, is_scope_char, is_source_char, every, some_of, split_colon, is_viewset_topic,
  is_valid_topic, split_custom_topic, split_scoped_topic, is_scoped_topic, ScopeKey, str, int,
  other, scope_name, scope_key_text, scoped_topic,
}

not_colon : (c : ℕ) → is_scope_char c ≡ true → nat_beq c b':' ≡ false
unfolding is_scope_char
not_colon c h = ground arith

split_colon-append :
    (name key : Text)
    → every is_scope_char name ≡ true
    → split_colon (name ++ b':' ∷ key) ≡ some (name, key)
unfolding split_colon every
split_colon-append [] key h = refl
split_colon-append (c ∷ name) key h = ground (arith, not_colon c, split_colon-append name key)

some_of-every : (p : ℕ → Bool) (cs : Text) → some_of p cs ≡ true → every p cs ≡ true
unfolding some_of every
some_of-every p [] h = ground arith
some_of-every p (c ∷ cs) h = h

scope_key_text_ok :
    (key : ScopeKey) {k : Text} → scope_key_text key ≡ ok k → some_of is_key_char k ≡ true
unfolding scope_key_text
scope_key_text_ok (str key) h = ground arith
scope_key_text_ok (int key) h = ground arith
scope_key_text_ok other h = ground arith

scoped_topic_ok :
    (name : Text) (key : ScopeKey) {k topic : Text}
    → scope_key_text key ≡ ok k
    → scoped_topic name key ≡ ok topic
    → (some_of is_scope_char name ≡ true) × (topic ≡ b'@' ∷ (name ++ b':' ∷ k))
unfolding scoped_topic scope_name
scoped_topic_ok name key h built = ground arith

-- A scoped topic that `scoped_topic` builds splits into the name and the key it was built from.
pub split_scoped-scoped_topic :
    (name : Text) (key : ScopeKey) {k topic : Text}
    → scope_key_text key ≡ ok k
    → scoped_topic name key ≡ ok topic
    → split_scoped_topic topic ≡ some (name, k)
unfolding split_scoped_topic
split_scoped-scoped_topic name key {k} h built =
    let (named, same) = scoped_topic_ok name key h built in
    rw same (
      ground (
        arith,
        scope_key_text_ok key h,
        split_colon-append name k (some_of-every is_scope_char name named),
      ))

split_colon_joins :
    (topic : Text) {name key : Text}
    → split_colon topic ≡ some (name, key)
    → topic ≡ name ++ b':' ∷ key
unfolding split_colon
split_colon_joins [] h = ground arith
split_colon_joins (c ∷ cs) h = elim (Option-cases (split_colon cs)) [
  | inl missing ↦ ground arith
  | inr (parts, found) ↦ ground (arith, split_colon_joins cs {name = parts.0} {key = parts.1} found)
]

-- Only the topics that `scoped_topic` builds are split as scoped topics.
pub scoped-split_scoped_topic :
    (topic name key : Text)
    → split_scoped_topic topic ≡ some (name, key)
    → scoped_topic name (str key) ≡ ok topic
unfolding split_scoped_topic scoped_topic scope_name scope_key_text
scoped-split_scoped_topic [] name key h = ground arith
scoped-split_scoped_topic (c ∷ topic) name key h =
    ground (arith, split_colon_joins topic {name = name} {key = key})

-- No topic has both a client's form and the scoped form: a client cannot name a scoped store topic.
pub scoped_not_valid : (topic : Text) → is_scoped_topic topic ≡ true → is_valid_topic topic ≡ false
unfolding is_scoped_topic split_scoped_topic is_valid_topic is_viewset_topic split_custom_topic
    split_colon some_of every is_source_char
scoped_not_valid [] h = ground arith
scoped_not_valid (c ∷ topic) h = ground arith
