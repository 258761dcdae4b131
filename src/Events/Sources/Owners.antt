-- ===== src/Events/Sources/Owners.antt =====
-- Each custom topic has one owner among the declared sources of fastapi_viewsets/events/sources.py.
use fastapi_viewsets.Prelude.{
  ℕ, Text, lookup, insert, lookup-insert, list_eq, nat_eq, ◌==◌, nat_beq, if◌then◌else◌, [], ◌∷◌,
  ◌++◌, Option, none, some, Bool, true, false, ◌≡◌, refl, sym, ap, subst, ◌∙◌, arith, Bool-cases,
  Option-cases, inl, inr, beq-eq,
}
use fastapi_viewsets.Events.Topics.{
  ok, is_source_char, every, some_of, split_colon, is_viewset_topic, is_valid_topic,
  split_custom_topic, is_some, validate_topic,
}
use fastapi_viewsets.Events.Sources.{Source, Sources, source, topic_of, declared_source, IsRegistry}

not_colon : (c : ℕ) → is_source_char c ≡ true → nat_beq c b':' ≡ false
unfolding is_source_char
not_colon c h = ground arith

not_slash : (c : ℕ) → is_source_char c ≡ true → nat_beq c b'/' ≡ false
unfolding is_source_char
not_slash c h = ground arith

split_colon-source :
    (name key : Text)
    → every is_source_char name ≡ true
    → split_colon (name ++ b':' ∷ key) ≡ some (name, key)
unfolding split_colon every
split_colon-source [] key h = refl
split_colon-source (c ∷ name) key h = ground (arith, not_colon c, split_colon-source name key)

split_colon-alone : (name : Text) → every is_source_char name ≡ true → split_colon name ≡ none
unfolding split_colon every
split_colon-alone [] h = refl
split_colon-alone (c ∷ name) h = ground (arith, not_colon c, split_colon-alone name)

validate_topic-custom :
    (topic : Text) {valid : Text}
    → is_viewset_topic topic ≡ false
    → validate_topic topic ≡ ok valid
    → (valid ≡ topic) × (is_some (split_custom_topic topic) ≡ true)
unfolding validate_topic is_valid_topic
validate_topic-custom topic viewset h = ground arith

is_viewset_topic-source :
    (name rest : Text)
    → some_of is_source_char name ≡ true
    → is_viewset_topic (name ++ rest) ≡ false
unfolding is_viewset_topic some_of every
is_viewset_topic-source [] rest h = ground arith
is_viewset_topic-source (c ∷ name) rest h = ground (arith, not_slash c)

is_viewset_topic-alone :
    (name : Text) → some_of is_source_char name ≡ true → is_viewset_topic name ≡ false
unfolding is_viewset_topic some_of every
is_viewset_topic-alone [] h = ground arith
is_viewset_topic-alone (c ∷ name) h = ground (arith, not_slash c)

some_of-every : (p : ℕ → Bool) (cs : Text) → some_of p cs ≡ true → every p cs ≡ true
unfolding some_of
some_of-every p [] h = ground arith
some_of-every p (c ∷ cs) h = h

split-alone :
    (name : Text) → some_of is_source_char name ≡ true → split_custom_topic name ≡ some (name, none)
unfolding split_custom_topic
split-alone name h = ground (arith, split_colon-alone name (some_of-every is_source_char name h))

split-keyed :
    (name key : Text)
    → some_of is_source_char name ≡ true
    → is_some (split_custom_topic (name ++ b':' ∷ key)) ≡ true
    → split_custom_topic (name ++ b':' ∷ key) ≡ some (name, some key)
unfolding split_custom_topic
split-keyed name key h valid =
    ground (arith, split_colon-source name key (some_of-every is_source_char name h))

module _ {A : Type 0} where
  -- A topic that a source names splits into the source's name and the key.
  split_custom-topic_of :
      (found : Source A) (key : Option Text) (topic : Text)
      → some_of is_source_char found.name ≡ true
      → topic_of found key ≡ ok topic
      → split_custom_topic topic ≡ some (found.name, key)
  unfolding topic_of
  split_custom-topic_of found none topic named h =
      let (same, valid) =
        validate_topic-custom found.name (is_viewset_topic-alone found.name named) h in
      ap split_custom_topic same ∙ split-alone found.name named
  split_custom-topic_of found (some key) topic named h =
      let (same, valid) =
        validate_topic-custom (found.name ++ b':' ∷ key)
          (is_viewset_topic-source found.name (b':' ∷ key) named) h in
      ap split_custom_topic same ∙ split-keyed found.name key named valid

  insert-IsRegistry :
      (added : Source A) (sources : Sources A)
      → IsRegistry sources
      → some_of is_source_char added.name ≡ true
      → IsRegistry (insert added.name added sources)
  insert-IsRegistry added sources h named other found e =
      let looked = sym (lookup-insert added.name other added sources) ∙ e in
      elim (Bool-cases (added.name == other)) [
        | inl same ↦
            let here : some added ≡ some found =
              sym (ap (λ b. if b then some added else lookup other sources) same) ∙ looked in
            let name : added.name ≡ other = beq-eq added.name other same in
            let own : found.name ≡ added.name = ground (arith, here) in
            (own ∙ name, subst (λ n. some_of is_source_char n ≡ true) name named)
        | inr differs ↦
            h other found
              (sym (ap (λ b. if b then some added else lookup other sources) differs) ∙ looked)
      ]

  -- Declaring a source keeps every source under its name, which is a name of sources.
  pub source-IsRegistry :
      (name : Text) (authorizer : Option A) (sources : Sources A)
      → IsRegistry sources
      → IsRegistry (source name authorizer sources).0
  unfolding source
  source-IsRegistry name authorizer sources h = elim (Bool-cases (some_of is_source_char name)) [
    | inl named ↦ rw named (elim (Option-cases (lookup name sources)) [
      | inl absent ↦
          rw absent
            (insert-IsRegistry (record { name = name; authorizer = authorizer }) sources h named)
      | inr (other, present) ↦ rw present h
    ])
    | inr unnamed ↦ rw unnamed h
  ]

  -- No two declared sources name the same topic: its source and its key are those that it was named by.
  pub topic_of-owner :
      (sources : Sources A) (first second : Text) (one other : Source A) (key key' : Option Text)
      (topic : Text)
      → IsRegistry sources
      → declared_source first sources ≡ some one
      → declared_source second sources ≡ some other
      → topic_of one key ≡ ok topic
      → topic_of other key' ≡ ok topic
      → (first ≡ second) × (key ≡ key')
  unfolding declared_source
  topic_of-owner sources first second one other key key' topic h found found' named named' =
      let (same, first_named) = h first one found in
      let (same', second_named) = h second other found' in
      let named_so = subst (λ n. some_of is_source_char n ≡ true) (sym same) first_named in
      let named_so' = subst (λ n. some_of is_source_char n ≡ true) (sym same') second_named in
      let split = split_custom-topic_of one key topic named_so named in
      let split' = split_custom-topic_of other key' topic named_so' named' in
      let parts : some (one.name, key) ≡ some (other.name, key') = sym split ∙ split' in
      let names : one.name ≡ other.name = ground (arith, parts) in
      let keys : key ≡ key' = ground (arith, parts) in (sym same ∙ names ∙ same', keys)
