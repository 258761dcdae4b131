-- ===== src/Events/Authorizers.antt =====
-- fastapi_viewsets/events/authorizers.py: the decision on a topic (`authorize_topic`), and the authorizers
-- that look at no route (`allow_all`, `allow_authenticated`, `DeclaredSources`). `E` is the type of the
-- exceptions that an application's authorizer raises.
use fastapi_viewsets.Prelude.{
  Text, Bool, if◌then◌else◌, Option, none, some, List, [], ◌∷◌, ◌≡◌, refl, arith,
}
use fastapi_viewsets.Events.Topics.{split_custom_topic}
use fastapi_viewsets.Events.Sources.{Source, Sources, declared_source}

-- What an authorizer comes to: True, False, None, or an exception.
pub data Decision (E : Type 0) : Type 0 where
  admits refuses abstains : Decision E
  raises : E → Decision E

-- What a check of a topic comes to, where it may raise.
pub data Gated (E : Type 0) (A : Type 0) : Type 0 where
  ok : A → Gated E A
  -- `EventTopicRefusedError`, `EventScopeMissingError`
  topic_refused scope_missing : Gated E A
  raised : E → Gated E A

module _ {E : Type 0} where
  -- one turn of the loop of `authorize_topic`, with the outcome of the later turns
  abbrev pub decided : Decision E → Gated E (Unit {0}) → Gated E (Unit {0})
  decided admits later = ok tt
  decided refuses later = topic_refused
  decided abstains later = later
  decided (raises error) later = raised error

  -- `authorize_topic`
  unfoldable pub authorize_topic : List (Text → Decision E) → Text → Gated E (Unit {0})
  authorize_topic [] topic = topic_refused
  authorize_topic (authorizer ∷ authorizers) topic =
      decided (authorizer topic) (authorize_topic authorizers topic)

  -- `allow_all`
  unfoldable pub allow_all : Text → Decision E
  allow_all topic = admits

  -- `allow_authenticated`; `user` is whether `await context.user` is truthy, none without a `user`
  unfoldable pub allow_authenticated : Option Bool → Text → Decision E
  allow_authenticated none topic = abstains
  allow_authenticated (some user) topic = if user then admits else abstains

  abbrev pub asked : Option (Source (Text → Decision E)) → Text → Decision E
  asked none topic = abstains
  asked (some source) topic = elim source.authorizer [
    | none ↦ abstains
    | some authorizer ↦ authorizer topic
  ]

  -- `DeclaredSources.__call__`
  unfoldable pub declared_sources : Sources (Text → Decision E) → Text → Decision E
  declared_sources sources topic = elim (split_custom_topic topic) [
    | none ↦ abstains
    | some (name, key) ↦ asked (declared_source name sources) topic
  ]

  -- Some authorizer admits the topic, and each one before it abstains.
  pub data Admits (topic : Text) : List (Text → Decision E) → Type 0 where
    here :
        {a : Text → Decision E} {later : List (Text → Decision E)}
        → a topic ≡ admits
        → Admits topic (a ∷ later)
    there :
        {a : Text → Decision E} {later : List (Text → Decision E)}
        → a topic ≡ abstains
        → Admits topic later
        → Admits topic (a ∷ later)

  decided-Admits :
      (a : Text → Decision E) (later : List (Text → Decision E)) (topic : Text)
      (decision : Decision E)
      → a topic ≡ decision
      → (authorize_topic later topic ≡ ok tt → Admits topic later)
      → decided decision (authorize_topic later topic) ≡ ok tt
      → Admits topic (a ∷ later)
  decided-Admits a later topic admits e ih h = here e
  decided-Admits a later topic refuses e ih h = ground arith
  decided-Admits a later topic abstains e ih h = there e (ih h)
  decided-Admits a later topic (raises error) e ih h = ground arith

  -- A topic passes only where an authorizer admits it to which every earlier one left the decision.
  pub authorize_topic-Admits :
      (authorizers : List (Text → Decision E)) (topic : Text)
      → authorize_topic authorizers topic ≡ ok tt
      → Admits topic authorizers
  unfolding authorize_topic
  authorize_topic-Admits [] topic h = ground arith
  authorize_topic-Admits (a ∷ later) topic h =
      decided-Admits a later topic (a topic) refl (authorize_topic-Admits later topic) h

  pub Admits-authorize_topic :
      (authorizers : List (Text → Decision E)) (topic : Text)
      → Admits topic authorizers
      → authorize_topic authorizers topic ≡ ok tt
  unfolding authorize_topic
  Admits-authorize_topic [] topic h = elim h [ ]
  Admits-authorize_topic (a ∷ later) topic (here e) = rw e refl
  Admits-authorize_topic (a ∷ later) topic (there e more) =
      rw e (Admits-authorize_topic later topic more)
