-- ===== src/Events/Sources.antt =====
-- The declared sources of custom topics: `Source`, `source`, `declared_source` and `reset_sources` of
-- fastapi_viewsets/events/sources.py. A key is the text that the topic's f-string writes for it.
pub mod Owners
mod Examples
use fastapi_viewsets.Prelude.{
  Text, Dict, lookup, insert, list_eq, nat_eq, if◌then◌else◌, [], ◌∷◌, ◌++◌, Option, none, some,
  Bool, true, false, ◌≡◌,
}
use fastapi_viewsets.Events.Topics.{
  Checked, ok, value_error, is_source_char, some_of, validate_topic,
}

-- `Source`, with an authorizer of type `A`
pub record Source (A : Type 0) : Type 0 where
  pub name : Text
  pub authorizer : Option A

-- `_sources`
abbrev pub Sources : Type 0 → Type 0
Sources A = Dict Text (Source A)

module _ {A : Type 0} where
  -- `Source.__init__` past the check of the name, by what is declared under it
  abbrev pub register : Option (Source A) → Source A → Sources A → Sources A × Checked (Source A)
  register none source sources = (insert source.name source sources, ok source)
  register (some other) source sources = (sources, value_error)

  -- `source`, `Source.__init__`
  unfoldable pub source : Text → Option A → Sources A → Sources A × Checked (Source A)
  source name authorizer sources =
      if some_of is_source_char name
      then register (lookup name sources) (record { name = name; authorizer = authorizer }) sources
      else (sources, value_error)

  -- `Source.topic`
  unfoldable pub topic_of : Source A → Option Text → Checked Text
  topic_of source none = validate_topic source.name
  topic_of source (some key) = validate_topic (source.name ++ b':' ∷ key)

  -- `declared_source`
  unfoldable pub declared_source : Text → Sources A → Option (Source A)
  declared_source name sources = lookup name sources

  -- `reset_sources`
  abbrev pub reset_sources : Sources A → Sources A
  reset_sources sources = []

  -- Every source is declared under its name, and the name is one of a source.
  abbrev pub IsRegistry : Sources A → Type 0
  IsRegistry sources =
      (name : Text) (found : Source A)
      → lookup name sources ≡ some found
      → (found.name ≡ name) × (some_of is_source_char name ≡ true)
