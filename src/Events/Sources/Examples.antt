-- ===== src/Events/Sources/Examples.antt =====
-- Declared sources at concrete names.
use fastapi_viewsets.Prelude.{
  ℕ, Text, text, list_eq, nat_eq, lookup, insert, [], none, some, ◌≡◌, refl, arith,
}
use fastapi_viewsets.Events.Topics.{ok, value_error, topics_program}
use fastapi_viewsets.Events.Sources.{Sources, source, topic_of, declared_source, IsRegistry}
use fastapi_viewsets.Events.Sources.Owners.{source-IsRegistry, topic_of-owner}

abbrev orders : Text
orders = text "orders"

abbrev none_declared : Sources ℕ
none_declared = []

abbrev sources : Sources ℕ
sources = (source (text "stock.eu") (some 1) (source orders none none_declared).0).0

none_declared-IsRegistry : IsRegistry none_declared
unfolding lookup
none_declared-IsRegistry name found e = ground arith

sources-IsRegistry : IsRegistry sources
sources-IsRegistry =
    source-IsRegistry (text "stock.eu") (some 1) (source orders none none_declared).0
      (source-IsRegistry orders none none_declared none_declared-IsRegistry)

declared : declared_source orders sources ≡ some (record { name = orders; authorizer = none })
unfolding declared_source source topics_program lookup insert
declared = refl

twice : source orders (some 2) sources ≡ (sources, value_error)
unfolding source topics_program lookup insert
twice = refl

keyed :
    topic_of {A = ℕ} (record { name = orders; authorizer = none }) (some (text "7"))
    ≡ ok (text "orders:7")
unfolding topic_of topics_program
keyed = refl

topic_of-owner_example : (orders ≡ orders) × (some (text "7") ≡ some (text "7"))
topic_of-owner_example =
    topic_of-owner sources orders orders (record { name = orders; authorizer = none })
      (record { name = orders; authorizer = none }) (some (text "7")) (some (text "7"))
      (text "orders:7") sources-IsRegistry declared declared keyed keyed
