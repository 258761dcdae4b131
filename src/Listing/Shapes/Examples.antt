-- ===== src/Listing/Shapes/Examples.antt =====
-- Declared list shapes at concrete names.
use fastapi_viewsets.Prelude.{Text, text, List, [], ◌∷◌, Option, none, some, ◌≡◌, refl}
use fastapi_viewsets.Listing.Shapes.{
  IsOffer, or_settings, resolve_shapes, resolve_shapes-IsOffer, resolved, unknown_shape,
  unknown_shapes,
}

abbrev default : Option Text
default = some (text "cursor")

abbrev allowed : Option (List Text)
allowed = some (text "plain" ∷ text "cursor" ∷ [])

abbrev shapes : List Text
shapes = text "cursor" ∷ text "plain" ∷ []

resolves : resolve_shapes default allowed (text "plain") ≡ resolved (text "cursor") shapes
unfolding resolve_shapes
resolves = refl

-- A default that is not among the allowed shapes is offered too.
added :
    resolve_shapes none (some (text "cursor" ∷ [])) (text "plain")
    ≡ resolved (text "plain") (text "plain" ∷ text "cursor" ∷ [])
unfolding resolve_shapes
added = refl

unknown :
    resolve_shapes default (some (text "table" ∷ [])) (text "plain")
    ≡ unknown_shapes (text "table" ∷ [])
unfolding resolve_shapes
unknown = refl

unknown_default : resolve_shapes none none (text "table") ≡ unknown_shape (text "table")
unfolding resolve_shapes
unknown_default = refl

resolve_shapes-IsOffer_example :
    (text "cursor" ≡ or_settings default (text "plain"))
    × IsOffer (or_settings default (text "plain")) allowed shapes
resolve_shapes-IsOffer_example =
    resolve_shapes-IsOffer default allowed (text "plain") (text "cursor") shapes resolves
