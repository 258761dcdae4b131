-- ===== src/Listing/Paginated/Examples.antt =====
-- Pages of `apply_pagination` of fastapi_viewsets/mixins.py at concrete rows.
use fastapi_viewsets.Prelude.{ℕ, List, [], ◌∷◌, some, arith, ◌≡◌}
use fastapi_viewsets.Listing.Paginated.{read_pages, read_pages-drop}

abbrev rows : List ℕ
rows = 10 ∷ 20 ∷ 30 ∷ 40 ∷ 50 ∷ []

read_pages-drop_example : read_pages 2 rows 5 1 ≡ some (20 ∷ 30 ∷ 40 ∷ 50 ∷ [])
read_pages-drop_example = read_pages-drop 2 rows 5 1 (omega arith) (omega arith)
