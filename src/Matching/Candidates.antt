-- ===== src/Matching/Candidates.antt =====
-- src/matching/candidates.py
pub mod Exact
use gis_vector_map_changes.Prelude.{
  ℕ, String, List, [], ◌∷◌, Bool, true, false, ◌||◌, ◌&&◌, ◌==◌, contains, Option, none, some, Dict,
  keys, index, keep, get_elem?, map, Result, ok, err, index_error, traverse, ◌>>=◌, if◌then◌else◌,
  insert,
}
use gis_vector_map_changes.Shapely.{Shapely}
use gis_vector_map_changes.Matching.Features.{LoadedFeature}

-- Some row of the candidates pairs `a` with `b`.
abbrev pub is_pair : Dict (List String) → String → String → Bool
is_pair [] a b = false
is_pair ((k, bs) ∷ d) a b = (a == k && contains bs b) || is_pair d a b

-- `not d`
abbrev pub is_empty {ℓ} : {A : Type ℓ} → List A → Bool
is_empty [] = true
is_empty (x ∷ xs) = false

-- `b_ids[idx]`
unfoldable pub at : List String → ℕ → Result String
at b_ids idx = elim (get_elem? b_ids idx) [ none ↦ err index_error | some b_id ↦ ok b_id ]

module _ (lib : Shapely) where
  open lib use {Float, Geometry, decimal, float_gt, area, intersection, query}

  -- the list `b_geoms`
  abbrev pub geometries : Dict (LoadedFeature lib) → List Geometry
  geometries [] = []
  geometries ((k, f) ∷ d) = f.geometry ∷ geometries d

  -- the test of the comprehension for `matches`
  unfoldable pub overlaps : Geometry → Dict (LoadedFeature lib) → String → Result (String × Bool)
  overlaps geometry only_in_b b_id = do
    b_feature ← index only_in_b b_id
    ok (b_id, float_gt (area (intersection geometry b_feature.geometry)) (decimal 0 0))

  -- the texts whose test passed
  abbrev pub passed : List (String × Bool) → List String
  passed [] = []
  passed ((b_id, test) ∷ rest) = let found = passed rest in if test then b_id ∷ found else found

  -- `matches`, for one feature of the older snapshot
  unfoldable pub matches_of : Dict (LoadedFeature lib) → Geometry → Result (List String)
  unfolding at overlaps
  matches_of only_in_b geometry = do
    nearby ← traverse (at (keys only_in_b)) (query (geometries only_in_b) geometry)
    tested ← traverse (overlaps geometry only_in_b) nearby
    ok (passed tested)

  -- the loop over `only_in_a.items()`, with the dict `result` so far
  unfoldable pub candidates_from :
      Dict (List String)
      → Dict (LoadedFeature lib)
      → Dict (LoadedFeature lib)
      → Result (Dict (List String))
  unfolding matches_of
  candidates_from result [] only_in_b = ok result
  candidates_from result ((a_id, a_feature) ∷ rest) only_in_b = do
    matches ← matches_of only_in_b a_feature.geometry
    candidates_from (if is_empty matches then result else insert a_id matches result) rest only_in_b

  unfoldable pub generate_candidates :
      Dict (LoadedFeature lib) → Dict (LoadedFeature lib) → Result (Dict (List String))
  unfolding candidates_from
  generate_candidates only_in_a only_in_b =
      if is_empty only_in_a || is_empty only_in_b
      then ok []
      else candidates_from [] only_in_a only_in_b
