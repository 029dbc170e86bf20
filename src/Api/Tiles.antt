-- ===== src/Api/Tiles.antt =====
-- The endpoints of the vector tiles.
pub mod Checked
use gis_vector_map_changes.Prelude.{
  ℕ, ◌+◌, ◌^◌, ℤ, pos, negsuc, String, List, [], ◌∷◌, keep, any, contains, Bool, true, false, not,
  ◌&&◌, Option, none, some, Result, ok, err, http_exception, ltb, leb, sort, text_le, ◌==◌, ◌>>=◌,
  ◌>>◌, if◌then◌else◌, str_append,
}

abbrev pub max_zoom : ℕ
max_zoom = 22

abbrev pub mvt_content_type : String
mvt_content_type = "application/vnd.mapbox-vector-tile"

-- `VALID_CLASSIFICATIONS`
abbrev pub valid_classifications : List String
valid_classifications =
    "added" ∷ "removed" ∷ "modified_geometry" ∷ "modified_attributes"
    ∷ "modified_geometry_and_attributes" ∷ "ambiguous" ∷ []

-- `0 <= n < limit`
unfoldable pub within : ℤ → ℕ → Bool
within (pos n) limit = ltb n limit
within (negsuc n) limit = false

-- `1 << z` of a zoom that is valid
unfoldable pub tile_limit : ℤ → ℕ
tile_limit (pos z) = 2 ^ z
tile_limit (negsuc z) = 0

-- `_validate_tile`
unfoldable pub validate_tile : ℤ → ℤ → ℤ → Result (Unit {0})
unfolding within tile_limit
validate_tile z x y =
    if not (within z (max_zoom + 1))
    then err (http_exception 400)
    else if not (within x (tile_limit z) && within y (tile_limit z))
    then err (http_exception 400)
    else ok tt

-- A response with a tile: its content, and the two headers that differ.
pub record TileResponse : Type 0 where
  pub content : String
  pub media_type : String
  pub cache_key : String

-- `_mvt_response`: bytes are texts
unfoldable pub mvt_response : Option String → String → TileResponse
mvt_response none cache_key = record {
  content = "";
  media_type = mvt_content_type;
  cache_key = cache_key;
}
mvt_response (some mvt) cache_key = record {
  content = mvt;
  media_type = mvt_content_type;
  cache_key = cache_key;
}

-- `split` is `str.split(",")`, and `strip` is `str.strip`.
module _ (split : String → List String) (strip : String → String) where
  -- the comprehension for `requested`
  unfoldable pub stripped : List String → List String
  stripped [] = []
  stripped (c ∷ cs) = let rest = stripped cs in if strip c == "" then rest else strip c ∷ rest

  -- `requested`, with the check of the names
  unfoldable pub requested_classifications : Option String → Result (List String)
  unfolding stripped
  requested_classifications none = ok (sort text_le valid_classifications)
  requested_classifications (some classifications) =
      let requested = stripped (split classifications) in
      if any (λ c. not (contains valid_classifications c)) requested
      then err (http_exception 400)
      else ok requested

  -- `query` runs `CHANGE_TILE`, and `text_of` writes an id.
  unfoldable pub change_tile :
      (ℕ → ℤ → ℤ → ℤ → List String → Option String)
      → (ℕ → String)
      → ℕ
      → ℤ
      → ℤ
      → ℤ
      → Option String
      → Result TileResponse
  unfolding requested_classifications validate_tile mvt_response
  change_tile query text_of changeset_id z x y classifications = do
    validate_tile z x y
    requested ← requested_classifications classifications
    ok (
        mvt_response (query changeset_id z x y requested)
          (str_append "changeset-" (text_of changeset_id)))

-- `query` runs `BUILDING_TILE`, which computes its tolerance from the zoom.
unfoldable pub building_tile :
    (ℕ → ℤ → ℤ → ℤ → Option String) → (ℕ → String) → ℕ → ℤ → ℤ → ℤ → Result TileResponse
unfolding validate_tile mvt_response
building_tile query text_of snapshot_id z x y = do
  validate_tile z x y
  ok (mvt_response (query snapshot_id z x y) (str_append "snapshot-" (text_of snapshot_id)))
