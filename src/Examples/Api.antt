-- ===== src/Examples/Api.antt =====
-- The theorems on the requests of the API, at small ones.
use gis_vector_map_changes.Prelude.{
  pos, negsuc, String, List, [], ◌∷◌, some, ok, err, http_exception, none, ℕ, arith, refl, ◌⊎◌, ◌≡◌,
  ◌↔◌,
}
use gis_vector_map_changes.Db.{Table}
use gis_vector_map_changes.Db.Snapshots.{SnapshotParams}
use gis_vector_map_changes.Db.Changesets.{ChangesetParams}
use gis_vector_map_changes.Api.Changesets.{
  ChangesetSelect, changeset_payload, get_changeset_payload,
}
use gis_vector_map_changes.Api.Changesets.Found.{find_id, IsJoined, get_changeset_payload-find_id}
use gis_vector_map_changes.Examples.Storage.{haifa}
use gis_vector_map_changes.Api.Tiles.{validate_tile, requested_classifications}
use gis_vector_map_changes.Api.Tiles.Checked.{
  IsTile, AllValid, asked, validate_tile-IsTile, requested_classifications-AllValid,
}

validate_tile-IsTile_example :
    ((validate_tile (pos 3) (pos 8) (negsuc 0) ≡ ok tt) ↔ IsTile (pos 3) (pos 8) (negsuc 0))
    × ((validate_tile (pos 3) (pos 8) (negsuc 0) ≡ err (http_exception 400))
        ↔ (¬ IsTile (pos 3) (pos 8) (negsuc 0)))
validate_tile-IsTile_example = validate_tile-IsTile (pos 3) (pos 8) (negsuc 0)

-- a text without commas or spaces
abbrev whole : String → List String
whole text = text ∷ []

abbrev as_is : String → String
as_is text = text

requested_classifications-AllValid_example :
    ((requested_classifications whole as_is (some "unchanged")
        ≡ ok (asked whole as_is (some "unchanged")))
      ↔ AllValid (asked whole as_is (some "unchanged")))
    × ((requested_classifications whole as_is (some "unchanged") ≡ err (http_exception 400))
        ↔ (¬ AllValid (asked whole as_is (some "unchanged"))))
requested_classifications-AllValid_example =
    requested_classifications-AllValid whole as_is (some "unchanged")

abbrev two_snapshots : Table SnapshotParams
two_snapshots = record {
  rows =
      record { id = 1; time = 5; params = haifa }
      ∷ record { id = 2; time = 6; params = record haifa { requested_time = 90 } }
      ∷ [];
  next_id = 3;
}

abbrev one_changeset : Table ChangesetParams
one_changeset = record {
  rows =
      record {
        id = 1;
        time = 7;
        params = record {
          snapshot_a_id = 1;
          snapshot_b_id = 2;
          algorithm_version = "v1";
          change_layer_object_uri = "s3://gis/layer.geojson";
          unchanged_count = 0;
          modified_geometry_count = 0;
          modified_attributes_count = 1;
          modified_geometry_and_attributes_count = 0;
          added_count = 0;
          removed_count = 1;
          ambiguous_count = 1;
        };
      }
      ∷ [];
  next_id = 2;
}

abbrev some_time : ℕ → ℕ → String
some_time a b = "1 month"

get_changeset_payload-find_id_example :
    ((find_id one_changeset.rows 1 ≡ none)
      × (get_changeset_payload some_time one_changeset two_snapshots 1 ≡ err (http_exception 404)))
    ⊎ ((row : ChangesetSelect) × (find_id one_changeset.rows 1 ≡ some row.changeset)
        × IsJoined two_snapshots.rows row
        × (get_changeset_payload some_time one_changeset two_snapshots 1
            ≡ ok (changeset_payload some_time row)))
get_changeset_payload-find_id_example =
    get_changeset_payload-find_id some_time one_changeset two_snapshots 1
      (omega arith, (omega arith, tt)) (omega arith, tt) ((_, _, refl, refl), tt)
