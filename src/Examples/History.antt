-- ===== src/Examples/History.antt =====
-- The theorem on the history of a feature, at a mill in two snapshots that are not stored in order.
use gis_vector_map_changes.Prelude.{
  ℕ, ◌<◌, List, [], ◌∷◌, map, Bool, true, none, some, length, ok, err, sort, http_exception, ◌≡◌,
  refl, ◌⊎◌,
}
use gis_vector_map_changes.Db.{Row}
use gis_vector_map_changes.Db.Snapshots.{SnapshotParams}
use gis_vector_map_changes.Publish.{StagedFeature}
use gis_vector_map_changes.Publish.Tables.{SnapshotFeature}
use gis_vector_map_changes.Api.Features.{
  FeatureSelect, FeatureHistory, feature_select, in_history, get_feature_history, feature_history,
  time_of,
}
use gis_vector_map_changes.Api.Features.History.{held, IsTimeline, get_feature_history-IsTimeline}
use gis_vector_map_changes.Examples.Storage.{haifa}

abbrev mill : StagedFeature
mill = record {
  osm_id = "way/7";
  osm_type = "way";
  building = some "yes";
  category = some "other";
  name = none;
  raw_tags = "{}";
  original_valid = true;
  repair_method = none;
  geom_hex = "00";
}

abbrev mill_in : ℕ → SnapshotFeature ℕ
mill_in id = record { snapshot_id = id; feature = mill; geom = 0; geom_3857 = 0 }

abbrev two_mills : List (SnapshotFeature ℕ)
two_mills = mill_in 1 ∷ mill_in 2 ∷ []

abbrev late_first : List (Row SnapshotParams)
late_first =
    record { id = 1; time = 5; params = record haifa { requested_time = 90 } }
    ∷ record { id = 2; time = 6; params = record haifa { requested_time = 30 } }
    ∷ []

times_ascend :
    map time_of (feature_history late_first two_mills "way/7" haifa.source_query_version)
    ≡ 30 ∷ 90 ∷ []
unfolding feature_history feature_select in_history sort
times_ascend = refl

get_feature_history-IsTimeline_example :
    ((get_feature_history {F = ℕ} [] late_first two_mills [] "way/7" haifa.source_query_version
        ≡ err (http_exception 404))
      × ((p : FeatureSelect ℕ → Bool)
          → held late_first two_mills "way/7" haifa.source_query_version p ≡ 0))
    ⊎ ((answer : FeatureHistory ℕ ℕ) × (get_feature_history [] late_first two_mills [] "way/7"
            haifa.source_query_version
          ≡ ok answer)
        × (0 < length answer.history)
        × IsTimeline late_first two_mills "way/7" haifa.source_query_version answer.history)
get_feature_history-IsTimeline_example =
    get_feature_history-IsTimeline [] late_first two_mills [] "way/7" haifa.source_query_version
