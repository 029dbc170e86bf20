-- ===== src/Publish/Features/Snapshots.antt =====
-- Publishing a snapshot that ingestion built.
use gis_vector_map_changes.Prelude.{
  ℕ, String, List, [], ◌∷◌, ◌++◌, map, Bool, true, false, not, Option, none, some, Result, ok, err,
  value_error, db_error, keep, eqb, traverse, All, All2, arith, ◌≡◌, refl, sym, ap, ◌∙◌, ◌==◌,
  ◌>>=◌, >>=-ok, if◌then◌else◌, Bool-cases, inl, inr, length-traverse,
}
use gis_vector_map_changes.Json
use gis_vector_map_changes.Json.{Json, str, arr, nil, obj, end}
use gis_vector_map_changes.Shapely.{Shapely, MappingLaw}
use gis_vector_map_changes.Ingestion.BuildingCategory.{categorize}
use gis_vector_map_changes.Ingestion.Validate.{ValidationResult, is_polygonal}
use gis_vector_map_changes.Ingestion.OhsomeClient.{Datetime}
use gis_vector_map_changes.Ingestion.Snapshot.{
  parse_osm_id, raw_tags, normal_properties, normal_feature, SnapshotResult,
}
use gis_vector_map_changes.Ingestion.Snapshot.Tallied.{Normalized, features_of}
use gis_vector_map_changes.Ingestion.Snapshot.Normal.{IsSnapshot}
use gis_vector_map_changes.Publish.{
  PostGis, StagedFeature, as_multipolygon, geom_hex_of, snapshot_feature_row,
}
use gis_vector_map_changes.Publish.Tables.{
  SnapshotFeature, has_id, dangles, all_different, same_feature, snapshot_feature, committed,
  load_via_staging, replace_features, publish_snapshot_features,
}
use gis_vector_map_changes.Publish.Different.{
  all_different-keep, all_different-append, staged_ids, all_different-staged_ids, others_differ,
}

abbrev pub not_polygonal : {A : Type 0} → Result A
not_polygonal = err (value_error "snapshots should contain only polygonal geometry")

module _ (lib : Shapely) where
  open lib use {Float}

  -- a feature, and the validation of its geometry
  abbrev pub Made : Type 0
  Made = Json Float × ValidationResult lib

  -- The name of a normalized feature is a text or missing.
  abbrev pub HasTextName : Json Float → Type 0
  HasTextName f =
      (name : Option String) × ((Json.index f "properties" >>= λ props.
      Json.get props "name" >>= Json.as_optional_str)
        ≡ ok name)

  -- Every geometry is a Polygon or a MultiPolygon.
  abbrev pub all_polygonal : List Made → Bool
  all_polygonal [] = true
  all_polygonal ((f, r) ∷ rest) =
      let others = all_polygonal rest in if is_polygonal lib r.geometry then others else false

  -- the osm_id of a raw feature
  abbrev pub raw_osm_id : Json Float → Result String
  raw_osm_id raw = Json.get_or raw "properties" (obj end) >>= λ props.
      Json.get_or props "@osmId" (str "") >>= Json.as_str

module _ (lib : Shapely) (db : PostGis lib) (lower : String → String) (strftime : ℕ → String)
    (law : MappingLaw lib) where
  open lib use {Float, Geometry, shape, mapping, geom_type}
  open db use {Geom}

  as_multipolygon_lem :
      (g : Geometry)
      → (m : Geometry) × (as_multipolygon lib db g
          ≡ (if is_polygonal lib g then ok m else not_polygonal))
  unfolding as_multipolygon
  as_multipolygon_lem g = elim (Bool-cases (geom_type g == "MultiPolygon")) [
    | inl multi ↦ (g, ground arith)
    | inr other ↦ (db.multi_polygon g, ground arith)
  ]

  geom_hex_lem :
      (g : Geometry)
      → (hex : String) × (geom_hex_of lib db (mapping g)
          ≡ (if is_polygonal lib g then ok hex else not_polygonal))
  unfolding geom_hex_of
  geom_hex_lem g =
      let (m, e) = as_multipolygon_lem g in
      (
        db.wkb_hex m,
        elim (Bool-cases (is_polygonal lib g)) [
          | inl polygonal ↦ rw (law.shape-mapping, e, polygonal) refl
          | inr other ↦ rw (law.shape-mapping, e, other) refl
        ],
      )

  str_read : (s : String) → Json.as_optional_str {F = Float} (some (str s)) ≡ ok (some s)
  unfolding Json.as_optional_str
  str_read s = refl

  text_read :
      (t : Option String) → Json.as_optional_str (some (Json.optional_str {F = Float} t)) ≡ ok t
  unfolding Json.as_optional_str Json.optional_str
  text_read none = refl
  text_read (some s) = refl

  -- A normalized feature is staged exactly if its geometry is polygonal.
  row_lem :
      (raw f : Json Float) (r : ValidationResult lib) (n : Normalized lib lower strftime raw f r)
      → HasTextName lib f
      → (s : StagedFeature) × (snapshot_feature_row lib db f
          ≡ (if is_polygonal lib r.geometry then ok s else not_polygonal))
        × (s.osm_id ≡ n.osm_id)
  unfolding snapshot_feature_row normal_feature normal_properties Json.index Json.find Json.obj_of
      Json.as_str Json.get Json.get_or Json.as_bool
  row_lem raw f r n (name, named) =
      let (hex, e) = geom_hex_lem r.geometry in
      let is_name =
        sym (
          ap
            (λ g.
              Json.index g "properties" >>= λ props. Json.get props "name" >>= Json.as_optional_str)
            n.built)
        ∙ named in
      (
        record {
          osm_id = n.osm_id;
          osm_type = (parse_osm_id n.osm_id).0;
          building = n.building_tag;
          category = some (categorize lower n.building_tag);
          name = name;
          raw_tags = db.dumps (obj (raw_tags n.tags));
          original_valid = r.original_valid;
          repair_method = r.repair_method;
          geom_hex = hex;
        },
        elim (Bool-cases (is_polygonal lib r.geometry)) [
          | inl polygonal ↦ rw n.built (
              rw
                (
                  text_read n.building_tag,
                  str_read (categorize lower n.building_tag),
                  is_name,
                  text_read r.repair_method,
                  e,
                  polygonal,
                )
                refl)
          | inr other ↦ rw n.built (
              rw
                (
                  text_read n.building_tag,
                  str_read (categorize lower n.building_tag),
                  is_name,
                  text_read r.repair_method,
                  e,
                  other,
                )
                refl)
        ],
        refl,
      )

  raw_osm_id_lem :
      (raw f : Json Float) (r : ValidationResult lib) (n : Normalized lib lower strftime raw f r)
      → raw_osm_id lib raw ≡ ok n.osm_id
  raw_osm_id_lem raw f r n =
      >>=-ok (Json.get_or raw "properties" (obj end))
        (λ props. Json.get_or props "@osmId" (str "") >>= Json.as_str) n.got_props n.got_osm_id

  rows_lem :
      (raws : List (Json Float)) (made : List (Made lib))
      → All2 (λ raw m. Normalized lib lower strftime raw m.0 m.1) raws made
      → All (HasTextName lib) (features_of lib lower strftime made)
      → (staged : List StagedFeature) × (traverse
            (snapshot_feature_row lib db)
            (features_of lib lower strftime made)
          ≡ (if all_polygonal lib made then ok staged else not_polygonal))
        × All2 (λ raw id. raw_osm_id lib raw ≡ ok id) raws (staged_ids staged)
  unfolding traverse
  rows_lem [] [] tells named = ([], refl, tt)
  rows_lem [] (m ∷ made) tells named = absurd tells
  rows_lem (raw ∷ raws) [] tells named = absurd tells
  rows_lem (raw ∷ raws) ((f, r) ∷ made) tells named =
      let (s, here, id) = row_lem raw f r tells.0 named.0 in
      let (rest, there, ids) = rows_lem raws made tells.1 named.1 in
      (
        s ∷ rest,
        elim (Bool-cases (is_polygonal lib r.geometry)) [
          | inl polygonal ↦ elim (Bool-cases (all_polygonal lib made)) [
            | inl all ↦ rw (here, there, polygonal, all) refl
            | inr other ↦ rw (here, there, polygonal, other) refl
          ]
          | inr other ↦ rw (here, other) refl
        ],
        (raw_osm_id_lem raw f r tells.0 ∙ ap ok (sym id), ids),
      )

  unique_lem :
      (snapshot_id : ℕ) (table : List (SnapshotFeature Geom)) (staged : List StagedFeature)
      → all_different same_feature table ≡ true
      → all_different same_feature (
          keep (λ r. not (eqb r.snapshot_id snapshot_id)) table
          ++ map (snapshot_feature lib db snapshot_id) staged)
        ≡ all_different (λ a b. a == b) (staged_ids staged)
  unique_lem snapshot_id table staged unique =
      all_different-append same_feature _ _
        (all_different-keep same_feature (λ r. not (eqb r.snapshot_id snapshot_id)) table unique)
        (others_differ lib db snapshot_id staged table)
      ∙ all_different-staged_ids lib db snapshot_id staged

  stored_lem :
      (ids : List ℕ) (snapshot_id : ℕ) (staged : List StagedFeature)
      → has_id ids snapshot_id ≡ true
      → dangles (λ r. has_id ids r.snapshot_id) (map (snapshot_feature lib db snapshot_id) staged)
        ≡ false
  unfolding snapshot_feature
  stored_lem ids snapshot_id [] stored = refl
  stored_lem ids snapshot_id (s ∷ staged) stored =
      rw stored (stored_lem ids snapshot_id staged stored)

  -- Where shapely reads what it writes, the names of the features are texts or missing, the snapshot is stored and the
  -- natural key of the table is unique, publishing a snapshot that `build_snapshot_from_raw` built returns the number that
  -- it counted, if every geometry is a Polygon or a MultiPolygon and no two selected raw features have the same
  -- osm_id; otherwise it raises for the geometry, or else for the osm_ids.
  pub build_snapshot-publish_snapshot_features :
      (raw_geojson : Json Float) (time : Datetime) (s : SnapshotResult lib lower strftime)
      (selected : List (Json Float)) (made : List (Made lib))
      → IsSnapshot lib lower strftime raw_geojson time s selected made
      → All (HasTextName lib) (features_of lib lower strftime made)
      → (ids : List ℕ) (table : List (SnapshotFeature Geom)) (snapshot_id : ℕ)
      → has_id ids snapshot_id ≡ true
      → all_different same_feature table ≡ true
      → (osm_ids : List String) × All2 (λ raw id. raw_osm_id lib raw ≡ ok id) selected osm_ids
        × ((publish_snapshot_features lib db ids table snapshot_id s.processed_geojson).1 ≡ (
            if all_polygonal lib made
            then if all_different (λ a b. a == b) osm_ids
              then ok s.feature_count
              else err (db_error "constraint violated")
            else not_polygonal))
  unfolding publish_snapshot_features replace_features load_via_staging committed Json.get_or
      Json.find Json.obj_of Json.as_list
  build_snapshot-publish_snapshot_features raw_geojson time s selected made is_snapshot named ids
        table snapshot_id stored unique =
      let (staged, rows, osm_ids) = rows_lem selected made is_snapshot.tells named in
      let referred = stored_lem ids snapshot_id staged stored in
      (
        staged_ids staged,
        osm_ids,
        rw is_snapshot.processed (
            rw (Json.items-arr_of (features_of lib lower strftime made), rows)
              (elim (Bool-cases (all_polygonal lib made)) [
                | inl all ↦ elim (Bool-cases (all_different (λ a b. a == b) (staged_ids staged))) [
                  | inl fits ↦
                      rw (all, referred, unique_lem snapshot_id table staged unique, fits)
                        (ap ok (
                          length-traverse (snapshot_feature_row lib db)
                            (features_of lib lower strftime made) staged (rows ∙ rw all refl)
                          ∙ sym is_snapshot.total))
                  | inr twice ↦
                      rw (all, referred, unique_lem snapshot_id table staged unique, twice) refl
                ]
                | inr other ↦ rw other refl
              ])),
      )
