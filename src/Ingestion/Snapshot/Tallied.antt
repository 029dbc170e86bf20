-- ===== src/Ingestion/Snapshot/Tallied.antt =====
-- What `normalize_feature` makes of a feature, and what the loop of `build_snapshot_from_raw` counts.
use gis_vector_map_changes.Prelude.{
  ◌>>=◌, ℕ, ◌+◌, String, List, [], ◌∷◌, ◌++◌, Bool, not, Option, some, ok, All2, arith, ◌≡◌, refl,
  sym, ap, ◌∙◌, >>=-eq-ok, >>=-ok, ok_injective, if◌then◌else◌, append-nil, append_assoc,
}
use gis_vector_map_changes.Json
use gis_vector_map_changes.Json.{Json, Fields, str, arr, nil, obj, end}
use gis_vector_map_changes.Shapely.{Shapely}
use gis_vector_map_changes.Matching.Features.{is_set}
use gis_vector_map_changes.Ingestion.Validate.{ValidationResult, validate_and_repair}
use gis_vector_map_changes.Ingestion.Snapshot.{
  or_null, fields_of, normal_properties, normal_feature, normalize_feature, Tally, tally_feature,
  tally_from,
}

module _ (lib : Shapely) (lower : String → String) (strftime : ℕ → String) where
  open lib use {Float, Geometry, shape, mapping, is_valid}

  -- how many of these features, each with its validation, were made from an invalid geometry
  abbrev pub invalids : List (Json Float × ValidationResult lib) → ℕ
  invalids [] = 0
  invalids ((f, r) ∷ rest) = if not r.original_valid then 1 + invalids rest else invalids rest

  abbrev pub features_of : List (Json Float × ValidationResult lib) → List (Json Float)
  features_of [] = []
  features_of ((f, r) ∷ rest) = f ∷ features_of rest

  -- `f` is the normalized feature of `raw`, and `r` is the validation of the geometry of `raw`.
  pub record Normalized (raw f : Json Float) (r : ValidationResult lib) : Type 0 where
    pub returned : normalize_feature lib lower strftime raw ≡ ok f
    pub props : Json Float
    pub outline : Json Float
    pub source_geometry : Geometry
    pub osm_id : String
    pub building_tag : Option String
    pub name : Option (Json Float)
    pub tags : Fields Float
    pub got_props : Json.get_or raw "properties" (obj end) ≡ ok props
    pub got_osm_id : (Json.get_or props "@osmId" (str "") >>= Json.as_str) ≡ ok osm_id
    pub got_building : (Json.get props "building" >>= Json.as_optional_str) ≡ ok building_tag
    pub got_outline : Json.index raw "geometry" ≡ ok outline
    pub read_outline : shape outline ≡ ok source_geometry
    pub got_name : Json.get props "name" ≡ ok name
    pub validated : r ≡ validate_and_repair lib source_geometry
    pub built : f ≡ normal_feature lib lower strftime osm_id building_tag (or_null name) tags r

  normalize_feature-Normalized :
      (raw f : Json Float)
      → normalize_feature lib lower strftime raw ≡ ok f
      → (r : ValidationResult lib) × Normalized raw f r
  unfolding normalize_feature
  normalize_feature-Normalized raw f run =
      let (props, got_props, run1) = >>=-eq-ok (Json.get_or raw "properties" (obj end)) _ run in
      let (id, got_id, run2) = >>=-eq-ok (Json.get_or props "@osmId" (str "")) _ run1 in
      let (osm_id, is_text, run3) = >>=-eq-ok (Json.as_str id) _ run2 in
      let (outline, got_outline, run4) = >>=-eq-ok (Json.index raw "geometry") _ run3 in
      let (geometry, read, run5) = >>=-eq-ok (shape outline) _ run4 in
      let (building, got_building, run6) = >>=-eq-ok (Json.get props "building") _ run5 in
      let (building_tag, is_tag, run7) = >>=-eq-ok (Json.as_optional_str building) _ run6 in
      let (name, got_name, run8) = >>=-eq-ok (Json.get props "name") _ run7 in
      let (tags, got_tags, run9) = >>=-eq-ok (fields_of props) _ run8 in
      (
        validate_and_repair lib geometry,
        record {
          returned = run;
          props = props;
          outline = outline;
          source_geometry = geometry;
          osm_id = osm_id;
          building_tag = building_tag;
          name = name;
          tags = tags;
          got_props = got_props;
          got_osm_id = >>=-ok (Json.get_or props "@osmId" (str "")) Json.as_str got_id is_text;
          got_building =
              >>=-ok (Json.get props "building") Json.as_optional_str got_building is_tag;
          got_outline = got_outline;
          read_outline = read;
          got_name = got_name;
          validated = refl;
          built = sym (ok_injective run9);
        },
      )

  add_one : (b : Bool) (n : ℕ) → (if b then n + 1 else n) ≡ n + (if b then 1 else 0)
  add_one b n = ground arith

  add_invalids :
      (n : ℕ) (f : Json Float) (r : ValidationResult lib)
      (rest : List (Json Float × ValidationResult lib))
      → (n + (if not r.original_valid then 1 else 0)) + invalids rest ≡ n + invalids ((f, r) ∷ rest)
  add_invalids n f r rest = ground arith

  -- A repair method is told exactly for an invalid geometry.
  pub method_told :
      (g : Geometry)
      → is_set lib (some (Json.optional_str {F = Float} (validate_and_repair lib g).repair_method))
        ≡ not (is_valid g)
  unfolding validate_and_repair is_set Json.optional_str
  method_told g = ground arith

  validity_told : (g : Geometry) → (validate_and_repair lib g).original_valid ≡ is_valid g
  unfolding validate_and_repair
  validity_told g = ground arith

  tally_feature_lem :
      (t : Tally lib lower strftime) (raw f : Json Float) (r : ValidationResult lib)
      → Normalized raw f r
      → tally_feature lib lower strftime t f
        ≡ ok (record {
          processed_features = t.processed_features ++ (f ∷ []);
          invalid_count = t.invalid_count + (if not r.original_valid then 1 else 0);
          repaired_count = t.repaired_count + (if not r.original_valid then 1 else 0);
        })
  unfolding tally_feature normal_feature normal_properties Json.index Json.find Json.obj_of
      Json.as_bool
  tally_feature_lem t raw f r n =
      let told : is_set lib (some (Json.optional_str {F = Float} r.repair_method))
          ≡ not r.original_valid =
        rw n.validated
          (method_told n.source_geometry ∙ ap not (sym (validity_told n.source_geometry))) in
      rw n.built (
        rw
          (
            told,
            add_one (not r.original_valid) t.invalid_count,
            add_one (not r.original_valid) t.repaired_count,
          )
          refl)

  -- What the loop adds to a tally.
  pub record Counted (t out : Tally lib lower strftime) (raws : List (Json Float))
      (made : List (Json Float × ValidationResult lib)) : Type 0 where
    pub tells : All2 (λ raw m. Normalized raw m.0 m.1) raws made
    pub processed : out.processed_features ≡ t.processed_features ++ features_of made
    pub invalid : out.invalid_count ≡ t.invalid_count + invalids made
    pub repaired : out.repaired_count ≡ t.repaired_count + invalids made

  pub tally_from-Counted :
      (t out : Tally lib lower strftime) (raws : List (Json Float))
      → tally_from lib lower strftime t raws ≡ ok out
      → (made : List (Json Float × ValidationResult lib)) × Counted t out raws made
  unfolding tally_from
  tally_from-Counted t out [] run =
      let same = ok_injective run in
      (
        [],
        record {
          tells = tt;
          processed =
              ap (λ s. s.processed_features) (sym same) ∙ sym (append-nil t.processed_features);
          invalid = rw (sym same) (omega arith);
          repaired = rw (sym same) (omega arith);
        },
      )
  tally_from-Counted t out (raw ∷ raws) run =
      let (f, here, run1) = >>=-eq-ok (normalize_feature lib lower strftime raw) _ run in
      let (next, counted, rest) = >>=-eq-ok (tally_feature lib lower strftime t f) _ run1 in
      let (r, n) = normalize_feature-Normalized raw f here in
      let step = ok_injective (sym (tally_feature_lem t raw f r n) ∙ counted) in
      let (made, c) = tally_from-Counted next out raws rest in
      (
        (f, r) ∷ made,
        record {
          tells = (n, c.tells);
          processed =
              c.processed
              ∙ ap (λ s. s.processed_features ++ features_of made) (sym step)
              ∙ append_assoc t.processed_features (f ∷ []) (features_of made);
          invalid =
              c.invalid
              ∙ ap (λ s. s.invalid_count + invalids made) (sym step)
              ∙ add_invalids t.invalid_count f r made;
          repaired =
              c.repaired
              ∙ ap (λ s. s.repaired_count + invalids made) (sym step)
              ∙ add_invalids t.repaired_count f r made;
        },
      )
