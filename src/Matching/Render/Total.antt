-- ===== src/Matching/Render/Total.antt =====
-- The change layer of a changeset is rendered with no exception, one feature for each record.
use gis_vector_map_changes.Prelude.{
  suc, String, List, [], ◌∷◌, ◌++◌, Dict, keys, In, length, ok, traverse, flat_map, All, All2,
  arith, ◌≡◌, refl, ap, if◌then◌else◌, count-append, index_of_In, traverse-returns, All-of_In,
  All-map,
}
use gis_vector_map_changes.Json.{Json}
use gis_vector_map_changes.Shapely.{Shapely}
use gis_vector_map_changes.Matching.Features.{LoadedFeature}
use gis_vector_map_changes.Matching.Candidates.{is_empty}
use gis_vector_map_changes.Matching.Changeset.Records.{ChangeRecord}
use gis_vector_map_changes.Matching.Changeset.Build.Partition.{IsPartition}
use gis_vector_map_changes.Matching.Render.{
  geometry_at, merged, record_geometry, render_record, feature_of, collection, render_change_layer,
}

-- What stands in one of the lists stands in all of them together.
All-of_flat_map {ℓ} :
    {A : Type ℓ} (side : A → List String) (P : String → Type 0) (xs : List A)
    → ((x : String) → In x (flat_map side xs) → P x)
    → All (λ a. (x : String) → In x (side a) → P x) xs
unfolding flat_map
All-of_flat_map side P [] h = tt
All-of_flat_map side P (a ∷ xs) h = (
  λ x m. h x (omega (arith, count-append x (side a) (flat_map side xs))),
  All-of_flat_map side P xs
      (λ x m. h x (omega (arith, count-append x (side a) (flat_map side xs)))),
)

All-zip {ℓ κ μ} :
    {A : Type ℓ} (P : A → Type κ) (Q : A → Type μ) (xs : List A)
    → All P xs
    → All Q xs
    → All (λ x. P x × Q x) xs
All-zip P Q [] p q = tt
All-zip P Q (x ∷ xs) p q = ((p.0, q.0), All-zip P Q xs p.1 q.1)

length-All2 {ℓ κ} :
    {A : Type ℓ} {B : Type κ} (R : A → B → Type 0) (xs : List A) (ys : List B)
    → All2 R xs ys
    → length ys ≡ length xs
length-All2 R [] [] h = refl
length-All2 R [] (y ∷ ys) h = elim h [ ]
length-All2 R (x ∷ xs) [] h = elim h [ ]
length-All2 R (x ∷ xs) (y ∷ ys) h = ap suc (length-All2 R xs ys h.1)

module _ (lib : Shapely) (fa fb : Dict (LoadedFeature lib)) where
  geometries_at :
      (d : Dict (LoadedFeature lib)) (xs : List String)
      → ((x : String) → In x xs → In x (keys d))
      → (gs : List lib.Geometry) × (traverse (geometry_at lib d) xs ≡ ok gs)
  unfolding geometry_at
  geometries_at d xs inside =
      let (gs, run, _) =
        traverse-returns (geometry_at lib d) (λ x g. Unit) xs
          (All-of_In _ xs
            (λ x m. let (f, found) = index_of_In x d (inside x m) in (f.geometry, rw found, tt))) in
      (gs, run)

  a_side_inside :
      (r : ChangeRecord lib)
      → ((x : String) → In x r.osm_ids_a → In x (keys fa))
      → (x : String) → In x (if is_empty r.osm_ids_b then r.osm_ids_a else [])
      → In x (keys fa)
  a_side_inside r h x m = ground (arith, h x)

  record_geometry-returns :
      (r : ChangeRecord lib)
      → ((x : String) → In x r.osm_ids_a → In x (keys fa))
      → ((x : String) → In x r.osm_ids_b → In x (keys fb))
      → (g : lib.Geometry) × (record_geometry lib r fa fb ≡ ok g)
  unfolding record_geometry
  record_geometry-returns r in_a in_b =
      let (gs_b, run_b) = geometries_at fb r.osm_ids_b in_b in
      let (gs_a, run_a) =
        geometries_at fa (if is_empty r.osm_ids_b then r.osm_ids_a else [])
          (a_side_inside r in_a) in
      (merged lib (gs_b ++ gs_a), rw (run_b, run_a))

  render_record-returns :
      (r : ChangeRecord lib)
      → ((x : String) → In x r.osm_ids_a → In x (keys fa))
      → ((x : String) → In x r.osm_ids_b → In x (keys fb))
      → (j : Json lib.Float) × (render_record lib fa fb r ≡ ok j)
        × ((g : lib.Geometry) × (record_geometry lib r fa fb ≡ ok g) × (j ≡ feature_of lib g r))
  unfolding render_record
  render_record-returns r in_a in_b =
      let (g, run) = record_geometry-returns r in_a in_b in
      (feature_of lib g r, rw run, (g, run, refl))

  -- The feature is that of the record, with the geometry that the source picks for it.
  abbrev pub Renders : ChangeRecord lib → Json lib.Float → Type 0
  Renders r j =
      ∥ ((g : lib.Geometry) × (record_geometry lib r fa fb ≡ ok g) × (j ≡ feature_of lib g r)) ∥₁

  -- Where the records partition the features of the two snapshots, as those of a changeset do, the
  -- change layer is rendered with no exception, and it holds the features of the records, in their order.
  pub render_change_layer-returns :
      (records : List (ChangeRecord lib))
      → IsPartition lib fa fb records
      → (features : List (Json lib.Float)) × (render_change_layer lib records fa fb
          ≡ ok (collection lib features))
        × All2 Renders records features
  unfolding render_change_layer
  render_change_layer-returns records p =
      let inside_a =
        All-of_flat_map (λ r. r.osm_ids_a) (λ x. In x (keys fa)) records
          (λ x m. omega (arith, p.once_a x)) in
      let inside_b =
        All-of_flat_map (λ r. r.osm_ids_b) (λ x. In x (keys fb)) records
          (λ x m. omega (arith, p.once_b x)) in
      let (features, run, all) = traverse-returns (render_record lib fa fb) Renders records (
        All-map _ _ records
          (λ r inside.
            let (j, here, how) = render_record-returns r inside.0 inside.1 in (j, here, ∣ how ∣₁))
          (All-zip _ _ records inside_a inside_b)) in
      (features, rw run, all)
