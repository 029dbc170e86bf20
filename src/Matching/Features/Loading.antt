-- ===== src/Matching/Features/Loading.antt =====
-- `load_features` keys each feature by its osm_id, or raises on the first osm_id that comes twice.
use gis_vector_map_changes.Prelude.{
  ◌+◌, ◌≤◌, String, List, [], ◌∷◌, ◌++◌, Bool, true, false, some, Dict, keys, lookup, insert,
  contains, count, IsDistinct, ok, err, err≢ok, value_error, All2, arith, ◌≡◌, refl, ◌↔◌, inl, inr,
  Bool-cases, eq_iff, eq_refl, ◌==◌, if◌then◌else◌, lookup-insert, count-keys-insert, >>=-eq-ok,
  count-append, append-nil, sym, ◌∙◌, false≢true, subst,
}
use gis_vector_map_changes.Json.{Json, arr, nil}
use gis_vector_map_changes.Json
use gis_vector_map_changes.Shapely.{Shapely}
use gis_vector_map_changes.Matching.Features.{
  LoadedFeature, load_feature, add_feature, load_from, load_features,
}

module _ (lib : Shapely) where
  -- A dict as `load_features` builds it: no key twice, and each feature under its osm_id.
  pub record IsKeyed (d : Dict (LoadedFeature lib)) : Type 0 where
    pub distinct : IsDistinct (keys d)
    pub own_id : (k : String) (f : LoadedFeature lib) → lookup k d ≡ some f → f.osm_id ≡ k

  -- the features' osm_ids, in order
  abbrev pub osm_ids : List (LoadedFeature lib) → List String
  osm_ids [] = []
  osm_ids (f ∷ fs) = f.osm_id ∷ osm_ids fs

  -- the features under their osm_ids, in order
  abbrev pub by_osm_id : List (LoadedFeature lib) → Dict (LoadedFeature lib)
  by_osm_id [] = []
  by_osm_id (f ∷ fs) = (f.osm_id, f) ∷ by_osm_id fs

  -- Some text comes twice in the list, or comes in `before` too.
  abbrev pub clash : List String → List String → Bool
  clash before [] = false
  clash before (x ∷ xs) =
      let rest = clash (before ++ x ∷ []) xs in if contains before x then true else rest

  insert_fresh :
      (k : String) (f : LoadedFeature lib) (d : Dict (LoadedFeature lib))
      → contains (keys d) k ≡ false
      → insert k f d ≡ d ++ (k, f) ∷ []
  unfolding insert
  insert_fresh k f [] h = refl
  insert_fresh k f ((j, g) ∷ d) h = ground (arith, insert_fresh k f d, eq_iff k j)

  keys-append : (d e : Dict (LoadedFeature lib)) → keys (d ++ e) ≡ keys d ++ keys e
  keys-append [] e = refl
  keys-append ((k, f) ∷ d) e = rw (keys-append d e)

  append_step :
      (d : Dict (LoadedFeature lib)) (x : String × LoadedFeature lib) (e : Dict (LoadedFeature lib))
      → (d ++ x ∷ []) ++ e ≡ d ++ x ∷ e
  append_step [] x e = refl
  append_step (y ∷ d) x e = rw (append_step d x e)

  load_from_lem :
      (d : Dict (LoadedFeature lib)) (raws : List (Json lib.Float)) (fs : List (LoadedFeature lib))
      → All2 (λ raw f. load_feature lib raw ≡ ok f) raws fs
      → load_from lib d raws ≡ (
          if clash (keys d) (osm_ids fs)
          then err (value_error "duplicate osm_id in snapshot")
          else ok (d ++ by_osm_id fs))
  unfolding load_from add_feature
  load_from_lem d [] [] h = rw append-nil
  load_from_lem d [] (f ∷ fs) h = elim h [ ]
  load_from_lem d (raw ∷ raws) [] h = elim h [ ]
  load_from_lem d (raw ∷ raws) (f ∷ fs) h = elim (Bool-cases (contains (keys d) f.osm_id)) [
    | inl twice ↦ rw (h.0, add_feature, twice)
    | inr new ↦
        rw (h.0, add_feature, new)
          (rw (insert_fresh f.osm_id f d new, load_from_lem (d ++ (f.osm_id, f) ∷ []) raws fs h.1)
            (rw (keys-append d ((f.osm_id, f) ∷ []), append_step d (f.osm_id, f) (by_osm_id fs))))
  ]

  -- No clash is found exactly if all texts together are distinct.
  clash_iff :
      (before xs : List String)
      → IsDistinct before
      → (clash before xs ≡ false) ↔ ((y : String) → count y before + count y xs ≤ 1)
  clash_iff before [] d = (λ h y. omega (arith, d y), λ h. refl)
  clash_iff before (x ∷ xs) d = elim (Bool-cases (contains before x)) [
    | inl old ↦ (λ h. absurd (ground arith), λ h. absurd (ground (arith, h x, eq_refl x)))
    | inr new ↦
        let next = λ (y : String). count-append y before (x ∷ []) in
        let further =
          clash_iff (before ++ x ∷ []) xs (λ y. ground (arith, next y, d y, eq_iff y x)) in
        (
          λ h y. ground (arith, further.0 (ground arith) y, next y, eq_iff y x),
          λ h. rw new (further.1 (λ y. ground (arith, h y, next y, eq_iff y x))),
        )
  ]

  insert-IsKeyed :
      (f : LoadedFeature lib) (d : Dict (LoadedFeature lib))
      → IsKeyed d
      → contains (keys d) f.osm_id ≡ false
      → IsKeyed (insert f.osm_id f d)
  insert-IsKeyed f d h new = record {
    distinct = λ x. ground (arith, h.distinct x, count-keys-insert f.osm_id x f d);
    own_id = λ k g at. elim (Bool-cases (k == f.osm_id)) [
      | inl same ↦
          let found : some f ≡ some g = ground (arith, lookup-insert f.osm_id k f d) in
          let own : f.osm_id ≡ g.osm_id = cc in sym own ∙ sym ((eq_iff k f.osm_id).0 same)
      | inr other ↦ h.own_id k g (ground (arith, lookup-insert f.osm_id k f d))
    ];
  }

  add_feature-IsKeyed :
      (d : Dict (LoadedFeature lib)) (f : LoadedFeature lib) (next : Dict (LoadedFeature lib))
      → IsKeyed d
      → add_feature lib d f ≡ ok next
      → IsKeyed next
  unfolding add_feature
  add_feature-IsKeyed d f next h run = elim (Bool-cases (contains (keys d) f.osm_id)) [
    | inl twice ↦ absurd (ground arith)
    | inr new ↦
        let same : insert f.osm_id f d ≡ next = ground arith in
        subst IsKeyed same (insert-IsKeyed f d h new)
  ]

  load_from-IsKeyed :
      (d : Dict (LoadedFeature lib)) (raws : List (Json lib.Float)) (out : Dict (LoadedFeature lib))
      → IsKeyed d
      → load_from lib d raws ≡ ok out
      → IsKeyed out
  unfolding load_from
  load_from-IsKeyed d [] out h run = let same : d ≡ out = cc in subst IsKeyed same h
  load_from-IsKeyed d (raw ∷ raws) out h run =
      let (f, loaded, rest) = >>=-eq-ok (load_feature lib raw) _ run in
      let (next, added, others) = >>=-eq-ok (add_feature lib d f) _ rest in
      load_from-IsKeyed next raws out (add_feature-IsKeyed d f next h added) others

  -- A snapshot that is loaded has no osm_id twice, and holds each feature under its own osm_id.
  pub load_features-IsKeyed :
      (processed_geojson : Json lib.Float) (d : Dict (LoadedFeature lib))
      → load_features lib processed_geojson ≡ ok d
      → IsKeyed d
  unfolding load_features
  load_features-IsKeyed j d run =
      let (features, got, rest) = >>=-eq-ok (Json.get_or j "features" (arr nil)) _ run in
      let (raws, listed, loaded) = >>=-eq-ok (Json.as_list features) _ rest in
      load_from-IsKeyed [] raws d
        (record { distinct = λ x. omega arith; own_id = λ k f at. unfold lookup in cc }) loaded

  -- Where every feature of a snapshot can be loaded by itself, `load_features` raises ValueError
  -- exactly if two of them have one osm_id, and otherwise returns all of them, in order.
  pub load_features_lem :
      (processed_geojson features : Json lib.Float) (raws : List (Json lib.Float))
      (fs : List (LoadedFeature lib))
      → Json.get_or processed_geojson "features" (arr nil) ≡ ok features
      → Json.as_list features ≡ ok raws
      → All2 (λ raw f. load_feature lib raw ≡ ok f) raws fs
      → ((load_features lib processed_geojson ≡ ok (by_osm_id fs)) ↔ IsDistinct (osm_ids fs))
        × ((load_features lib processed_geojson ≡ err (value_error "duplicate osm_id in snapshot"))
            ↔ (¬ IsDistinct (osm_ids fs)))
  unfolding load_features
  load_features_lem j features raws fs got listed each =
      let whole = load_from_lem [] raws fs each in
      let clashes = clash_iff [] (osm_ids fs) (λ x. omega arith) in
      elim (Bool-cases (clash [] (osm_ids fs))) [
        | inl twice ↦
            let raised : load_features lib j ≡ err (value_error "duplicate osm_id in snapshot") =
              rw (got, listed, whole, twice) in
            let clashing : ¬ IsDistinct (osm_ids fs) =
              λ d. false≢true (sym (clashes.1 (λ y. omega (arith, d y))) ∙ twice) in
            (
              (λ e. absurd (err≢ok (sym raised ∙ e)), λ d. absurd (clashing d)),
              (λ e. clashing, λ n. raised),
            )
        | inr none' ↦
            let returned : load_features lib j ≡ ok (by_osm_id fs) =
              rw (got, listed, whole, none') in
            let distinct : IsDistinct (osm_ids fs) = λ y. omega (arith, clashes.0 none' y) in
            (
              (λ e. distinct, λ d. returned),
              (λ e. absurd (err≢ok (sym e ∙ returned)), λ n. absurd (n distinct)),
            )
      ]
