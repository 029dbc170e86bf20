-- ===== src/Matching/Candidates/Exact.antt =====
-- The spatial index changes nothing: the candidates are the pairs that share an area.
use gis_vector_map_changes.Prelude.{
  ℕ, ◌<◌, ◌≤◌, ◌+◌, suc, String, List, [], ◌∷◌, Bool, true, false, ◌||◌, ◌&&◌, none, some, Dict,
  keys, lookup, insert, index, keep, contains, count, count_nat, get_elem?, eqb, get_elem?_of_lt,
  In-of_get_elem?, length, In, IsDistinct, ok, traverse, arith, ◌≡◌, refl, sym, ap, inl, inr,
  Bool-cases, Option-cases, eq_iff, ◌==◌, if◌then◌else◌, count-keys-insert, count-keep,
  lookup_of_In, lookup_missing,
}
use gis_vector_map_changes.Shapely.{Shapely, QueryLaw}
use gis_vector_map_changes.Matching.Features.{LoadedFeature}
use gis_vector_map_changes.Matching.Candidates.{
  is_pair, is_empty, at, geometries, overlaps, passed, matches_of, candidates_from,
  generate_candidates,
}

traverse-at :
    (ids : List String) (is : List ℕ)
    → ((i : ℕ) → 0 < count_nat i is → i < length ids)
    → (bs : List String) × (traverse (at ids) is ≡ ok bs)
      × ((b : String) → In b bs → In b ids)
      × ((i : ℕ) (b : String) → 0 < count_nat i is → get_elem? ids i ≡ some b → In b bs)
unfolding at traverse
traverse-at ids [] range = ([], refl, λ b m. absurd (omega arith), λ i b m e. absurd (omega arith))
traverse-at ids (i ∷ is) range =
    let (b, here) = get_elem?_of_lt ids i (range i (ground arith)) in
    let (bs, run, inside, hit) = traverse-at ids is (λ j m. range j (ground arith)) in
    (
      b ∷ bs,
      ground arith,
      λ c m. elim (Bool-cases (c == b)) [
        | inl same ↦ rw ((eq_iff c b).0 same) (In-of_get_elem? ids i b here)
        | inr other ↦ inside c (ground arith)
      ],
      λ j c m e. elim (Bool-cases (eqb j i)) [
        | inl same ↦ ground (arith, eq_iff c b)
        | inr other ↦ let there = hit j c (ground arith) e in ground (arith, eq_iff c b)
      ],
    )

module _ (lib : Shapely) where
  open lib use {Float, Geometry, decimal, float_gt, area, intersection, query}

  -- The two geometries share an area.
  abbrev pub share_area : Geometry → Geometry → Bool
  share_area g h = float_gt (area (intersection g h)) (decimal 0 0)

  -- The geometry shares an area with that of the feature `b`, if there is one.
  abbrev pub shares_with : Geometry → Dict (LoadedFeature lib) → String → Bool
  shares_with g d b = elim (lookup b d) [ none ↦ false | some f ↦ share_area g f.geometry ]

  -- The features `a` and `b` are there and share an area.
  abbrev pub share_area_ids :
      Dict (LoadedFeature lib) → Dict (LoadedFeature lib) → String → String → Bool
  share_area_ids da db a b = elim (lookup a da) [
    | none ↦ false
    | some f ↦ shares_with f.geometry db b
  ]

  passed-overlaps :
      (g : Geometry) (d : Dict (LoadedFeature lib)) (bs : List String)
      → ((b : String) → In b bs → In b (keys d))
      → (ts : List (String × Bool)) × (traverse (overlaps lib g d) bs ≡ ok ts)
        × (passed lib ts ≡ keep (shares_with g d) bs)
  unfolding overlaps traverse index
  passed-overlaps g d [] inside = ([], refl, refl)
  passed-overlaps g d (b ∷ bs) inside =
      let (f, found) = lookup_of_In b d (inside b (ground (arith, eq_iff b b))) in
      let (ts, run, same) = passed-overlaps g d bs (λ c m. inside c (ground arith)) in
      ((b, share_area g f.geometry) ∷ ts, ground arith, ground arith)

  -- Where `lookup` finds a feature, `b_ids` and `b_geoms` hold it at one index.
  position_of :
      (b : String) (d : Dict (LoadedFeature lib)) (f : LoadedFeature lib)
      → lookup b d ≡ some f
      → (i : ℕ) × (get_elem? (keys d) i ≡ some b)
        × (get_elem? (geometries lib d) i ≡ some f.geometry)
  unfolding lookup
  position_of b [] f h = cc
  position_of b ((k, g) ∷ d) f h = elim (Bool-cases (b == k)) [
    | inl same ↦ (0, ground (arith, eq_iff b k), ground arith)
    | inr other ↦
        let (i, at_key, at_geometry) = position_of b d f (rw (other, lookup) at h) in
        (suc i, at_key, at_geometry)
  ]

  length-geometries : (d : Dict (LoadedFeature lib)) → length (geometries lib d) ≡ length (keys d)
  length-geometries [] = refl
  length-geometries ((k, f) ∷ d) = ap suc (length-geometries d)

  module _ (law : QueryLaw lib) where
    query-range :
        (d : Dict (LoadedFeature lib)) (g : Geometry) (i : ℕ)
        → 0 < count_nat i (query (geometries lib d) g)
        → i < length (keys d)
    query-range d g i m = omega (arith, law.in_range (geometries lib d) g i m, length-geometries d)

    -- A feature that shares an area is among those that the index reports.
    query-hit :
        (d : Dict (LoadedFeature lib)) (g : Geometry) (b : String) (bs : List String)
        → ((i : ℕ) (c : String)
            → 0 < count_nat i (query (geometries lib d) g)
            → get_elem? (keys d) i ≡ some c
            → In c bs)
        → shares_with g d b ≡ true
        → In b bs
    query-hit d g b bs hit shares = elim (Option-cases (lookup b d)) [
      | inl missing ↦ absurd (ground arith)
      | inr (f, found) ↦
          let (i, at_key, at_geometry) = position_of b d f found in
          let touch = law.overlap_intersects g f.geometry (ground arith) in
          hit i b (law.complete (geometries lib d) g f.geometry i at_geometry touch) at_key
    ]

    -- For one feature: the index reports exactly what a test of every feature would.
    matches_of-exact :
        (d : Dict (LoadedFeature lib)) (g : Geometry)
        → (ms : List String) × (matches_of lib d g ≡ ok ms)
          × ((b : String) → contains ms b ≡ shares_with g d b)
    unfolding matches_of
    matches_of-exact d g =
        let (bs, run, inside, hit) =
          traverse-at (keys d) (query (geometries lib d) g) (query-range d g) in
        let (ts, tested, same) = passed-overlaps g d bs inside in
        (
          passed lib ts,
          rw (run, tested),
          λ b. rw same (ground (arith, count-keep (shares_with g d) b bs, query-hit d g b bs hit)),
        )

    -- What the loop over `only_in_a` has collected, after the rows of `da` were added to `result`.
    record Collected (result : Dict (List String)) (da db : Dict (LoadedFeature lib))
        (final : Dict (List String)) : Type 0 where
      exact : (a b : String) → is_pair final a b ≡ (is_pair result a b || share_area_ids da db a b)
      distinct : IsDistinct (keys final)
      a_keys : (x : String) → In x (keys final) → 0 < count x (keys result) + count x (keys da)

    is_pair-insert :
        (k a b : String) (ms : List String) (d : Dict (List String))
        → contains (keys d) k ≡ false
        → is_pair (insert k ms d) a b ≡ (is_pair d a b || (a == k && contains ms b))
    unfolding insert
    is_pair-insert k a b ms [] h = ground arith
    is_pair-insert k a b ms ((j, ns) ∷ d) h = ground (arith, is_pair-insert k a b ms d, eq_iff k j)

    candidates_from-exact :
        (result : Dict (List String)) (da db : Dict (LoadedFeature lib))
        → IsDistinct (keys result)
        → ((x : String) → count x (keys result) + count x (keys da) ≤ 1)
        → (final : Dict (List String)) × (candidates_from lib result da db ≡ ok final)
          × Collected result da db final
    unfolding candidates_from lookup
    candidates_from-exact result [] db distinct apart = (
      result,
      refl,
      record { exact = λ a b. ground arith; distinct = distinct; a_keys = λ x m. omega arith },
    )
    candidates_from-exact result ((k, f) ∷ da) db distinct apart =
        let (ms, run, exact) = matches_of-exact db f.geometry in
        let next = if is_empty ms then result else insert k ms result in
        let (final, rest, got) =
          candidates_from-exact next da db
            (λ x. ground (arith, distinct x, count-keys-insert k x ms result))
            (λ x. ground (arith, apart x, count-keys-insert k x ms result, eq_iff x k)) in
        (
          final,
          rw (run, rest),
          record {
            exact = λ a b. ground (
              arith,
              got.exact a b,
              is_pair-insert k a b ms result,
              exact b,
              apart k,
              apart a,
              eq_iff a k,
              eq_iff k k,
              lookup_missing a da,
            );
            distinct = got.distinct;
            a_keys =
                λ x m. ground (arith, got.a_keys x, count-keys-insert k x ms result, eq_iff x k);
          },
        )

    -- What `generate_candidates` promises of the candidates that it returns.
    pub record IsCandidates (only_in_a only_in_b : Dict (LoadedFeature lib))
        (candidates : Dict (List String)) : Type 0 where
      -- exactly the pairs whose geometries share an area are candidates
      pub exact : (a b : String) → is_pair candidates a b ≡ share_area_ids only_in_a only_in_b a b
      pub distinct : IsDistinct (keys candidates)
      pub a_keys : (x : String) → In x (keys candidates) → In x (keys only_in_a)

    nothing_shared :
        (da : Dict (LoadedFeature lib)) (a b : String) → share_area_ids da [] a b ≡ false
    unfolding lookup
    nothing_shared da a b = ground arith

    -- Where the older features have distinct osm_ids and the tree query satisfies its law,
    -- `generate_candidates` returns, and an osm_id of the older snapshot has an osm_id of the newer one
    -- among its candidates exactly if the intersection of their geometries has a positive area.
    pub generate_candidates-exact :
        (only_in_a only_in_b : Dict (LoadedFeature lib))
        → IsDistinct (keys only_in_a)
        → (candidates : Dict (List String)) × (generate_candidates lib only_in_a only_in_b
            ≡ ok candidates)
          × IsCandidates only_in_a only_in_b candidates
    unfolding generate_candidates
    generate_candidates-exact [] db distinct = (
      [],
      refl,
      record {
        exact = λ a b. unfold lookup in refl;
        distinct = λ x. omega arith;
        a_keys = λ x m. m;
      },
    )
    generate_candidates-exact ((k, f) ∷ da) [] distinct = (
      [],
      refl,
      record {
        exact = λ a b. sym (nothing_shared ((k, f) ∷ da) a b);
        distinct = λ x. omega arith;
        a_keys = λ x m. absurd (omega arith);
      },
    )
    generate_candidates-exact ((k, f) ∷ da) ((j, g) ∷ db) distinct =
        let (final, run, got) =
          candidates_from-exact [] ((k, f) ∷ da) ((j, g) ∷ db) (λ x. omega arith)
            (λ x. omega (arith, distinct x)) in
        (
          final,
          run,
          record {
            exact = got.exact;
            distinct = got.distinct;
            a_keys = λ x m. omega (arith, got.a_keys x m);
          },
        )
