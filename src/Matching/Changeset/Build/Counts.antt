-- ===== src/Matching/Changeset/Build/Counts.antt =====
-- What the lists and the sets of the osm_ids of groups hold.
use gis_vector_map_changes.Prelude.{
  ◌+◌, String, List, [], ◌∷◌, foldl, true, contains, count, set_update, flat_map, arith, ◌≡◌, refl,
  if◌then◌else◌, count-append, count-set_update,
}
use gis_vector_map_changes.Matching.Changeset.Components.{Group, ids}

-- The sets `matched_a` and `matched_b` hold what the groups hold.
pub contains-matched :
    (side : Group → List String) (x : String) (s : List String) (gs : List Group)
    → contains (foldl (λ t g. set_update t (side g)) s gs) x
      ≡ (if contains s x then true else contains (flat_map side gs) x)
unfolding flat_map
contains-matched side x s [] = ground arith
contains-matched side x s (g ∷ gs) = ground (
  arith,
  contains-matched side x (set_update s (side g)) gs,
  count-set_update x s (side g),
  count-append x (side g) (flat_map side gs),
)

pub count-flat_map-ids :
    (x : String) (gs : List Group)
    → count x (flat_map ids gs)
      ≡ count x (flat_map (λ g. g.a_ids) gs) + count x (flat_map (λ g. g.b_ids) gs)
unfolding flat_map
count-flat_map-ids x [] = omega arith
count-flat_map-ids x (g ∷ gs) = omega (
  arith,
  count-flat_map-ids x gs,
  count-append x (ids g) (flat_map ids gs),
  count-append x g.a_ids g.b_ids,
  count-append x g.a_ids (flat_map (λ h. h.a_ids) gs),
  count-append x g.b_ids (flat_map (λ h. h.b_ids) gs),
)

pub flat_map-singles :
    (x : String) (xs : List String) → count x (flat_map (λ y. y ∷ []) xs) ≡ count x xs
unfolding flat_map
flat_map-singles x [] = refl
flat_map-singles x (y ∷ xs) = ground (arith, flat_map-singles x xs)
