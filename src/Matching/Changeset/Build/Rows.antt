-- ===== src/Matching/Changeset/Build/Rows.antt =====
-- The candidate sets of a row, the neighbours in a component, and the reason of an ambiguous one.
use gis_vector_map_changes.Prelude.{
  String, List, [], ◌∷◌, Bool, true, false, Dict, keys, lookup, contains, In, IsDistinct, arith,
  ◌≡◌, refl, ◌⊎◌, inl, inr, Bool-cases, eq_iff, if◌then◌else◌, count-set_update,
}
use gis_vector_map_changes.Matching.Candidates.{is_pair}
use gis_vector_map_changes.Matching.Changeset.Components.{Group, ids, neighbour_set}
use gis_vector_map_changes.Matching.Changeset.Components.Graph.{is_node}
use gis_vector_map_changes.Matching.Changeset.Components.Walks.{Linked, here, step}
use gis_vector_map_changes.Matching.Changeset.Components.Correct.{IsComponent}
use gis_vector_map_changes.Matching.Changeset.Build.{candidate_sets}

pub pair-key : (a b : String) (d : Dict (List String)) → is_pair d a b ≡ true → In a (keys d)
pair-key a b [] h = cc
pair-key a b ((k, bs) ∷ d) h = ground (arith, pair-key a b d)

-- The set of a row holds what the row holds.
pub contains-candidate_sets :
    (d : Dict (List String)) (a b : String)
    → IsDistinct (keys d)
    → contains (neighbour_set (candidate_sets d) a) b ≡ is_pair d a b
unfolding candidate_sets lookup
contains-candidate_sets [] a b h = refl
contains-candidate_sets ((k, bs) ∷ d) a b h = ground (
  arith,
  contains-candidate_sets d a b (λ x. ground (arith, h x)),
  count-set_update b [] bs,
  pair-key a b d,
  h a,
  h k,
  eq_iff a k,
  eq_iff k k,
)

-- A member of a component that is not on the older side stands in some row.
pub row_of :
    (d : Dict (List String)) (b : String)
    → is_node d b ≡ true
    → contains (keys d) b ≡ false
    → (a : String) × (is_pair d a b ≡ true)
row_of [] b node fresh = absurd (ground arith)
row_of ((k, bs) ∷ d) b node fresh = elim (Bool-cases (contains bs b)) [
  | inl near ↦ (k, ground (arith, eq_iff k k))
  | inr further ↦ let (a, pair) = row_of d b (ground arith) (ground arith) in (a, ground arith)
]

-- `len(ids) == 1`
abbrev pub is_one : List String → Bool
is_one (x ∷ []) = true
is_one _ = false

-- The reason that the source gives for a component of this shape.
abbrev pub reason_of : List String → List String → String
reason_of a_ids b_ids =
    if is_one a_ids
    then "split_candidate"
    else if is_one b_ids
    then "merge_candidate"
    else "complex_cluster"

module _ (nb : Dict (List String)) (a_side : List String) (g : Group)
    (h : IsComponent nb a_side g) where
  Linked-In : {x : String} → Linked nb h.root x → In x (ids g)
  Linked-In here = h.root_in
  Linked-In (step {u} {v} l around) = h.closed u v (Linked-In l) around

  last_step :
      {x : String}
      → Linked nb h.root x
      → (x ≡ h.root) ⊎ ((u : String) × In u (ids g) × In x (neighbour_set nb u))
  last_step here = inl refl
  last_step (step {u} {v} l around) = inr (u, Linked-In l, around)

  -- A node other than the root has a neighbour in its component.
  pub neighbour_of :
      (x : String)
      → In x (ids g)
      → (x ≡ h.root) ⊎ ((u : String) × In u (ids g) × In x (neighbour_set nb u))
  neighbour_of x m = last_step (h.linked x m)
