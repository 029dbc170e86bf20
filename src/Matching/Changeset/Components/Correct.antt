-- ===== src/Matching/Changeset/Components/Correct.antt =====
-- The groups that `_connected_components` returns are the connected components of the candidates.
use gis_vector_map_changes.Prelude.{
  ◌+◌, ◌≤◌, ◌<◌, String, List, [], ◌∷◌, false, not, Dict, keys, set_add, contains, count, length,
  In, HashOrder, ok, flat_map, All, arith, ◌≡◌, refl, ap, inl, inr, Bool-cases, eq_iff, ◌==◌,
  if◌then◌else◌, count-set_add, count-append, count-keep,
}
use gis_vector_map_changes.Matching.Changeset.Components.{
  neighbour_set, neighbours, Walk, Group, ids, walk_from, split, components_from,
  connected_components,
}
use gis_vector_map_changes.Matching.Changeset.Components.Graph.{
  IsGraph, neighbours-IsGraph, is_node, keys-neighbours,
}
use gis_vector_map_changes.Matching.Changeset.Components.Walks.{Linked, here, Inv, walk_ends}
use gis_vector_map_changes.Matching.Changeset.Components.Pushes.{unseen-le, unseen-set_add}

-- `g` is a connected component of the graph, and its osm_ids are on the side where they belong.
pub record IsComponent (nb : Dict (List String)) (a_side : List String) (g : Group) : Type 0 where
  pub root : String
  pub root_in : In root (ids g)
  pub linked : (x : String) → In x (ids g) → Linked nb root x
  pub closed : (u v : String) → In u (ids g) → In v (neighbour_set nb u) → In v (ids g)
  pub a_side_only : (x : String) → In x g.a_ids → In x a_side
  pub b_side_only : (x : String) → In x g.b_ids → contains a_side x ≡ false
  pub distinct : (x : String) → count x (ids g) ≤ 1

module _ (order : HashOrder) (nb : Dict (List String)) (graph : IsGraph nb) where
  open order use {iterate, count-iterate}

  count-split :
      (a_side members : List String) (x : String)
      → (count x (split order a_side members).a_ids
          ≡ (if contains a_side x then count x members else 0))
        × (count x (split order a_side members).b_ids
            ≡ (if contains a_side x then 0 else count x members))
  unfolding split
  count-split a_side members x = ground (
    arith,
    count-keep (contains a_side) x (iterate members),
    count-keep (λ m. not (contains a_side m)) x (iterate members),
    count-iterate x members,
  )

  count-ids-split :
      (a_side members : List String) (x : String)
      → count x (ids (split order a_side members)) ≡ count x members
  count-ids-split a_side members x = ground (
    arith,
    count-split a_side members x,
    count-append x (split order a_side members).a_ids (split order a_side members).b_ids,
  )

  -- The marks of finished walks: nodes only, each once, and closed under adjacency.
  pub record IsSeen (seen : List String) : Type 0 where
    pub distinct : (x : String) → count x seen ≤ 1
    pub nodes : (x : String) → In x seen → In x (keys nb)
    pub closed : (u v : String) → In u seen → In v (neighbour_set nb u) → In v seen

  -- What the loop over `starts` returns, with the marks `seen` before it.
  record Found (a_side seen starts : List String) (groups : List Group) : Type 0 where
    components : All (IsComponent nb a_side) groups
    once : (x : String) → count x seen + count x (flat_map ids groups) ≤ 1
    covers : (x : String) → In x starts → 0 < count x seen + count x (flat_map ids groups)
    nodes : (x : String) → In x (flat_map ids groups) → In x (keys nb)

  module _ (seen : List String) (start : String) (fresh : contains seen start ≡ false)
      (node : In start (keys nb)) (h : IsSeen seen) where
    first : Walk
    first = record { seen = set_add seen start; members = []; queue = start ∷ [] }

    first-Inv : Inv order nb graph seen start first
    unfolding first
    first-Inv = record {
      counts = λ x. ground (arith, count-set_add x start seen, eq_iff x start);
      distinct = λ x. ground (arith, count-set_add x start seen, h.distinct x);
      nodes = λ x m. elim (Bool-cases (x == start)) [
        | inl same ↦ rw ((eq_iff x start).0 same) node
        | inr other ↦ h.nodes x (ground (arith, count-set_add x start seen))
      ];
      closed = λ u v m a. absurd (omega arith);
      linked = λ x m. elim (Bool-cases (x == start)) [
        | inl same ↦ rw ((eq_iff x start).0 same) here
        | inr other ↦ absurd (ground arith)
      ];
      root = ground (arith, eq_iff start start);
    }

    -- The walk out from an unmarked node returns, and leaves the queue empty.
    pub walk_from_ends :
        (t : Walk) × (walk_from order nb seen start ≡ ok t)
        × Inv order nb graph seen start t
        × (t.queue ≡ [])
    unfolding walk_from first
    walk_from_ends =
        walk_ends order nb graph seen start (length (keys nb)) first first-Inv
          (omega (arith, unseen-set_add (keys nb) seen start node fresh, unseen-le (keys nb) seen))

    module _ (t : Walk) (inv : Inv order nb graph seen start t) (empty : t.queue ≡ []) where
      count-seen : (x : String) → count x t.seen ≡ count x seen + count x t.members
      count-seen x = omega (arith, inv.counts x, ap (count x) empty)

      members-closed : (u v : String) → In u t.members → In v (neighbour_set nb u) → In v t.members
      members-closed u v m a = elim (Bool-cases (contains seen v)) [
        | inl old ↦
            let back = h.closed v u (ground arith) (graph.symmetric u v a) in
            absurd (omega (arith, count-seen u, inv.distinct u))
        | inr new ↦ let marked = inv.closed u v m a in ground (arith, count-seen v)
      ]

      seen-IsSeen : IsSeen t.seen
      seen-IsSeen = record {
        distinct = inv.distinct;
        nodes = inv.nodes;
        closed = λ u v m a. elim (Bool-cases (contains seen u)) [
          | inl old ↦ let marked = h.closed u v (ground arith) a in omega (arith, count-seen v)
          | inr new ↦
              let marked = members-closed u v (ground (arith, count-seen u)) a in
              omega (arith, count-seen v)
        ];
      }

      split-IsComponent :
          (a_side : List String) → IsComponent nb a_side (split order a_side t.members)
      split-IsComponent a_side = record {
        root = start;
        root_in =
            omega (arith, count-ids-split a_side t.members start, inv.root, ap (count start) empty);
        linked = λ x m. inv.linked x (omega (arith, count-ids-split a_side t.members x));
        closed = λ u v m a.
            let inside = members-closed u v (omega (arith, count-ids-split a_side t.members u)) a in
            omega (arith, count-ids-split a_side t.members v);
        a_side_only = λ x m. ground (arith, count-split a_side t.members x);
        b_side_only = λ x m. ground (arith, count-split a_side t.members x);
        distinct =
            λ x. omega (arith, count-ids-split a_side t.members x, count-seen x, inv.distinct x);
      }

      module _ (a_side rest : List String) (groups : List Group)
          (found : Found a_side t.seen rest groups) where
        group : Group
        group = split order a_side t.members

        count-group :
            (x : String)
            → count x (flat_map ids (group ∷ groups))
              ≡ count x t.members + count x (flat_map ids groups)
        unfolding group flat_map
        count-group x = omega (
          arith,
          count-append x (ids group) (flat_map ids groups),
          count-ids-split a_side t.members x,
        )

        Found-cons : Found a_side seen (start ∷ rest) (group ∷ groups)
        unfolding group
        Found-cons = record {
          components = (split-IsComponent a_side, found.components);
          once = λ x. omega (arith, found.once x, count-seen x, count-group x);
          covers = λ x m. ground (
            arith,
            found.covers x,
            count-seen x,
            count-group x,
            inv.root,
            ap (count start) empty,
            eq_iff x start,
          );
          nodes = λ x m. ground (arith, found.nodes x, inv.nodes x, count-seen x, count-group x);
        }

  components_from_returns :
      (a_side starts seen : List String)
      → IsSeen seen
      → ((x : String) → In x starts → In x (keys nb))
      → (groups : List Group) × (components_from order nb a_side seen starts ≡ ok groups)
        × Found a_side seen starts groups
  unfolding components_from flat_map group
  components_from_returns a_side [] seen h inside = (
    [],
    refl,
    record {
      components = tt;
      once = λ x. omega (arith, h.distinct x);
      covers = λ x m. absurd (omega arith);
      nodes = λ x m. absurd (omega arith);
    },
  )
  components_from_returns a_side (start ∷ rest) seen h inside =
      elim (Bool-cases (contains seen start)) [
        | inl old ↦
            let (groups, run, found) =
              components_from_returns a_side rest seen h (λ x m. inside x (ground arith)) in
            (
              groups,
              rw (old, components_from) run,
              record {
                components = found.components;
                once = found.once;
                covers = λ x m. ground (arith, found.covers x, eq_iff x start);
                nodes = found.nodes;
              },
            )
        | inr new ↦
            let node = inside start (ground (arith, eq_iff start start)) in
            let (t, walked, inv, empty) = walk_from_ends seen start new node h in
            let (groups, run, found) =
              components_from_returns a_side rest t.seen
                (seen-IsSeen seen start new node h t inv empty) (λ x m. inside x (ground arith)) in
            (
              split order a_side t.members ∷ groups,
              rw (new, components_from, walked, run),
              Found-cons seen start new node h t inv empty a_side rest groups found,
            )
      ]

-- What `_connected_components` promises of the groups that it returns.
pub record IsComponents (candidates : Dict (List String)) (groups : List Group) : Type 0 where
  -- each group is a connected component of the candidate graph
  pub components : All (IsComponent (neighbours candidates) (keys candidates)) groups
  -- each osm_id of a candidate pair stands in exactly one group, and no other does
  pub partition :
      (x : String) → count x (flat_map ids groups) ≡ (if is_node candidates x then 1 else 0)

-- `_connected_components` returns, whatever the candidates and the order of its sets, and its groups
-- are the connected components of the candidate graph, each osm_id in exactly one of them.
pub connected_components_correct :
    (order : HashOrder) (candidates : Dict (List String))
    → (groups : List Group) × (connected_components order candidates ≡ ok groups)
      × IsComponents candidates groups
unfolding connected_components
connected_components_correct order candidates =
    let nb = neighbours candidates in
    let (groups, run, found) =
      components_from_returns order nb (neighbours-IsGraph candidates) (keys candidates) (keys nb)
        []
        (record {
          distinct = λ x. omega arith;
          nodes = λ x m. absurd (omega arith);
          closed = λ u v m a. absurd (omega arith);
        })
        (λ x m. m) in
    (
      groups,
      run,
      record {
        components = found.components;
        partition = λ x.
            ground
              (arith, found.once x, found.covers x, found.nodes x, keys-neighbours x candidates);
      },
    )
