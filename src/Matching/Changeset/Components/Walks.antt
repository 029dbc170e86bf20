-- ===== src/Matching/Changeset/Components/Walks.antt =====
-- One walk of `_connected_components`: what its loop keeps, and that it ends.
use gis_vector_map_changes.Prelude.{
  ℕ, zero, suc, ◌+◌, ◌≤◌, ◌<◌, String, List, [], ◌∷◌, Dict, keys, index, set_add, contains, count,
  length, In, HashOrder, ok, arith, ◌≡◌, ap, inl, inr, Bool-cases, eq_iff, ◌==◌, if◌then◌else◌,
  count-set_add, lookup_of_In, List-cases,
}
use gis_vector_map_changes.Matching.Changeset.Components.{neighbour_set, Walk, visit, walk}
use gis_vector_map_changes.Matching.Changeset.Components.Graph.{IsGraph}
use gis_vector_map_changes.Matching.Changeset.Components.Pushes.{
  Visited, pushes-Visited, work, pushes-work,
}

-- The nodes that a walk along `neighbours` leads to.
pub data Linked (nb : Dict (List String)) (start : String) : String → Type 0 where
  here : Linked nb start start
  step : {u v : String} → Linked nb start u → In v (neighbour_set nb u) → Linked nb start v

module _ (order : HashOrder) (nb : Dict (List String)) (graph : IsGraph nb) where
  open order use {iterate, count-iterate}

  -- What holds whenever the test of `while queue` is made, for a walk out from `start` that began
  -- with the marks `before`.
  pub record Inv (before : List String) (start : String) (w : Walk) : Type 0 where
    pub counts :
        (x : String) → count x w.seen ≡ count x before + count x w.members + count x w.queue
    pub distinct : (x : String) → count x w.seen ≤ 1
    pub nodes : (x : String) → In x w.seen → In x (keys nb)
    pub closed : (u v : String) → In u w.members → In v (neighbour_set nb u) → In v w.seen
    pub linked : (x : String) → 0 < count x w.members + count x w.queue → Linked nb start x
    pub root : 0 < count start w.members + count start w.queue

  visit-Visited :
      (w : Walk) (node : String) (rest ns : List String) (x : String)
      → Visited
          (iterate ns)
          (record w { members = set_add w.members node; queue = rest })
          (visit order w node rest ns)
          x
  unfolding visit
  visit-Visited w node rest ns x =
      pushes-Visited (iterate ns) (record w { members = set_add w.members node; queue = rest }) x

  -- What one round of `while queue` does to the counts.
  record Round (w v : Walk) (node : String) (ns : List String) (x : String) : Type 0 where
    seen :
        count x v.seen
        ≡ (if contains w.seen x then count x w.seen else if contains ns x then 1 else 0)
    members : count x v.members ≡ (if x == node then 1 else count x w.members)
    queue :
        count x v.queue + count x w.seen + (if x == node then 1 else 0)
        ≡ count x w.queue + count x v.seen

  module _ (before : List String) (start : String) (w : Walk) (node : String) (rest : List String)
      (e : w.queue ≡ node ∷ rest) (h : Inv before start w) where
    visit-Round : (ns : List String) (x : String) → Round w (visit order w node rest ns) node ns x
    visit-Round ns x = ground (
      arith,
      visit-Visited w node rest ns x,
      count-set_add x node w.members,
      h.counts node,
      h.distinct node,
      count-iterate x ns,
      eq_iff x node,
      eq_iff node node,
      ap (count x) e,
      ap (count node) e,
    )

    node-seen : In node w.seen
    node-seen = ground (arith, h.counts node, eq_iff node node, ap (count node) e)

    node-Linked : Linked nb start node
    node-Linked = h.linked node (ground (arith, eq_iff node node, ap (count node) e))

    pub after : Walk
    after = visit order w node rest (neighbour_set nb node)

    visit-closed : (u v : String) → In u after.members → In v (neighbour_set nb u) → In v after.seen
    unfolding after
    visit-closed u v m a = elim (Bool-cases (u == node)) [
      | inl same ↦
          let around : In v (neighbour_set nb node) = rw ((eq_iff u node).0 same) at a in
          ground (arith, visit-Round (neighbour_set nb node) v)
      | inr other ↦ ground (
        arith,
        visit-Round (neighbour_set nb node) u,
        visit-Round (neighbour_set nb node) v,
        h.closed u v,
      )
    ]

    visit-Linked :
        (x : String) → 0 < count x after.members + count x after.queue → Linked nb start x
    unfolding after
    visit-Linked x m = elim (Bool-cases (contains w.seen x)) [
      | inl old ↦ elim (Bool-cases (x == node)) [
        | inl same ↦ rw ((eq_iff x node).0 same) node-Linked
        | inr other ↦ h.linked x (ground (arith, visit-Round (neighbour_set nb node) x, h.counts x))
      ]
      | inr new ↦ step node-Linked (
          ground
            (arith, visit-Round (neighbour_set nb node) x, h.counts x, node-seen, eq_iff x node))
    ]

    visit-Inv : Inv before start after
    unfolding after
    visit-Inv = record {
      counts = λ x. ground (
        arith,
        visit-Round (neighbour_set nb node) x,
        h.counts x,
        h.distinct x,
        node-seen,
        eq_iff x node,
      );
      distinct = λ x. ground (arith, visit-Round (neighbour_set nb node) x, h.distinct x);
      nodes = λ x m.
          ground (arith, visit-Round (neighbour_set nb node) x, h.nodes x, graph.closed node x);
      closed = visit-closed;
      linked = visit-Linked;
      root = ground (
        arith,
        visit-Round (neighbour_set nb node) start,
        h.root,
        h.counts start,
        h.distinct start,
        node-seen,
        eq_iff start node,
      );
    }

    visit-work : suc (work (keys nb) after) ≤ work (keys nb) w
    unfolding after visit
    visit-work = omega (
      arith,
      pushes-work (keys nb) (iterate (neighbour_set nb node))
          (record w { members = set_add w.members node; queue = rest })
          (λ x i. graph.closed node x (omega (arith, count-iterate x (neighbour_set nb node)))),
      ap length e,
    )

    index-node : index nb node ≡ ok (neighbour_set nb node)
    unfolding index
    index-node = let (around, found) = lookup_of_In node nb (h.nodes node node-seen) in ground arith

  -- With fuel for its work a walk ends with an empty queue, and keeps `Inv`.
  pub walk_ends :
      (before : List String) (start : String) (fuel : ℕ) (w : Walk)
      → Inv before start w
      → work (keys nb) w ≤ fuel
      → (t : Walk) × (walk order nb fuel w ≡ ok t) × Inv before start t × (t.queue ≡ [])
  unfolding walk after
  walk_ends before start zero w h enough = elim (List-cases w.queue) [
    | inl empty ↦ (w, rw empty, h, empty)
    | inr (node, rest, e) ↦ absurd (omega (arith, ap length e))
  ]
  walk_ends before start (suc fuel) w h enough = elim (List-cases w.queue) [
    | inl empty ↦ (w, rw empty, h, empty)
    | inr (node, rest, e) ↦
        let (t, run, inv, empty) =
          walk_ends before start fuel (after before start w node rest e h)
            (visit-Inv before start w node rest e h)
            (omega (arith, visit-work before start w node rest e h)) in
        (t, rw (e, walk, index-node before start w node rest e h) run, inv, empty)
  ]
