-- ===== src/Matching/Changeset/Components.antt =====
-- `_connected_components` of src/matching/changeset.py: the candidate graph and its components.
pub mod Graph
pub mod Pushes
pub mod Walks
pub mod Correct
pub mod Termination
use gis_vector_map_changes.Prelude.{
  ℕ, zero, suc, String, List, [], ◌∷◌, ◌++◌, foldl, Bool, true, false, not, Option, none, some,
  Dict, keys, lookup, insert, index, HashOrder, set_add, set_update, contains, keep, length, In,
  Result, ok, err, out_of_fuel, ◌>>=◌, if◌then◌else◌,
}

-- `nb.setdefault(k, set())`, as the set that it returns
abbrev pub neighbour_set : Dict (List String) → String → List String
neighbour_set nb k = elim (lookup k nb) [ none ↦ [] | some s ↦ s ]

-- `neighbours.setdefault(b_id, set()).add(a_id)`
unfoldable pub link : String → Dict (List String) → String → Dict (List String)
link a_id nb b_id = insert b_id (set_add (neighbour_set nb b_id) a_id) nb

-- one round of the loop over `candidates.items()`
unfoldable pub add_row : Dict (List String) → String × List String → Dict (List String)
add_row nb (a_id, b_ids) =
    foldl (link a_id) (insert a_id (set_update (neighbour_set nb a_id) b_ids) nb) b_ids

-- the dict `neighbours`
unfoldable pub neighbours : Dict (List String) → Dict (List String)
unfolding add_row
neighbours = foldl add_row []

-- The variables of one walk. The top of the stack `queue`, which `queue.pop()` takes, comes first.
pub record Walk : Type 0 where
  pub seen : List String
  pub members : List String
  pub queue : List String

-- the body of the loop over `neighbours[node]`
unfoldable pub push : Walk → String → Walk
push w neighbour =
    if contains w.seen neighbour
    then w
    else record w { seen = set_add w.seen neighbour; queue = neighbour ∷ w.queue }

-- A component: its osm_ids of the older snapshot, and those of the newer one.
pub record Group : Type 0 where
  pub a_ids : List String
  pub b_ids : List String

-- all osm_ids of a component
abbrev pub ids : Group → List String
ids g = g.a_ids ++ g.b_ids

module _ (order : HashOrder) where
  open order use {iterate}

  -- one round of `while queue`, after `node` was popped
  unfoldable pub visit : Walk → String → List String → List String → Walk
  unfolding push
  visit w node rest around =
      foldl push (record w { members = set_add w.members node; queue = rest }) (iterate around)

  -- `while queue`. Each node is pushed at most once, so as many rounds as there are nodes suffice.
  unfoldable pub walk : Dict (List String) → ℕ → Walk → Result Walk
  walk nb zero w = elim w.queue [ [] ↦ ok w | _ ∷ _ ↦ err out_of_fuel ]
  walk nb (suc fuel) w = elim w.queue [
    | [] ↦ ok w
    | node ∷ rest ↦ do around ← index nb node; walk nb fuel (visit w node rest around)
  ]

  -- the two frozensets of a component
  unfoldable pub split : List String → List String → Group
  split a_side members = record {
    a_ids = keep (contains a_side) (iterate members);
    b_ids = keep (λ m. not (contains a_side m)) (iterate members);
  }

  -- the walk out from `start`
  unfoldable pub walk_from : Dict (List String) → List String → String → Result Walk
  unfolding walk
  walk_from nb seen start =
      walk nb (length (keys nb))
        (record { seen = set_add seen start; members = []; queue = start ∷ [] })

  -- the loop over the starts, with the set `seen` so far
  unfoldable pub components_from :
      Dict (List String) → List String → List String → List String → Result (List Group)
  unfolding walk_from split
  components_from nb a_side seen [] = ok []
  components_from nb a_side seen (start ∷ rest) = elim (contains seen start) [
    | true ↦ components_from nb a_side seen rest
    | false ↦ do
      w ← walk_from nb seen start
      groups ← components_from nb a_side w.seen rest
      ok (split a_side w.members ∷ groups)
  ]

  unfoldable pub connected_components : Dict (List String) → Result (List Group)
  unfolding components_from neighbours
  connected_components candidates =
      components_from (neighbours candidates) (keys candidates) [] (keys (neighbours candidates))
