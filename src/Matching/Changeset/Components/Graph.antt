-- ===== src/Matching/Changeset/Components/Graph.antt =====
-- The adjacency that `neighbours` holds: that of the candidate pairs, in both directions.
use gis_vector_map_changes.Prelude.{
  String, List, [], ◌∷◌, foldl, Bool, true, false, ◌&&◌, ◌||◌, Dict, keys, lookup, insert, set_add,
  set_update, contains, In, arith, ◌≡◌, eq_iff, ◌==◌, lookup-insert, count-keys-insert,
  count-set_add, count-set_update,
}
use gis_vector_map_changes.Matching.Candidates.{is_pair}
use gis_vector_map_changes.Matching.Changeset.Components.{neighbour_set, link, add_row, neighbours}

-- `x` is a key, or a member of a row.
abbrev pub is_node : Dict (List String) → String → Bool
is_node [] x = false
is_node ((k, bs) ∷ d) x = (x == k || contains bs x) || is_node d x

-- `neighbours[u]` holds `v`.
abbrev pub adjacent : Dict (List String) → String → String → Bool
adjacent nb u v = contains (neighbour_set nb u) v

adjacent-link :
    (a b u v : String) (nb : Dict (List String))
    → adjacent (link a nb b) u v ≡ (adjacent nb u v || (u == b && v == a))
unfolding link
adjacent-link a b u v nb = ground (
  arith,
  lookup-insert b u (set_add (neighbour_set nb b) a) nb,
  count-set_add v a (neighbour_set nb b),
  eq_iff u b,
  eq_iff v a,
)

adjacent-links :
    (a u v : String) (nb : Dict (List String)) (bs : List String)
    → adjacent (foldl (link a) nb bs) u v ≡ (adjacent nb u v || (contains bs u && v == a))
adjacent-links a u v nb [] = ground arith
adjacent-links a u v nb (b ∷ bs) =
    ground (arith, adjacent-links a u v (link a nb b) bs, adjacent-link a b u v nb)

adjacent-add_row :
    (a u v : String) (nb : Dict (List String)) (bs : List String)
    → adjacent (add_row nb (a, bs)) u v
      ≡ (adjacent nb u v || ((u == a && contains bs v) || (contains bs u && v == a)))
unfolding add_row
adjacent-add_row a u v nb bs =
    let row = set_update (neighbour_set nb a) bs in
    ground (
      arith,
      adjacent-links a u v (insert a row nb) bs,
      lookup-insert a u row nb,
      count-set_update v (neighbour_set nb a) bs,
      eq_iff u a,
    )

adjacent-rows :
    (u v : String) (nb rows : Dict (List String))
    → adjacent (foldl add_row nb rows) u v
      ≡ (adjacent nb u v || (is_pair rows u v || is_pair rows v u))
adjacent-rows u v nb [] = ground arith
adjacent-rows u v nb ((a, bs) ∷ rows) =
    ground (arith, adjacent-rows u v (add_row nb (a, bs)) rows, adjacent-add_row a u v nb bs)

-- `neighbours` relates two osm_ids exactly if they are a candidate pair, either way round.
pub adjacent-neighbours :
    (u v : String) (candidates : Dict (List String))
    → adjacent (neighbours candidates) u v ≡ (is_pair candidates u v || is_pair candidates v u)
unfolding neighbours lookup
adjacent-neighbours u v candidates = adjacent-rows u v [] candidates

keys-links :
    (a x : String) (nb : Dict (List String)) (bs : List String)
    → contains (keys (foldl (link a) nb bs)) x ≡ (contains (keys nb) x || contains bs x)
unfolding link
keys-links a x nb [] = ground arith
keys-links a x nb (b ∷ bs) = ground (
  arith,
  keys-links a x (link a nb b) bs,
  count-keys-insert b x (set_add (neighbour_set nb b) a) nb,
  eq_iff x b,
)

keys-rows :
    (x : String) (nb rows : Dict (List String))
    → contains (keys (foldl add_row nb rows)) x ≡ (contains (keys nb) x || is_node rows x)
unfolding add_row
keys-rows x nb [] = ground arith
keys-rows x nb ((a, bs) ∷ rows) =
    let row = set_update (neighbour_set nb a) bs in
    ground (
      arith,
      keys-rows x (add_row nb (a, bs)) rows,
      keys-links a x (insert a row nb) bs,
      count-keys-insert a x row nb,
      eq_iff x a,
    )

-- The keys of `neighbours` are the keys and the members of the candidates' rows.
pub keys-neighbours :
    (x : String) (candidates : Dict (List String))
    → contains (keys (neighbours candidates)) x ≡ is_node candidates x
unfolding neighbours
keys-neighbours x candidates = keys-rows x [] candidates

pair-ends :
    (u v : String) (rows : Dict (List String))
    → is_pair rows u v ≡ true
    → (is_node rows u ≡ true) × (is_node rows v ≡ true)
pair-ends u v [] h = cc
pair-ends u v ((k, bs) ∷ rows) h = ground (arith, pair-ends u v rows)

-- What the walk needs of the graph that it walks on.
pub record IsGraph (nb : Dict (List String)) : Type 0 where
  pub symmetric : (u v : String) → In v (neighbour_set nb u) → In u (neighbour_set nb v)
  pub closed : (u v : String) → In v (neighbour_set nb u) → In v (keys nb)

pub neighbours-IsGraph : (candidates : Dict (List String)) → IsGraph (neighbours candidates)
neighbours-IsGraph candidates = record {
  symmetric = λ u v h.
      ground (arith, adjacent-neighbours u v candidates, adjacent-neighbours v u candidates);
  closed = λ u v h. ground (
    arith,
    adjacent-neighbours u v candidates,
    keys-neighbours v candidates,
    pair-ends u v candidates,
    pair-ends v u candidates,
  );
}
