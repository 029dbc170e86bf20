-- ===== src/Matching/Changeset/Components/Pushes.antt =====
-- What the loop over `neighbours[node]` does to the marks, the members and the stack.
use gis_vector_map_changes.Prelude.{
  ℕ, suc, ◌+◌, ◌≤◌, ◌<◌, String, List, [], ◌∷◌, foldl, false, set_add, contains, count, length, In,
  arith, ◌≡◌, eq_iff, ◌==◌, if◌then◌else◌, count-set_add,
}
use gis_vector_map_changes.Matching.Changeset.Components.{Walk, push}

-- how many of the texts are not in `seen`
abbrev pub unseen : List String → List String → ℕ
unseen [] seen = 0
unseen (x ∷ xs) seen = let rest = unseen xs seen in if contains seen x then rest else suc rest

pub unseen-le : (xs seen : List String) → unseen xs seen ≤ length xs
unseen-le [] seen = omega arith
unseen-le (x ∷ xs) seen = ground (arith, unseen-le xs seen)

pub unseen_mono : (xs seen : List String) (n : String) → unseen xs (set_add seen n) ≤ unseen xs seen
unseen_mono [] seen n = omega arith
unseen_mono (x ∷ xs) seen n =
    ground (arith, unseen_mono xs seen n, count-set_add x n seen, eq_iff x n)

-- Marking a node that was not marked leaves fewer unmarked ones.
pub unseen-set_add :
    (xs seen : List String) (n : String)
    → In n xs
    → contains seen n ≡ false
    → unseen xs (set_add seen n) < unseen xs seen
unseen-set_add [] seen n i h = absurd (omega arith)
unseen-set_add (x ∷ xs) seen n i h = ground (
  arith,
  unseen-set_add xs seen n,
  unseen_mono xs seen n,
  count-set_add x n seen,
  count-set_add n n seen,
  eq_iff x n,
  eq_iff n x,
)

-- What one `push` does to the counts.
pub record Pushed (n : String) (w v : Walk) (x : String) : Type 0 where
  seen :
      count x v.seen
      ≡ (if x == n then (if contains w.seen x then count x w.seen else 1) else count x w.seen)
  queue : count x v.queue + count x w.seen ≡ count x w.queue + count x v.seen
  members : count x v.members ≡ count x w.members

pub push-Pushed : (n : String) (w : Walk) (x : String) → Pushed n w (push w n) x
unfolding push
push-Pushed n w x = ground (arith, count-set_add x n w.seen, eq_iff x n)

-- What the loop over `neighbours[node]` does to the counts.
pub record Visited (ns : List String) (w v : Walk) (x : String) : Type 0 where
  pub seen :
      count x v.seen
      ≡ (if contains w.seen x then count x w.seen else if contains ns x then 1 else 0)
  pub queue : count x v.queue + count x w.seen ≡ count x w.queue + count x v.seen
  pub members : count x v.members ≡ count x w.members

pub pushes-Visited : (ns : List String) (w : Walk) (x : String) → Visited ns w (foldl push w ns) x
pushes-Visited [] w x = ground arith
pushes-Visited (n ∷ ns) w x =
    ground (arith, pushes-Visited ns (push w n) x, push-Pushed n w x, eq_iff x n)

abbrev pub work : List String → Walk → ℕ
work nodes w = unseen nodes w.seen + length w.queue

pub push-work :
    (nodes : List String) (n : String) (w : Walk)
    → In n nodes
    → work nodes (push w n) ≤ work nodes w
unfolding push
push-work nodes n w i = ground (arith, unseen-set_add nodes w.seen n)

pub pushes-work :
    (nodes ns : List String) (w : Walk)
    → ((x : String) → In x ns → In x nodes)
    → work nodes (foldl push w ns) ≤ work nodes w
pushes-work nodes [] w i = omega arith
pushes-work nodes (n ∷ ns) w i = omega (
  arith,
  push-work nodes n w (i n (ground (arith, eq_iff n n))),
  pushes-work nodes ns (push w n) (λ x h. i x (ground arith)),
)
