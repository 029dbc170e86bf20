-- ===== src/Matching/Changeset/Components/Termination.antt =====
-- The fuel of a walk is enough: more of it changes nothing.
use gis_vector_map_changes.Prelude.{
  ℕ, zero, suc, ◌+◌, String, List, [], ◌∷◌, Dict, keys, index, set_add, contains, false, length, In,
  HashOrder, ok, out_of_fuel, arith, ◌≡◌, refl, sym, ap, ◌∙◌, inl, inr, List-cases, >>=-eq-ok,
  >>=-ok, err≢ok, ◌>>=◌,
}
use gis_vector_map_changes.Matching.Changeset.Components.{neighbours, Walk, visit, walk, walk_from}
use gis_vector_map_changes.Matching.Changeset.Components.Graph.{neighbours-IsGraph}
use gis_vector_map_changes.Matching.Changeset.Components.Correct.{IsSeen, walk_from_ends}

module _ (order : HashOrder) (nb : Dict (List String)) where
  walk-empty : (fuel : ℕ) (w : Walk) → w.queue ≡ [] → walk order nb fuel w ≡ ok w
  unfolding walk
  walk-empty zero w e = rw e refl
  walk-empty (suc fuel) w e = rw e refl

  walk-step :
      (fuel : ℕ) (w : Walk) (node : String) (rest : List String)
      → w.queue ≡ node ∷ rest
      → walk order nb (suc fuel) w
        ≡ (index nb node >>= λ around. walk order nb fuel (visit order w node rest around))
  unfolding walk visit
  walk-step fuel w node rest e = rw (walk, e) refl

  walk-more :
      (fuel more : ℕ) (w t : Walk)
      → walk order nb fuel w ≡ ok t
      → walk order nb (fuel + more) w ≡ ok t
  unfolding walk
  walk-more zero more w t h = elim (List-cases w.queue) [
    | inl empty ↦ walk-empty (zero + more) w empty ∙ sym (walk-empty zero w empty) ∙ h
    | inr (node, rest, e) ↦ absurd (err≢ok {e = out_of_fuel} {a = t} (sym (rw (walk, e) refl) ∙ h))
  ]
  walk-more (suc fuel) more w t h = elim (List-cases w.queue) [
    | inl empty ↦ walk-empty (suc fuel + more) w empty ∙ sym (walk-empty (suc fuel) w empty) ∙ h
    | inr (node, rest, e) ↦
        let (around, found, run) =
          >>=-eq-ok (index nb node) _ (sym (walk-step fuel w node rest e) ∙ h) in
        let one_more : suc fuel + more ≡ suc (fuel + more) = omega arith in
        ap (λ n. walk order nb n w) one_more
        ∙ walk-step (fuel + more) w node rest e
        ∙ >>=-ok (index nb node) (λ a. walk order nb (fuel + more) (visit order w node rest a))
            found (walk-more fuel more (visit order w node rest around) t run)
  ]

-- A walk from a fresh node, with marks that finished walks left, ends: as many rounds as there are nodes
-- are enough, and any more give the same.
pub walk_from-walk :
    (order : HashOrder) (candidates : Dict (List String)) (seen : List String) (start : String)
    (more : ℕ)
    → contains seen start ≡ false
    → In start (keys (neighbours candidates))
    → IsSeen order (neighbours candidates) (neighbours-IsGraph candidates) seen
    → (t : Walk) × (walk_from order (neighbours candidates) seen start ≡ ok t)
      × (t.queue ≡ [])
      × (walk order
            (neighbours candidates)
            (length (keys (neighbours candidates)) + more)
            (record { seen = set_add seen start; members = []; queue = start ∷ [] })
          ≡ ok t)
unfolding walk_from
walk_from-walk order candidates seen start more fresh node h =
    let nb = neighbours candidates in
    let (t, run, _, empty) =
      walk_from_ends order nb (neighbours-IsGraph candidates) seen start fresh node h in
    (t, run, empty, walk-more order nb (length (keys nb)) more _ t run)
