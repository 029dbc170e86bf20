-- ===== src/Prelude/Sets.antt =====
-- Python's `set` of texts: its elements once each, in the order of their insertion. The order in
-- which a `set` is iterated is not that one: see `HashOrder`.
use Prim.Native.String.{String}
use mathlib.Core.Path.{◌≡◌}
use mathlib.Core.List.{List, [], ◌∷◌, ◌++◌, foldl}
use native.Mathlib.Omega.{arith}
use text.Mathlib.Text.{◌==◌}
use text.Mathlib.TextEquality.{eq_iff}
use package.gis_vector_map_changes.Prelude.Tests.{if◌then◌else◌}
use package.gis_vector_map_changes.Prelude.Lists.{count, contains, count-append}

-- `s.add(x)`
unfoldable pub set_add : List String → String → List String
set_add s x = if contains s x then s else s ++ x ∷ []

-- `s.update(xs)`, and `set(xs)` from the empty set
unfoldable pub set_update : List String → List String → List String
unfolding set_add
set_update = foldl set_add

pub count-set_add :
    (y x : String) (s : List String)
    → count y (set_add s x)
      ≡ (if y == x then (if contains s x then count y s else 1) else count y s)
unfolding set_add
count-set_add y x s = ground (arith, eq_iff y x, count-append y s (x ∷ []))

pub count-set_update :
    (y : String) (s xs : List String)
    → count y (set_update s xs)
      ≡ (if contains s y then count y s else if contains xs y then 1 else 0)
unfolding set_update
count-set_update y s [] = ground arith
count-set_update y s (x ∷ xs) =
    ground (arith, count-set_update y (set_add s x) xs, count-set_add y x s, eq_iff y x)

-- The order in which `for x in s` and a comprehension over `s` meet the elements of a set: every
-- element once, in an order that the language leaves open.
pub record HashOrder : Type 0 where
  pub iterate : List String → List String
  pub count-iterate : (x : String) (s : List String) → count x (iterate s) ≡ count x s
