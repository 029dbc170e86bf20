-- ===== src/Prelude/Dicts.antt =====
-- Python's `dict` with text keys: its items in the order of their insertion.
use Prim.Native.String.{String}
use Prim.Native.Nat.{◌<◌}
use mathlib.Core.Logic.{inl, inr}
use mathlib.Core.Path.{◌≡◌, refl}
use mathlib.Core.Option.{Option, none, some}
use mathlib.Core.List.{List, [], ◌∷◌}
use mathlib.Core.Bool.{Bool}
use native.Mathlib.Omega.{arith}
use text.Mathlib.Text.{◌==◌}
use text.Mathlib.TextEquality.{eq_iff}
use package.gis_vector_map_changes.Prelude.Tests.{if◌then◌else◌, Bool-cases}
use package.gis_vector_map_changes.Prelude.Lists.{count, contains}
use package.gis_vector_map_changes.Prelude.Errors.{Result, ok, err, key_error}

abbrev pub Dict {ℓ} : Type ℓ → Type ℓ
Dict V = List (String × V)

module _ {ℓ} {V : Type ℓ} where
  abbrev pub keys : Dict V → List String
  keys [] = []
  keys ((k, v) ∷ d) = k ∷ keys d

  -- `d.get(k)`
  unfoldable pub lookup : String → Dict V → Option V
  lookup k [] = none
  lookup k ((j, v) ∷ d) = if k == j then some v else lookup k d

  -- `d[k] = v`: a key that is there keeps its place
  unfoldable pub insert : String → V → Dict V → Dict V
  insert k v [] = (k, v) ∷ []
  insert k v ((j, w) ∷ d) = if k == j then (j, v) ∷ d else (j, w) ∷ insert k v d

  -- `d[k]`
  unfoldable pub index : Dict V → String → Result V
  unfolding lookup
  index d k = elim (lookup k d) [ none ↦ err (key_error k) | some v ↦ ok v ]

  pub lookup-insert :
      (k j : String) (v : V) (d : Dict V)
      → lookup j (insert k v d) ≡ (if j == k then some v else lookup j d)
  unfolding lookup insert
  lookup-insert k j v [] = ground arith
  lookup-insert k j v ((i, w) ∷ d) =
      ground (arith, eq_iff k i, eq_iff j i, eq_iff j k, lookup-insert k j v d)

  pub count-keys-insert :
      (k j : String) (v : V) (d : Dict V)
      → count j (keys (insert k v d)) ≡ (
          if j == k
          then (if contains (keys d) k then count j (keys d) else 1)
          else count j (keys d))
  unfolding insert
  count-keys-insert k j v [] = ground (arith, eq_iff j k)
  count-keys-insert k j v ((i, w) ∷ d) =
      ground (arith, eq_iff k i, eq_iff j i, eq_iff j k, count-keys-insert k j v d)

  pub lookup_of_In :
      (k : String) (d : Dict V) → 0 < count k (keys d) → (v : V) × (lookup k d ≡ some v)
  unfolding lookup
  lookup_of_In k [] h = absurd (omega arith)
  lookup_of_In k ((j, v) ∷ d) h = elim (Bool-cases (k == j)) [
    | inl same ↦ (v, rw same)
    | inr other ↦ let (u, found) = lookup_of_In k d (ground arith) in (u, rw other found)
  ]

  pub In_of_lookup : (k : String) (d : Dict V) (v : V) → lookup k d ≡ some v → 0 < count k (keys d)
  unfolding lookup
  In_of_lookup k [] v h = cc
  In_of_lookup k ((j, u) ∷ d) v h = ground (arith, In_of_lookup k d v)

  pub lookup_missing : (k : String) (d : Dict V) → count k (keys d) ≡ 0 → lookup k d ≡ none
  unfolding lookup
  lookup_missing k [] h = refl
  lookup_missing k ((j, v) ∷ d) h = ground (arith, lookup_missing k d)

  -- `{k: v for k, v in d.items() if p(k)}`
  abbrev pub keep_keys : (String → Bool) → Dict V → Dict V
  keep_keys p [] = []
  keep_keys p ((k, v) ∷ d) = let rest = keep_keys p d in if p k then (k, v) ∷ rest else rest

  pub count-keys-keep :
      (p : String → Bool) (x : String) (d : Dict V)
      → count x (keys (keep_keys p d)) ≡ (if p x then count x (keys d) else 0)
  count-keys-keep p x [] = ground arith
  count-keys-keep p x ((k, v) ∷ d) = ground (arith, count-keys-keep p x d, eq_iff x k)

  pub lookup-keep :
      (p : String → Bool) (x : String) (d : Dict V)
      → lookup x (keep_keys p d) ≡ (if p x then lookup x d else none)
  unfolding lookup
  lookup-keep p x [] = ground arith
  lookup-keep p x ((k, v) ∷ d) = ground (arith, lookup-keep p x d, eq_iff x k)

  -- A key that is there can be looked up.
  pub index_of_In : (k : String) (d : Dict V) → 0 < count k (keys d) → (v : V) × (index d k ≡ ok v)
  unfolding index
  index_of_In k d h = let (v, found) = lookup_of_In k d h in (v, ground arith)

  pub index_of_lookup : (k : String) (d : Dict V) (v : V) → lookup k d ≡ some v → index d k ≡ ok v
  unfolding index
  index_of_lookup k d v h = ground arith
