-- ===== src/Base/Map.antt =====
-- A Go map with string keys as an association list. The order in which `range` visits a map is
-- not fixed by Go: it is a listing of the map, `Ranges`, that the functions here take as an argument.
use Prim.Native.Nat.{◌+◌, ◌≤◌}
use mathlib.Core.Path.{◌≡◌, refl}
use mathlib.Core.Option.{Option, none, some}
use mathlib.Core.List.{List, [], ◌∷◌}
use native.Mathlib.Omega.{arith}
use openclaw_relay.Base.Tests.{if◌then◌else◌}
use openclaw_relay.Base.Lists.{length}
use openclaw_relay.Base.Str.{Str, ◌==◌, eq_iff}

abbrev pub Map {ℓ} : Type ℓ → Type ℓ
Map V = List (Str × V)

module _ {ℓ} {V : Type ℓ} where
  unfoldable pub lookup : Str → Map V → Option V
  lookup key [] = none
  lookup key ((at, found) ∷ rest) = if at == key then some found else lookup key rest

  -- `m[k] = v`
  unfoldable pub insert : Str → V → Map V → Map V
  insert key new [] = (key, new) ∷ []
  insert key new ((at, old) ∷ rest) =
      if at == key then (key, new) ∷ rest else (at, old) ∷ insert key new rest

  -- `delete(m, k)`
  unfoldable pub delete : Str → Map V → Map V
  delete k [] = []
  delete k ((j, w) ∷ m) = if j == k then m else (j, w) ∷ delete k m

  abbrev pub HasUniqueKeys : Map V → Type ℓ
  HasUniqueKeys [] = Unit
  HasUniqueKeys ((k, v) ∷ m) = (lookup k m ≡ none) × HasUniqueKeys m

  -- `order` lists the entries of `m`, each once.
  pub record Ranges (order m : Map V) : Type ℓ where
    pub once : HasUniqueKeys order
    pub same : (k : Str) → lookup k order ≡ lookup k m

  pub lookup-insert :
      (key other : Str) (new : V) (m : Map V)
      → lookup other (insert key new m) ≡ (if key == other then some new else lookup other m)
  unfolding insert lookup
  lookup-insert key other new [] = refl
  lookup-insert key other new ((at, old) ∷ rest) =
      ground
        (arith, lookup-insert key other new rest, eq_iff at key, eq_iff at other, eq_iff key other)

  pub lookup-delete :
      (k j : Str) (m : Map V)
      → HasUniqueKeys m
      → lookup j (delete k m) ≡ (if k == j then none else lookup j m)
  unfolding lookup delete
  lookup-delete k j [] h = ground arith
  lookup-delete k j ((i, w) ∷ m) h =
      ground (arith, eq_iff k j, eq_iff i k, eq_iff i j, lookup-delete k j m h.1)

  pub insert-HasUniqueKeys :
      (k : Str) (v : V) (m : Map V) → HasUniqueKeys m → HasUniqueKeys (insert k v m)
  unfolding insert
  insert-HasUniqueKeys k v [] h = (unfold lookup in refl, tt)
  insert-HasUniqueKeys k v ((j, w) ∷ m) h =
      ground (arith, eq_iff j k, eq_iff k j, lookup-insert k j v m, insert-HasUniqueKeys k v m h.1)

  pub delete-HasUniqueKeys : (k : Str) (m : Map V) → HasUniqueKeys m → HasUniqueKeys (delete k m)
  unfolding delete
  delete-HasUniqueKeys k [] h = tt
  delete-HasUniqueKeys k ((j, w) ∷ m) h =
      ground (arith, eq_iff j k, eq_iff k j, lookup-delete k j m h.1, delete-HasUniqueKeys k m h.1)

  pub length-insert_le : (k : Str) (v : V) (m : Map V) → length (insert k v m) ≤ length m + 1
  unfolding insert
  length-insert_le k v [] = ground arith
  length-insert_le k v ((j, w) ∷ m) = ground (arith, length-insert_le k v m)

  pub length-insert :
      (k : Str) (v : V) (m : Map V) → lookup k m ≡ none → length (insert k v m) ≡ length m + 1
  unfolding insert lookup
  length-insert k v [] h = ground arith
  length-insert k v ((j, w) ∷ m) h = ground (arith, length-insert k v m)

  pub length-delete_le : (k : Str) (m : Map V) → length (delete k m) ≤ length m
  unfolding delete
  length-delete_le k [] = ground arith
  length-delete_le k ((j, w) ∷ m) = ground (arith, length-delete_le k m)

  pub length-delete :
      (k : Str) (m : Map V) (v : V) → lookup k m ≡ some v → length (delete k m) + 1 ≡ length m
  unfolding delete lookup
  length-delete k [] v h = absurd (ground arith)
  length-delete k ((j, w) ∷ m) v h = ground (arith, length-delete k m v)
