-- ===== src/Prelude/Assoc.antt =====
-- Association lists keyed by numbers, for `HashMap` and `HashSet`. The order of the entries stands
-- for the order, unspecified in the source, in which a hash map is iterated.
use Prim.Native.Nat.{ℕ}
use mathlib.Core.Path.{◌≡◌, refl}
use mathlib.Core.Bool.{Bool, false, ◌||◌}
use mathlib.Core.List.{List, [], ◌∷◌}
use mathlib.Core.Option.{Option, none, some}
use native.Mathlib.Omega.{arith}
use codetracer_python_record.Prelude.Tests.{◌==◌, if◌then◌else◌}

module _ {ℓ} {V : Type ℓ} where
  -- `HashMap::insert`.
  unfoldable pub insert : ℕ → V → List (ℕ × V) → List (ℕ × V)
  insert id value [] = (id, value) ∷ []
  insert id value (entry ∷ map) =
      if entry.0 == id then (id, value) ∷ map else entry ∷ insert id value map

  -- `HashMap::get`.
  unfoldable pub lookup : ℕ → List (ℕ × V) → Option V
  lookup id [] = none
  lookup id (entry ∷ map) = if entry.0 == id then some entry.1 else lookup id map

  -- `HashMap::remove`, every entry with the key.
  unfoldable pub remove : ℕ → List (ℕ × V) → List (ℕ × V)
  remove k [] = []
  remove k ((j, w) ∷ m) = if j == k then remove k m else (j, w) ∷ remove k m

  pub lookup-insert :
      (k id : ℕ) (value : V) (map : List (ℕ × V))
      → lookup id (insert k value map) ≡ (if k == id then some value else lookup id map)
  unfolding lookup insert
  lookup-insert k id value [] = ground arith
  lookup-insert k id value (entry ∷ map) = ground (arith, lookup-insert k id value map)

  pub lookup-remove :
      (k j : ℕ) (m : List (ℕ × V)) → lookup j (remove k m) ≡ (if k == j then none else lookup j m)
  unfolding lookup remove
  lookup-remove k j [] = ground arith
  lookup-remove k j ((i, w) ∷ m) = ground (arith, lookup-remove k j m)

-- A set of numbers, as a list.
unfoldable pub member : ℕ → List ℕ → Bool
member k [] = false
member k (j ∷ s) = j == k || member k s

module _ {ℓ} {V : Type ℓ} where
  -- No key stands twice.
  abbrev pub Unique : List (ℕ × V) → Type ℓ
  Unique [] = Unit
  Unique ((k, v) ∷ m) = (lookup k m ≡ none) × Unique m

  pub insert-Unique : (k : ℕ) (v : V) (m : List (ℕ × V)) → Unique m → Unique (insert k v m)
  unfolding insert lookup
  insert-Unique k v [] u = (refl, tt)
  insert-Unique k v ((j, w) ∷ m) u =
      ground (arith, insert-Unique k v m u.1, lookup-insert k j v m, u.0, u.1)
