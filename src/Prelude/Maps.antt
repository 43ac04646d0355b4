-- ===== src/Prelude/Maps.antt =====
-- The contract's storage, key by key: a map from keys to values, in the order of first writes.
use mathlib.Core.Path.{◌≡◌, refl}
use mathlib.Core.Option.{Option, none, some}
use mathlib.Core.List.{List, [], ◌∷◌}
use native.Mathlib.Omega.{arith}
use stellabill_contracts.Prelude.Tests.{Eq, ◌==◌, if◌then◌else◌}
use stellabill_contracts.Prelude.Int.{ℤ, pos, ◌+ℤ◌, int_laws}

abbrev pub Map : Type 0 → Type 0 → Type 0
Map K V = List (K × V)

module _ {K V : Type 0} ⦃e : Eq K⦄ where
  unfoldable pub get : Map K V → K → Option V
  get [] k = none
  get ((j, v) ∷ m) k = if j == k then some v else get m k

  unfoldable pub set : Map K V → K → V → Map K V
  set [] k v = (k, v) ∷ []
  set ((j, w) ∷ m) k v = if j == k then (j, v) ∷ m else (j, w) ∷ set m k v

  unfoldable pub remove : Map K V → K → Map K V
  remove [] k = []
  remove ((j, w) ∷ m) k = let rest = remove m k in if j == k then rest else (j, w) ∷ rest

  -- The sum of a weight over the entries.
  unfoldable pub sum_over : (K → V → ℤ) → Map K V → ℤ
  sum_over w [] = pos 0
  sum_over w ((k, v) ∷ m) = w k v +ℤ sum_over w m

  abbrev pub weight : (K → V → ℤ) → K → Option V → ℤ
  weight w k none = pos 0
  weight w k (some v) = w k v

  pub get-set :
      (m : Map K V) (k j : K) (v : V) → get (set m k v) j ≡ (if k == j then some v else get m j)
  unfolding get set
  get-set [] k j v = refl
  get-set ((i, w) ∷ m) k j v =
      ground (arith, e.same_iff i k, e.same_iff i j, e.same_iff k j, get-set m k j v)

  pub get-remove : (m : Map K V) (k j : K) → get (remove m k) j ≡ (if k == j then none else get m j)
  unfolding get remove
  get-remove [] k j = ground arith
  get-remove ((i, w) ∷ m) k j =
      ground (arith, e.same_iff i k, e.same_iff i j, e.same_iff k j, get-remove m k j)

  pub get-set_self : (m : Map K V) (k : K) (v : V) → get (set m k v) k ≡ some v
  get-set_self m k v = ground (arith, get-set m k k v, e.same_iff k k)

  -- A write moves the sum by the difference of the weights.
  pub sum_over-set :
      (w : K → V → ℤ) (m : Map K V) (k : K) (v : V)
      → sum_over w (set m k v) +ℤ weight w k (get m k) ≡ sum_over w m +ℤ w k v
  unfolding sum_over get set
  sum_over-set w [] k v = omega int_laws
  sum_over-set w ((j, u) ∷ m) k v = grind (int_laws, e.same_iff j k, sum_over-set w m k v)
