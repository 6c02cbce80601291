-- ===== src/Base/Dict.antt =====
-- A JavaScript `Map`: an association list in insertion order. Setting a present key keeps its place.
use coder_er.Base.Tests.{if◌then◌else◌}
use coder_er.Base.Lists.{length}
use coder_er.Base.Eq.{Equality, ◌==◌}
use Prim.Native.Nat.{◌+◌, ◌≤◌}
use mathlib.Core.Path.{◌≡◌, refl}
use mathlib.Core.Bool.{Bool, true, false, not, ◌||◌, ◌&&◌}
use mathlib.Core.Option.{Option, none, some}
use mathlib.Core.List.{List, [], ◌∷◌}
use native.Mathlib.Omega.{arith}

abbrev pub Dict {ℓ κ} : Type ℓ → Type κ → Type (ℓ ⊔ κ)
Dict K V = List (K × V)

module _ {ℓ κ} {K : Type ℓ} {V : Type κ} ⦃e : Equality K⦄ where
  unfoldable pub get : Dict K V → K → Option V
  get [] k = none
  get ((j, v) ∷ m) k = let rest = get m k in if j == k then some v else rest

  unfoldable pub has : Dict K V → K → Bool
  has [] k = false
  has ((j, v) ∷ m) k = j == k || has m k

  unfoldable pub set : Dict K V → K → V → Dict K V
  set [] k v = (k, v) ∷ []
  set ((j, w) ∷ m) k v = let rest = set m k v in if j == k then (k, v) ∷ m else (j, w) ∷ rest

  unfoldable pub delete : Dict K V → K → Dict K V
  delete [] k = []
  delete ((j, w) ∷ m) k = let rest = delete m k in if j == k then rest else (j, w) ∷ rest

  pub get-set :
      (m : Dict K V) (k j : K) (v : V) → get (set m k v) j ≡ (if k == j then some v else get m j)
  unfolding get set
  get-set [] k j v = refl
  get-set ((i, w) ∷ m) k j v =
      ground (arith, get-set m k j v, e.beq_iff i k, e.beq_iff i j, e.beq_iff k j)

  pub get-delete :
      (m : Dict K V) (k j : K) → get (delete m k) j ≡ (if k == j then none else get m j)
  unfolding get delete
  get-delete [] k j = ground arith
  get-delete ((i, w) ∷ m) k j =
      ground (arith, get-delete m k j, e.beq_iff i k, e.beq_iff i j, e.beq_iff k j)

  pub length-set :
      (m : Dict K V) (k : K) (v : V)
      → length (set m k v) ≡ (if has m k then length m else length m + 1)
  unfolding has set
  length-set [] k v = omega arith
  length-set ((j, w) ∷ m) k v = ground (arith, length-set m k v)

  pub length-delete : (m : Dict K V) (k : K) → length (delete m k) ≤ length m
  unfolding delete
  length-delete [] k = omega arith
  length-delete ((j, w) ∷ m) k = ground (arith, length-delete m k)

  pub has-get : (m : Dict K V) (k : K) → has m k ≡ (elim (get m k) [ none ↦ false | some v ↦ true ])
  unfolding has get
  has-get [] k = refl
  has-get ((j, w) ∷ m) k = ground (arith, has-get m k)

  -- No key stands twice, as in a `Map`.
  abbrev pub Distinct : Dict K V → Type 0
  Distinct [] = Unit
  Distinct ((k, v) ∷ m) = (has m k ≡ false) × Distinct m

  pub has-set : (m : Dict K V) (k j : K) (v : V) → has (set m k v) j ≡ (k == j || has m j)
  unfolding has set
  has-set [] k j v = refl
  has-set ((i, w) ∷ m) k j v = ground (arith, has-set m k j v, e.beq_iff i k, e.beq_iff i j)

  pub has-delete : (m : Dict K V) (k j : K) → has (delete m k) j ≡ (not (k == j) && has m j)
  unfolding has delete
  has-delete [] k j = ground arith
  has-delete ((i, w) ∷ m) k j =
      ground (arith, has-delete m k j, e.beq_iff i k, e.beq_iff i j, e.beq_iff k j)

  pub set-Distinct : (m : Dict K V) (k : K) (v : V) → Distinct m → Distinct (set m k v)
  unfolding set has
  set-Distinct [] k v d = (refl, tt)
  set-Distinct ((i, w) ∷ m) k v d =
      ground (arith, set-Distinct m k v d.1, has-set m k i v, e.beq_iff i k, e.beq_iff k i)

  pub delete-Distinct : (m : Dict K V) (k : K) → Distinct m → Distinct (delete m k)
  unfolding delete has
  delete-Distinct [] k d = tt
  delete-Distinct ((i, w) ∷ m) k d =
      ground (arith, delete-Distinct m k d.1, has-delete m k i, e.beq_iff i k, e.beq_iff k i)

  pub length-delete_head :
      (k : K) (v : V) (m : Dict K V) → length (delete ((k, v) ∷ m) k) ≤ length m
  unfolding delete
  length-delete_head k v m = ground (arith, length-delete m k, e.beq_iff k k)

  pub length-set-le : (m : Dict K V) (k : K) (v : V) → length (set m k v) ≤ length m + 1
  length-set-le m k v = ground (arith, length-set m k v)
