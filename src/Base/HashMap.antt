-- ===== src/Base/HashMap.antt =====
-- Rust's `HashMap` as an association list. The order of the list is one iteration order; the lemmas
-- of the clients hold for every list, so for every order.
use Prim.Native.Nat.{ℕ, ◌+◌, ◌≤◌}
use mathlib.Core.Path.{◌≡◌, refl}
use mathlib.Core.Bool.{Bool, true, false}
use mathlib.Core.Option.{Option, none, some}
use mathlib.Core.List.{List, [], ◌∷◌, map}
use native.Mathlib.Omega.{arith}
use aero_nyx_private_ed.Base.Tests.{if◌then◌else◌}
use aero_nyx_private_ed.Base.Lists.{length}
use aero_nyx_private_ed.Base.Eq.{Equality, ◌==◌}

abbrev pub HashMap {ℓ κ} : Type ℓ → Type κ → Type (ℓ ⊔ κ)
HashMap K V = List (K × V)

abbrev pub is_some {ℓ} : {A : Type ℓ} → Option A → Bool
is_some none = false
is_some (some a) = true

abbrev pub apply_to {ℓ} : {A : Type ℓ} → (A → A) → Option A → Option A
apply_to f none = none
apply_to f (some v) = some (f v)

abbrev pub keep_if {ℓ κ} : {K : Type ℓ} {V : Type κ} → (K → V → Bool) → K → Option V → Option V
keep_if p k none = none
keep_if p k (some v) = if p k v then some v else none

abbrev pub empty {ℓ κ} : {K : Type ℓ} {V : Type κ} → HashMap K V
empty = []

module _ {ℓ κ} {K : Type ℓ} {V : Type κ} where
  -- `retain`: the entries that pass the test.
  unfoldable pub retain : (K → V → Bool) → HashMap K V → HashMap K V
  retain p [] = []
  retain p ((j, v) ∷ m) = let rest = retain p m in if p j v then (j, v) ∷ rest else rest

  -- The first entry, in iteration order, whose value passes the test.
  unfoldable pub find_value : (V → Bool) → HashMap K V → Option (K × V)
  find_value p [] = none
  find_value p ((j, v) ∷ m) = if p v then some (j, v) else find_value p m

  -- `iter().filter(p).count()`.
  unfoldable pub count_values : (V → Bool) → HashMap K V → ℕ
  count_values p [] = 0
  count_values p ((j, v) ∷ m) = (if p v then 1 else 0) + count_values p m

  abbrev pub values : HashMap K V → List V
  values = map (λ e. e.1)

  abbrev pub keys : HashMap K V → List K
  keys = map (λ e. e.0)

  pub length-retain-le : (p : K → V → Bool) (m : HashMap K V) → length (retain p m) ≤ length m
  unfolding retain
  length-retain-le p [] = omega arith
  length-retain-le p ((j, v) ∷ m) = ground (arith, length-retain-le p m)

module _ {ℓ κ} {K : Type ℓ} {V : Type κ} ⦃e : Equality K⦄ where
  unfoldable pub get : HashMap K V → K → Option V
  get [] k = none
  get ((j, v) ∷ m) k = if j == k then some v else get m k

  abbrev pub contains_key : HashMap K V → K → Bool
  contains_key m k = is_some (get m k)

  unfoldable pub insert : HashMap K V → K → V → HashMap K V
  insert [] k v = (k, v) ∷ []
  insert ((j, w) ∷ m) k v = let rest = insert m k v in if j == k then (j, v) ∷ m else (j, w) ∷ rest

  unfoldable pub remove : HashMap K V → K → HashMap K V
  remove [] k = []
  remove ((j, w) ∷ m) k = let rest = remove m k in if j == k then rest else (j, w) ∷ rest

  -- A write through `get_mut`.
  unfoldable pub modify : HashMap K V → K → (V → V) → HashMap K V
  modify [] k f = []
  modify ((j, w) ∷ m) k f =
      let rest = modify m k f in if j == k then (j, f w) ∷ m else (j, w) ∷ rest

  -- No key stands twice: what a `HashMap` is by construction.
  abbrev pub Distinct : HashMap K V → Type κ
  Distinct [] = Unit
  Distinct ((j, v) ∷ m) = (get m j ≡ none) × Distinct m

  pub get-insert :
      (m : HashMap K V) (k j : K) (v : V)
      → get (insert m k v) j ≡ (if k == j then some v else get m j)
  unfolding get insert
  get-insert [] k j v = refl
  get-insert ((i, w) ∷ m) k j v =
      ground (arith, get-insert m k j v, e.equal_iff i k, e.equal_iff i j, e.equal_iff k j)

  pub get-remove :
      (m : HashMap K V) (k j : K) → get (remove m k) j ≡ (if k == j then none else get m j)
  unfolding get remove
  get-remove [] k j = ground arith
  get-remove ((i, w) ∷ m) k j =
      ground (arith, get-remove m k j, e.equal_iff i k, e.equal_iff i j, e.equal_iff k j)

  pub get-modify :
      (m : HashMap K V) (k j : K) (f : V → V)
      → get (modify m k f) j ≡ (if k == j then apply_to f (get m j) else get m j)
  unfolding get modify
  get-modify [] k j f = ground arith
  get-modify ((i, w) ∷ m) k j f =
      ground (arith, get-modify m k j f, e.equal_iff i k, e.equal_iff i j, e.equal_iff k j)

  retain_absent :
      (p : K → V → Bool) (m : HashMap K V) (k : K) → get m k ≡ none → get (retain p m) k ≡ none
  unfolding get retain
  retain_absent p [] k h = refl
  retain_absent p ((i, w) ∷ m) k h = ground (arith, retain_absent p m k)

  pub get-retain :
      (p : K → V → Bool) (m : HashMap K V) (k : K)
      → Distinct m
      → get (retain p m) k ≡ keep_if p k (get m k)
  unfolding get retain
  get-retain p [] k d = refl
  get-retain p ((i, w) ∷ m) k d =
      ground (arith, get-retain p m k d.1, retain_absent p m i d.0, e.equal_iff i k)

  pub insert-Distinct : (m : HashMap K V) (k : K) (v : V) → Distinct m → Distinct (insert m k v)
  unfolding get insert
  insert-Distinct [] k v d = (refl, tt)
  insert-Distinct ((i, w) ∷ m) k v d =
      ground
        (arith, insert-Distinct m k v d.1, get-insert m k i v, e.equal_iff i k, e.equal_iff k i)

  pub remove-Distinct : (m : HashMap K V) (k : K) → Distinct m → Distinct (remove m k)
  unfolding remove
  remove-Distinct [] k d = tt
  remove-Distinct ((i, w) ∷ m) k d = ground (arith, remove-Distinct m k d.1, get-remove m k i)

  pub modify-Distinct : (m : HashMap K V) (k : K) (f : V → V) → Distinct m → Distinct (modify m k f)
  unfolding modify
  modify-Distinct [] k f d = tt
  modify-Distinct ((i, w) ∷ m) k f d = ground (arith, modify-Distinct m k f d.1, get-modify m k i f)

  pub retain-Distinct : (p : K → V → Bool) (m : HashMap K V) → Distinct m → Distinct (retain p m)
  unfolding retain
  retain-Distinct p [] d = tt
  retain-Distinct p ((i, w) ∷ m) d =
      ground (arith, retain-Distinct p m d.1, retain_absent p m i d.0)

  pub length-insert :
      (m : HashMap K V) (k : K) (v : V)
      → length (insert m k v) ≡ (if contains_key m k then length m else length m + 1)
  unfolding get insert
  length-insert [] k v = omega arith
  length-insert ((i, w) ∷ m) k v = ground (arith, length-insert m k v)

  pub remove_absent : (m : HashMap K V) (k : K) → get m k ≡ none → remove m k ≡ m
  unfolding get remove
  remove_absent [] k h = refl
  remove_absent ((i, w) ∷ m) k h = ground (arith, remove_absent m k)

  pub length-remove :
      (m : HashMap K V) (k : K) (v : V)
      → Distinct m
      → get m k ≡ some v
      → length (remove m k) + 1 ≡ length m
  unfolding get remove
  length-remove [] k v d h = cc
  length-remove ((i, w) ∷ m) k v d h =
      ground (arith, length-remove m k v d.1, remove_absent m k, e.equal_iff i k)

  pub length-remove-le : (m : HashMap K V) (k : K) → length (remove m k) ≤ length m
  unfolding remove
  length-remove-le [] k = omega arith
  length-remove-le ((i, w) ∷ m) k = ground (arith, length-remove-le m k)

  pub length-modify : (m : HashMap K V) (k : K) (f : V → V) → length (modify m k f) ≡ length m
  unfolding modify
  length-modify [] k f = refl
  length-modify ((i, w) ∷ m) k f = ground (arith, length-modify m k f)

  -- What a search finds is in the map, and passes the test.
  pub find_value-some :
      (p : V → Bool) (m : HashMap K V) (k : K) (v : V)
      → Distinct m
      → find_value p m ≡ some (k, v)
      → (get m k ≡ some v) × (p v ≡ true)
  unfolding get find_value
  find_value-some p [] k v d h = cc
  find_value-some p ((i, w) ∷ m) k v d h =
      ground (arith, find_value-some p m k v d.1, e.equal_iff i k, e.equal_iff k k)

  -- A search that fails has tested every entry.
  pub find_value-none :
      (p : V → Bool) (m : HashMap K V) (k : K) (v : V)
      → find_value p m ≡ none
      → get m k ≡ some v
      → p v ≡ false
  unfolding get find_value
  find_value-none p [] k v h g = cc
  find_value-none p ((i, w) ∷ m) k v h g = ground (arith, find_value-none p m k v)
