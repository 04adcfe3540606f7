-- ===== src/Prelude/Maps.antt =====
-- Go's built-in `map`: an association list whose order stands for the order that `range` happens
-- to take, which Go leaves open. Statements about a map hold for every order of its entries.
use mathlib.Core.Path.{◌≡◌, refl, subst}
use mathlib.Core.Bool.{Bool, true, false}
use mathlib.Core.Option.{Option, none, some}
use mathlib.Core.Option
use mathlib.Core.List.{List, [], ◌∷◌}
use native.Mathlib.Omega.{arith}
use kuberboat.Prelude.Tests.{Eq, ◌==◌, ==_iff, ==_refl, if◌then◌else◌, Bool-cases}
use kuberboat.Prelude.Lists.{All}
use mathlib.Core.Logic.{inl, inr}

abbrev pub GoMap {ℓ κ} : Type ℓ → Type κ → Type (ℓ ⊔ κ)
GoMap K V = List (K × V)

abbrev pub is_some {ℓ} : {A : Type ℓ} → Option A → Bool
is_some none = false
is_some (some a) = true

module _ {ℓ κ} {K : Type ℓ} {V : Type κ} where
  -- `for _, v := range m`
  abbrev pub values : GoMap K V → List V
  values [] = []
  values ((k, v) ∷ m) = v ∷ values m

  abbrev pub keys : GoMap K V → List K
  keys [] = []
  keys ((k, v) ∷ m) = k ∷ keys m

  -- Every entry changed in place.
  abbrev pub map_values : (V → V) → GoMap K V → GoMap K V
  map_values f [] = []
  map_values f ((k, v) ∷ m) = (k, f v) ∷ map_values f m

module _ {ℓ κ} {K : Type ℓ} {V : Type κ} ⦃e : Eq K⦄ where
  -- `v, ok := m[k]`
  unfoldable pub lookup : K → GoMap K V → Option V
  lookup k [] = none
  lookup k ((j, v) ∷ m) = if j == k then some v else lookup k m

  -- `_, ok := m[k]`
  unfoldable pub contains : K → GoMap K V → Bool
  contains k [] = false
  contains k ((j, v) ∷ m) = if j == k then true else contains k m

  -- `m[k] = v`
  unfoldable pub insert : K → V → GoMap K V → GoMap K V
  insert k v [] = (k, v) ∷ []
  insert k v ((j, w) ∷ m) = let rest = insert k v m in if j == k then (k, v) ∷ m else (j, w) ∷ rest

  -- `delete(m, k)`
  unfoldable pub delete : K → GoMap K V → GoMap K V
  delete k [] = []
  delete k ((j, v) ∷ m) = let rest = delete k m in if j == k then rest else (j, v) ∷ rest

  pub lookup-insert :
      (key other : K) (new : V) (m : GoMap K V)
      → lookup other (insert key new m) ≡ (if key == other then some new else lookup other m)
  unfolding lookup insert
  lookup-insert key other new [] = refl
  lookup-insert key other new ((i, old) ∷ rest) =
      ground
        (arith, ==_iff i key, ==_iff i other, ==_iff key other, lookup-insert key other new rest)

  pub lookup-insert_self : (k : K) (v : V) (m : GoMap K V) → lookup k (insert k v m) ≡ some v
  lookup-insert_self k v m = rw (lookup-insert k k v m, ==_refl k)

  pub lookup-delete :
      (k j : K) (m : GoMap K V) → lookup j (delete k m) ≡ (if k == j then none else lookup j m)
  unfolding lookup delete
  lookup-delete k j [] = ground arith
  lookup-delete k j ((i, w) ∷ m) =
      ground (arith, ==_iff k j, ==_iff i k, ==_iff i j, lookup-delete k j m)

  pub lookup-map_values :
      (f : V → V) (k : K) (m : GoMap K V) → lookup k (map_values f m) ≡ Option.map f (lookup k m)
  unfolding lookup
  lookup-map_values f k [] = refl
  lookup-map_values f k ((j, v) ∷ m) = ground (arith, lookup-map_values f k m)

  pub contains-lookup : (k : K) (m : GoMap K V) → contains k m ≡ is_some (lookup k m)
  unfolding lookup contains
  contains-lookup k [] = refl
  contains-lookup k ((j, v) ∷ m) = ground (arith, contains-lookup k m)

  pub contains-insert :
      (k j : K) (v : V) (m : GoMap K V)
      → contains j (insert k v m) ≡ (if k == j then true else contains j m)
  unfolding contains insert
  contains-insert k j v [] = refl
  contains-insert k j v ((i, w) ∷ m) =
      ground (arith, ==_iff k j, ==_iff i k, ==_iff i j, contains-insert k j v m)

  pub contains-delete :
      (k j : K) (m : GoMap K V) → contains j (delete k m) ≡ (if k == j then false else contains j m)
  unfolding contains delete
  contains-delete k j [] = ground arith
  contains-delete k j ((i, w) ∷ m) =
      ground (arith, ==_iff k j, ==_iff i k, ==_iff i j, contains-delete k j m)

  pub contains-map_values :
      (f : V → V) (k : K) (m : GoMap K V) → contains k (map_values f m) ≡ contains k m
  unfolding contains
  contains-map_values f k [] = refl
  contains-map_values f k ((j, v) ∷ m) = ground (arith, contains-map_values f k m)

  -- No key twice, which Go's maps have by construction.
  abbrev pub IsMap : GoMap K V → Type 0
  IsMap [] = Unit
  IsMap ((k, v) ∷ m) = (contains k m ≡ false) × IsMap m

  pub insert-IsMap : (k : K) (v : V) (m : GoMap K V) → IsMap m → IsMap (insert k v m)
  unfolding insert contains
  insert-IsMap k v [] h = (refl, tt)
  insert-IsMap k v ((j, w) ∷ m) h =
      ground (arith, ==_iff j k, ==_iff k j, contains-insert k j v m, insert-IsMap k v m h.1)

  pub delete-IsMap : (k : K) (m : GoMap K V) → IsMap m → IsMap (delete k m)
  unfolding delete
  delete-IsMap k [] h = tt
  delete-IsMap k ((j, w) ∷ m) h =
      ground (arith, ==_iff j k, contains-delete k j m, delete-IsMap k m h.1)

module _ {ℓ κ μ} {K : Type ℓ} {V : Type κ} ⦃e : Eq K⦄ (P : K × V → Type μ) where
  pub All-insert : (k : K) (v : V) (m : GoMap K V) → P (k, v) → All P m → All P (insert k v m)
  unfolding insert
  All-insert k v [] p h = (p, tt)
  All-insert k v ((j, w) ∷ m) p h = elim (Bool-cases (j == k)) [
    | inl hit ↦ rw hit (p, h.1)
    | inr miss ↦ rw miss (h.0, All-insert k v m p h.1)
  ]

  pub All-delete : (k : K) (m : GoMap K V) → All P m → All P (delete k m)
  unfolding delete
  All-delete k [] h = tt
  All-delete k ((j, w) ∷ m) h = elim (Bool-cases (j == k)) [
    | inl hit ↦ rw hit (All-delete k m h.1)
    | inr miss ↦ rw miss (h.0, All-delete k m h.1)
  ]

  pub All-lookup : (k : K) (m : GoMap K V) {v : V} → All P m → lookup k m ≡ some v → P (k, v)
  unfolding lookup
  All-lookup k [] h q = cc
  All-lookup k ((j, w) ∷ m) h q = elim (Bool-cases (j == k)) [
    | inl hit ↦ subst P (ground (arith, q, hit, ==_iff j k)) h.0
    | inr miss ↦ All-lookup k m h.1 (ground (arith, q, miss))
  ]
