-- ===== src/Prelude/Assoc.antt =====
-- A Go map as an association list. The order of the list stands for the order in which `range`
-- happens to visit the map: nothing is proved that depends on it.
use mathlib.Core.Path.{◌≡◌, subst₂}
use mathlib.Core.Logic.{inl, inr}
use mathlib.Core.Bool.{false}
use mathlib.Core.List.{List, [], ◌∷◌}
use mathlib.Core.Option.{Option, none, some, some-injective}
use native.Mathlib.Omega.{arith}
use Prim.Native.Nat.{◌≤◌}
use meshnet_cni.Prelude.Lists.{length}
use meshnet_cni.Prelude.Tests.{if◌then◌else◌, Eq, ◌==◌, ==_refl, Bool-cases}

abbrev pub Assoc {ℓ κ} : Type ℓ → Type κ → Type (ℓ ⊔ κ)
Assoc K V = List (K × V)

module _ {ℓ κ} {K : Type ℓ} {V : Type κ} ⦃e : Eq K⦄ where
  -- v, ok := m[k]
  unfoldable pub lookup : K → Assoc K V → Option V
  lookup k [] = none
  lookup k ((j, v) ∷ m) = if j == k then some v else lookup k m

  -- delete(m, k)
  unfoldable pub delete : K → Assoc K V → Assoc K V
  delete k [] = []
  delete k ((j, v) ∷ m) = let rest = delete k m in if j == k then rest else (j, v) ∷ rest

  -- m[k] = v
  unfoldable pub insert : K → V → Assoc K V → Assoc K V
  unfolding delete
  insert k v m = (k, v) ∷ delete k m

  pub lookup-delete :
      (k j : K) (m : Assoc K V) → lookup j (delete k m) ≡ (if k == j then none else lookup j m)
  unfolding lookup delete
  lookup-delete k j [] = ground arith
  lookup-delete k j ((i, v) ∷ m) =
      ground (arith, lookup-delete k j m, e.beq_iff i k, e.beq_iff i j, e.beq_iff k j)

  pub lookup-insert :
      (k j : K) (v : V) (m : Assoc K V)
      → lookup j (insert k v m) ≡ (if k == j then some v else lookup j m)
  unfolding lookup insert
  lookup-insert k j v m = ground (arith, lookup-delete k j m)

  pub lookup-insert_self : (k : K) (v : V) (m : Assoc K V) → lookup k (insert k v m) ≡ some v
  lookup-insert_self k v m = simp (lookup-insert, ==_refl)

  pub lookup-delete_self : (k : K) (m : Assoc K V) → lookup k (delete k m) ≡ none
  lookup-delete_self k m = simp (lookup-delete, ==_refl)

  pub ruleset assoc_laws = (lookup-delete, lookup-insert)

module _ {ℓ κ ν} {K : Type ℓ} {V : Type κ} where
  -- Every entry satisfies `P`.
  abbrev pub AllPairs : (K → V → Type ν) → Assoc K V → Type ν
  AllPairs P [] = Unit
  AllPairs P ((k, v) ∷ m) = P k v × AllPairs P m

module _ {ℓ κ ν} {K : Type ℓ} {V : Type κ} ⦃e : Eq K⦄ where
  pub AllPairs-lookup :
      (P : K → V → Type ν) (k : K) (m : Assoc K V) {v : V}
      → AllPairs P m
      → lookup k m ≡ some v
      → P k v
  unfolding lookup
  AllPairs-lookup P k [] a h = cc
  AllPairs-lookup P k ((j, w) ∷ m) {v} a h = elim (Bool-cases (j == k)) [
    | inl same ↦ subst₂ P ((e.beq_iff j k).0 same) (some-injective _ _ (rw same at h)) a.0
    | inr other ↦ AllPairs-lookup P k m a.1 (rw other at h)
  ]

  pub AllPairs-map {ρ} :
      (P : K → V → Type ν) (Q : K → V → Type ρ) (m : Assoc K V)
      → ((k : K) (v : V) → P k v → Q k v)
      → AllPairs P m
      → AllPairs Q m
  AllPairs-map P Q [] f a = tt
  AllPairs-map P Q ((k, v) ∷ m) f a = (f k v a.0, AllPairs-map P Q m f a.1)

  pub AllPairs-delete :
      (P : K → V → Type ν) (k : K) (m : Assoc K V)
      → AllPairs P m
      → AllPairs (λ j v. ((j == k) ≡ false) × P j v) (delete k m)
  unfolding delete
  AllPairs-delete P k [] a = tt
  AllPairs-delete P k ((j, w) ∷ m) a = elim (Bool-cases (j == k)) [
    | inl same ↦ rw same (AllPairs-delete P k m a.1)
    | inr other ↦ rw other ((other, a.0), AllPairs-delete P k m a.1)
  ]

  pub AllPairs-insert :
      (P : K → V → Type ν) (k : K) (v : V) (m : Assoc K V)
      → P k v
      → AllPairs P m
      → AllPairs P (insert k v m)
  unfolding insert
  AllPairs-insert P k v m p a = (
    p,
    AllPairs-map (λ j w. ((j == k) ≡ false) × P j w) P (delete k m) (λ j w h. h.1)
        (AllPairs-delete P k m a),
  )

  pub AllPairs-remove :
      (P : K → V → Type ν) (k : K) (m : Assoc K V) → AllPairs P m → AllPairs P (delete k m)
  AllPairs-remove P k m a =
      AllPairs-map (λ j w. ((j == k) ≡ false) × P j w) P (delete k m) (λ j w h. h.1)
        (AllPairs-delete P k m a)

module _ {ℓ κ} {K : Type ℓ} {V : Type κ} ⦃e : Eq K⦄ where
  pub length-delete : (k : K) (m : Assoc K V) → length (delete k m) ≤ length m
  unfolding delete
  length-delete k [] = omega arith
  length-delete k ((j, w) ∷ m) = ground (arith, length-delete k m)
