-- ===== src/Base/Maps.antt =====
-- Go maps as association lists; a `range` visits the entries in the list's order.
use mathlib.Core.Path.{◌≡◌, refl}
use mathlib.Core.Bool.{◌&&◌}
use mathlib.Core.List.{List, [], ◌∷◌}
use mathlib.Core.Option.{Option, none, some}
use native.Mathlib.Omega.{arith}
use echo_vault.Base.Tests.{Eq, ◌==◌, if◌then◌else◌}

abbrev pub Assoc {ℓ κ} : Type ℓ → Type κ → Type (ℓ ⊔ κ)
Assoc K V = List (K × V)

module _ {ℓ κ} {K : Type ℓ} {V : Type κ} ⦃e : Eq K⦄ where
  -- `m[k]`, with the second result of `v, ok := m[k]`
  unfoldable pub lookup : K → Assoc K V → Option V
  lookup k [] = none
  lookup k ((j, v) ∷ m) = if j == k then some v else lookup k m

  -- `m[k] = v`
  unfoldable pub insert : K → V → Assoc K V → Assoc K V
  insert k v [] = (k, v) ∷ []
  insert k v ((j, w) ∷ m) = if j == k then (k, v) ∷ m else (j, w) ∷ insert k v m

  -- `delete(m, k)`
  unfoldable pub without : K → Assoc K V → Assoc K V
  without k [] = []
  without k ((j, v) ∷ m) = let rest = without k m in if j == k then rest else (j, v) ∷ rest

  pub lookup-insert :
      (k : K) (v : V) (m : Assoc K V) (j : K)
      → lookup j (insert k v m) ≡ (if k == j then some v else lookup j m)
  unfolding lookup insert
  lookup-insert k v [] j = refl
  lookup-insert k v ((i, w) ∷ m) j =
      ground (arith, lookup-insert k v m j, e.beq_iff k j, e.beq_iff i k, e.beq_iff i j)

  pub lookup-without :
      (k : K) (m : Assoc K V) (j : K)
      → lookup j (without k m) ≡ (if k == j then none else lookup j m)
  unfolding lookup without
  lookup-without k [] j = ground arith
  lookup-without k ((i, w) ∷ m) j =
      ground (arith, lookup-without k m j, e.beq_iff k j, e.beq_iff i k, e.beq_iff i j)

  pub lookup-nil : (k : K) → ◌≡◌ {A = Option V} (lookup k []) none
  unfolding lookup
  lookup-nil k = refl

-- A map of maps, as the store is: `m[a][k]`; a missing inner map reads as an empty one.
module _ {ℓ κ} {L : Type ℓ} {V : Type κ} ⦃f : Eq L⦄ where
  abbrev pub lookup_in : Option (Assoc L V) → L → Option V
  lookup_in none k = none
  lookup_in (some n) k = lookup k n

  abbrev pub or_empty : Option (Assoc L V) → Assoc L V
  or_empty none = []
  or_empty (some n) = n

module _ {ℓ κ ι} {K : Type ℓ} {L : Type κ} {V : Type ι} ⦃e : Eq K⦄ ⦃f : Eq L⦄ where
  abbrev pub nested : K → L → Assoc K (Assoc L V) → Option V
  nested a k m = lookup_in (lookup a m) k

  abbrev pub inner : K → Assoc K (Assoc L V) → Assoc L V
  inner a m = or_empty (lookup a m)

  pub nested-insert :
      (a : K) (k : L) (v : V) (m : Assoc K (Assoc L V)) (b : K) (j : L)
      → nested b j (insert a (insert k v (inner a m)) m)
        ≡ (if a == b && k == j then some v else nested b j m)
  nested-insert a k v m b j = ground (
    arith,
    lookup-insert a (insert k v (inner a m)) m b,
    lookup-insert k v (inner a m) j,
    lookup-nil {V = V} j,
    e.beq_iff a b,
  )

  pub nested-without :
      (a : K) (k : L) (m : Assoc K (Assoc L V)) (keys : Assoc L V) (b : K) (j : L)
      → lookup a m ≡ some keys
      → nested b j (insert a (without k keys) m) ≡ (if a == b && k == j then none else nested b j m)
  nested-without a k m keys b j h =
      ground (arith, lookup-insert a (without k keys) m b, lookup-without k keys j, e.beq_iff a b)

  pub nested_absent :
      (a : K) (k : L) (m : Assoc K (Assoc L V)) (b : K) (j : L)
      → lookup a m ≡ none
      → nested b j m ≡ (if a == b && k == j then none else nested b j m)
  nested_absent a k m b j h = ground (arith, e.beq_iff a b)
