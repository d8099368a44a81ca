-- ===== src/Eviction/Heap.antt =====
-- The calls of Go's container/heap that internal/eviction makes, over a slice of pointers to
-- entries. A nil pointer or an index out of range is a panic, `none`.
use echo_vault.Base.{
  ℕ, zero, suc, ◌+◌, ◌-◌, ◌*◌, ◌/◌, Bool, true, false, Option, none, some, List, ltb, leb,
  if◌then◌else◌, ◌==◌, nat_eq, length, get_elem?, set,
}

infixl 5 ◌>>=◌
abbrev pub ◌>>=◌ {ℓ κ} : {A : Type ℓ} {B : Type κ} → Option A → (A → Option B) → Option B
none >>= f = none
some a >>= f = f a

-- What the heap needs of an entry: the order, and the field that holds its place.
pub record Entry (E : Type 0) : Type 0 where
  pub less : E → E → Bool
  pub set_index : ℕ → E → E

module _ {E : Type 0} where
  -- `entries[i]`, followed
  unfoldable pub deref : List (Option E) → ℕ → Option E
  deref h i = do o ← get_elem? h i; o

  module _ (entry : Entry E) where
    -- `Less(i, j)`
    unfoldable pub less_at : List (Option E) → ℕ → ℕ → Option Bool
    unfolding deref
    less_at h i j = do a ← deref h i; b ← deref h j; some (entry.less a b)

    -- `Swap(i, j)`
    unfoldable pub swap_at : List (Option E) → ℕ → ℕ → Option (List (Option E))
    unfolding deref
    swap_at h i j = do
      a ← deref h i
      b ← deref h j
      some (set (set h i (some (entry.set_index i b))) j (some (entry.set_index j a)))

    -- `heap.up`; fuel above `j` is enough
    unfoldable pub up : ℕ → List (Option E) → ℕ → Option (List (Option E))
    up zero h j = none
    up (suc fuel) h j = elim (j == (j - 1) / 2) [
      | true ↦ some h
      | false ↦ elim (less_at h j ((j - 1) / 2)) [
        | none ↦ none
        | some false ↦ some h
        | some true ↦ do h' ← swap_at h ((j - 1) / 2) j; up fuel h' ((j - 1) / 2)
      ]
    ]

    -- the child that `heap.down` compares with
    unfoldable pub child : List (Option E) → ℕ → ℕ → Option ℕ
    child h i n = elim (ltb (2 * i + 2) n) [
      | false ↦ some (2 * i + 1)
      | true ↦ do b ← less_at h (2 * i + 2) (2 * i + 1); some (if b then 2 * i + 2 else 2 * i + 1)
    ]

    -- `heap.down`: the heap, and whether the entry has moved; fuel above `n` is enough
    unfoldable pub down_from : ℕ → List (Option E) → ℕ → ℕ → ℕ → Option (List (Option E) × Bool)
    unfolding child
    down_from zero h i0 i n = none
    down_from (suc fuel) h i0 i n = elim (leb n (2 * i + 1)) [
      | true ↦ some (h, ltb i0 i)
      | false ↦ do
        j ← child h i n
        b ← less_at h j i
        elim b [
          | false ↦ some (h, ltb i0 i)
          | true ↦ do h' ← swap_at h i j; down_from fuel h' i0 j n
        ]
    ]

    unfoldable pub down : List (Option E) → ℕ → ℕ → Option (List (Option E) × Bool)
    down h i n = down_from (suc n) h i i n

    -- `heap.Fix`
    unfoldable pub fix : List (Option E) → ℕ → Option (List (Option E))
    fix h i = do (h', moved) ← down h i (length h); if moved then some h' else up (suc i) h' i

    -- `heap.Pop` and `heap.Remove` up to the call of `Pop`, which takes the last entry
    unfoldable pub sink_root : List (Option E) → Option (List (Option E))
    sink_root h = do h' ← swap_at h 0 (length h - 1); (h'', _) ← down h' 0 (length h - 1); some h''

    unfoldable pub sink_at : List (Option E) → ℕ → Option (List (Option E))
    sink_at h i = if length h - 1 == i then some h else do
      h' ← swap_at h i (length h - 1)
      (h'', moved) ← down h' i (length h - 1)
      if moved then some h'' else up (suc i) h'' i
