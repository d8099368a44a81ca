-- ===== src/Eviction/Lengths.antt =====
-- internal/eviction: the heap functions keep the number of entries, `Pop` takes one away, and `Delete` at most one.
use echo_vault.Base.{
  ℕ, zero, suc, ◌+◌, ◌-◌, ◌*◌, ◌/◌, ◌≡◌, ap, sym, ◌∙◌, Bool, true, false, Option, some, List, arith,
  inl, inr, Option-cases, Bool-cases, if◌then◌else◌, ◌==◌, nat_eq, leb, length, set, length-set,
}
use echo_vault.Eviction.Heap.{
  Entry, deref, less_at, swap_at, up, child, down_from, down, sink_root, sink_at,
}

module _ {E : Type 0} (entry : Entry E) where
  length-swap_at :
      (h h' : List (Option E)) (i j : ℕ) → swap_at entry h i j ≡ some h' → length h' ≡ length h
  unfolding swap_at
  length-swap_at h h' i j e = elim (Option-cases (deref h i)) [
    | inl gone ↦ absurd (ground (arith, gone))
    | inr (a, at_i) ↦ elim (Option-cases (deref h j)) [
      | inl gone ↦ absurd (ground (arith, at_i, gone))
      | inr (b, at_j) ↦
          let h1 = set h i (some (entry.set_index i b)) in
          let same : set h1 j (some (entry.set_index j a)) ≡ h' = ground (arith, at_i, at_j) in
          ap length (sym same) ∙ (length-set h1 j _ ∙ length-set h i _)
    ]
  ]

  length-down_from :
      (fuel : ℕ) (h h' : List (Option E)) (i0 i n : ℕ) (moved : Bool)
      → down_from entry fuel h i0 i n ≡ some (h', moved)
      → length h' ≡ length h
  unfolding down_from
  length-down_from zero h h' i0 i n moved e = absurd (ground arith)
  length-down_from (suc fuel) h h' i0 i n moved e = elim (Bool-cases (leb n (2 * i + 1))) [
    | inl leaf ↦ ground (arith, leaf)
    | inr inner ↦ elim (Option-cases (child entry h i n)) [
      | inl gone ↦ absurd (ground (arith, inner, gone))
      | inr (j, found) ↦ elim (Option-cases (less_at entry h j i)) [
        | inl gone ↦ absurd (ground (arith, inner, found, gone))
        | inr (b, compared) ↦ elim (Bool-cases b) [
          | inr stop ↦ ground (arith, inner, found, compared, stop)
          | inl go ↦ elim (Option-cases (swap_at entry h i j)) [
            | inl gone ↦ absurd (ground (arith, inner, found, compared, go, gone))
            | inr (h1, swapped) ↦
                length-down_from fuel h1 h' i0 j n moved
                  (ground (arith, inner, found, compared, go, swapped))
                ∙ length-swap_at h h1 i j swapped
          ]
        ]
      ]
    ]
  ]

  length-up :
      (fuel : ℕ) (h h' : List (Option E)) (j : ℕ)
      → up entry fuel h j ≡ some h'
      → length h' ≡ length h
  unfolding up
  length-up zero h h' j e = absurd (ground arith)
  length-up (suc fuel) h h' j e = elim (Bool-cases (j == (j - 1) / 2)) [
    | inl top ↦ ground (arith, top)
    | inr inner ↦ elim (Option-cases (less_at entry h j ((j - 1) / 2))) [
      | inl gone ↦ absurd (ground (arith, inner, gone))
      | inr (b, compared) ↦ elim (Bool-cases b) [
        | inr stop ↦ ground (arith, inner, compared, stop)
        | inl go ↦ elim (Option-cases (swap_at entry h ((j - 1) / 2) j)) [
          | inl gone ↦ absurd (ground (arith, inner, compared, go, gone))
          | inr (h1, swapped) ↦
              length-up fuel h1 h' ((j - 1) / 2) (ground (arith, inner, compared, go, swapped))
              ∙ length-swap_at h h1 ((j - 1) / 2) j swapped
        ]
      ]
    ]
  ]

  length-down :
      (h h' : List (Option E)) (i n : ℕ) (moved : Bool)
      → down entry h i n ≡ some (h', moved)
      → length h' ≡ length h
  unfolding down
  length-down h h' i n moved e = length-down_from (suc n) h h' i i n moved e

  pub length-sink_root :
      (h h' : List (Option E)) → sink_root entry h ≡ some h' → length h' ≡ length h
  unfolding sink_root
  length-sink_root h h' e = elim (Option-cases (swap_at entry h 0 (length h - 1))) [
    | inl gone ↦ absurd (ground (arith, gone))
    | inr (h1, swapped) ↦ elim (Option-cases (down entry h1 0 (length h - 1))) [
      | inl gone ↦ absurd (ground (arith, swapped, gone))
      | inr ((h2, moved), sunk) ↦
          let same : h2 ≡ h' = ground (arith, swapped, sunk) in
          ap length (sym same)
          ∙ (length-down h1 h2 0 (length h - 1) moved sunk
              ∙ length-swap_at h h1 0 (length h - 1) swapped)
    ]
  ]

  pub length-sink_at :
      (h h' : List (Option E)) (i : ℕ) → sink_at entry h i ≡ some h' → length h' ≡ length h
  unfolding sink_at
  length-sink_at h h' i e = elim (Bool-cases (length h - 1 == i)) [
    | inl last ↦ ground (arith, last)
    | inr inner ↦ elim (Option-cases (swap_at entry h i (length h - 1))) [
      | inl gone ↦ absurd (ground (arith, inner, gone))
      | inr (h1, swapped) ↦ elim (Option-cases (down entry h1 i (length h - 1))) [
        | inl gone ↦ absurd (ground (arith, inner, swapped, gone))
        | inr ((h2, moved), sunk) ↦
            length-moved h2 h' i moved (ground (arith, inner, swapped, sunk))
            ∙ (length-down h1 h2 i (length h - 1) moved sunk
                ∙ length-swap_at h h1 i (length h - 1) swapped)
      ]
    ]
  ]
    where
      length-moved :
          (h2 g : List (Option E)) (k : ℕ) (moved : Bool)
          → (if moved then some h2 else up entry (suc k) h2 k) ≡ some g
          → length g ≡ length h2
      length-moved h2 g k true r = ground arith
      length-moved h2 g k false r = length-up (suc k) h2 g k r
