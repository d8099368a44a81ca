-- ===== src/Eviction/Shrinking.antt =====
-- internal/eviction/lfu.go and lru.go: how many entries `Pop` and `Delete` leave.
use echo_vault.Base.{
  ◌-◌, ◌≤◌, ◌≡◌, ap, sym, ◌∙◌, String, none, some, arith, inl, inr, Option-cases, length, take,
  length-take,
}
use echo_vault.Eviction.Heap.{deref, sink_root, sink_at}
use echo_vault.Eviction.Lengths.{length-sink_root, length-sink_at}
use echo_vault.Eviction.Lfu
use echo_vault.Eviction.Lfu.{CacheLfu, entry_lfu}
use echo_vault.Eviction.Lru
use echo_vault.Eviction.Lru.{CacheLru, entry_lru}

length-pop_lfu :
    (c c' : CacheLfu) (key : String)
    → Lfu.pop c ≡ some (key, c')
    → length c'.entries ≡ length c.entries - 1
unfolding Lfu.pop
length-pop_lfu c c' key e = elim (Option-cases (deref c.entries (length c.entries - 1))) [
  | inl gone ↦ absurd (ground (arith, gone))
  | inr (a, last) ↦
      let same : take (length c.entries - 1) c.entries ≡ c'.entries = ground (arith, last) in
      ap length (sym same) ∙ length-take (length c.entries - 1) c.entries (omega arith)
]

pub length-pop_root_lfu :
    (c c' : CacheLfu) (key : String)
    → Lfu.pop_root c ≡ some (key, c')
    → length c'.entries ≡ length c.entries - 1
unfolding Lfu.pop_root
length-pop_root_lfu c c' key e = elim (Option-cases (sink_root entry_lfu c.entries)) [
  | inl gone ↦ absurd (ground (arith, gone))
  | inr (h, sunk) ↦
      let popped = length-pop_lfu (record c { entries = h }) c' key (ground (arith, sunk)) in
      omega (arith, popped, length-sink_root entry_lfu c.entries h sunk)
]

pub length-delete_lfu :
    (c c' : CacheLfu) (key : String)
    → Lfu.delete key c ≡ some c'
    → length c'.entries ≤ length c.entries
unfolding Lfu.delete
length-delete_lfu c c' key e = elim (Option-cases (Lfu.index_from 0 key c.entries)) [
  | inl gone ↦ absurd (ground (arith, gone))
  | inr (none, absent) ↦
      let same : c ≡ c' = ground (arith, absent) in omega (arith, ap (λ x. length x.entries) same)
  | inr (some i, found) ↦ elim (Option-cases (deref c.entries i)) [
    | inl gone ↦ absurd (ground (arith, found, gone))
    | inr (a, held) ↦ elim (Option-cases (sink_at entry_lfu c.entries a.index)) [
      | inl gone ↦ absurd (ground (arith, found, held, gone))
      | inr (h, sunk) ↦ elim (Option-cases (Lfu.pop (record c { entries = h }))) [
        | inl gone ↦ absurd (ground (arith, found, held, sunk, gone))
        | inr ((k, c2), popped) ↦
            let same : c2 ≡ c' = ground (arith, found, held, sunk, popped) in
            let kept = length-sink_at entry_lfu c.entries h a.index sunk in
            let less = length-pop_lfu (record c { entries = h }) c2 k popped in
            omega (arith, kept, less, ap (λ x. length x.entries) same)
      ]
    ]
  ]
]

length-pop_lru :
    (c c' : CacheLru) (key : String)
    → Lru.pop c ≡ some (key, c')
    → length c'.entries ≡ length c.entries - 1
unfolding Lru.pop
length-pop_lru c c' key e = elim (Option-cases (deref c.entries (length c.entries - 1))) [
  | inl gone ↦ absurd (ground (arith, gone))
  | inr (a, last) ↦
      let same : take (length c.entries - 1) c.entries ≡ c'.entries = ground (arith, last) in
      ap length (sym same) ∙ length-take (length c.entries - 1) c.entries (omega arith)
]

pub length-pop_root_lru :
    (c c' : CacheLru) (key : String)
    → Lru.pop_root c ≡ some (key, c')
    → length c'.entries ≡ length c.entries - 1
unfolding Lru.pop_root
length-pop_root_lru c c' key e = elim (Option-cases (sink_root entry_lru c.entries)) [
  | inl gone ↦ absurd (ground (arith, gone))
  | inr (h, sunk) ↦
      let popped = length-pop_lru (record c { entries = h }) c' key (ground (arith, sunk)) in
      omega (arith, popped, length-sink_root entry_lru c.entries h sunk)
]

pub length-delete_lru :
    (c c' : CacheLru) (key : String)
    → Lru.delete key c ≡ some c'
    → length c'.entries ≤ length c.entries
unfolding Lru.delete
length-delete_lru c c' key e = elim (Option-cases (Lru.index_from 0 key c.entries)) [
  | inl gone ↦ absurd (ground (arith, gone))
  | inr (none, absent) ↦
      let same : c ≡ c' = ground (arith, absent) in omega (arith, ap (λ x. length x.entries) same)
  | inr (some i, found) ↦ elim (Option-cases (deref c.entries i)) [
    | inl gone ↦ absurd (ground (arith, found, gone))
    | inr (a, held) ↦ elim (Option-cases (sink_at entry_lru c.entries a.index)) [
      | inl gone ↦ absurd (ground (arith, found, held, gone))
      | inr (h, sunk) ↦ elim (Option-cases (Lru.pop (record c { entries = h }))) [
        | inl gone ↦ absurd (ground (arith, found, held, sunk, gone))
        | inr ((k, c2), popped) ↦
            let same : c2 ≡ c' = ground (arith, found, held, sunk, popped) in
            let kept = length-sink_at entry_lru c.entries h a.index sunk in
            let less = length-pop_lru (record c { entries = h }) c2 k popped in
            omega (arith, kept, less, ap (λ x. length x.entries) same)
      ]
    ]
  ]
]
