-- ===== src/Keyspace/HeapSizes.antt =====
-- sugardb/keyspace.go: how the entries of a heap get fewer when keys are evicted.
use echo_vault.Base.{
  ℕ, ◌≤◌, ◌<◌, ◌≡◌, ◌≢◌, refl, ap, sym, ◌∙◌, String, true, Option, none, some, arith, inl, inr,
  Option-cases, Bool-cases, ◌==◌, nat_eq, int_eq, int_beq_iff, length, ℤ, lookup, insert,
  lookup-insert,
}
use echo_vault.Eviction.Lfu
use echo_vault.Eviction.Lfu.{CacheLfu}
use echo_vault.Eviction.Lru
use echo_vault.Eviction.Lru.{CacheLru}
use echo_vault.Eviction.Shrinking.{
  length-pop_root_lfu, length-pop_root_lru, length-delete_lfu, length-delete_lru,
}
use echo_vault.Keyspace.State.{ok, Server, Mode, standalone, follower, entry}
use echo_vault.Keyspace.Access.{
  Cache, counts, times, no_cache, cache_of, data_or_zero, delete_key, remove_key, drop_entry,
  uncache, delete_lfu, delete_lru,
}
use echo_vault.Keyspace.Laws.{get_mem-cases}
use echo_vault.Keyspace.Evict.{evict_key, next_lfu, next_lru}

-- the number of entries in the heap of a database
abbrev pub entries_lfu : Option CacheLfu → ℕ
entries_lfu none = 0
entries_lfu (some c) = length c.entries

abbrev pub size_lfu : ℤ → Server → ℕ
size_lfu db s = entries_lfu (lookup db s.lfu)

same_lfu : (db : ℤ) (s s' : Server) → s'.lfu ≡ s.lfu → size_lfu db s' ≤ size_lfu db s
same_lfu db s s' same = omega (arith, ap (λ caches. entries_lfu (lookup db caches)) same)

stored_lfu :
    (db : ℤ) (c : CacheLfu) (s s' : Server) → insert db c s.lfu ≡ s'.lfu → lookup db s'.lfu ≡ some c
stored_lfu db c s s' same =
    ap (lookup db) (sym same) ∙ ground (arith, lookup-insert db c s.lfu db, int_beq_iff db db)

delete_lfu_size :
    (db : ℤ) (key : String) (s s' : Server)
    → delete_lfu db key s ≡ ok s'
    → size_lfu db s' ≤ size_lfu db s
unfolding delete_lfu
delete_lfu_size db key s s' e = elim (Option-cases (lookup db s.lfu)) [
  | inl gone ↦ absurd (ground (arith, gone))
  | inr (c, held) ↦ elim (Option-cases (Lfu.delete key c)) [
    | inl gone ↦ absurd (ground (arith, held, gone))
    | inr (c', done) ↦
        let stored = stored_lfu db c' s s' (ground (arith, held, done)) in
        omega (arith, length-delete_lfu c c' key done, ap entries_lfu held, ap entries_lfu stored)
  ]
]

delete_lru_same :
    (db : ℤ) (key : String) (s s' : Server) → delete_lru db key s ≡ ok s' → s'.lfu ≡ s.lfu
unfolding delete_lru
delete_lru_same db key s s' e = ground arith

size_lfu-uncache :
    (db : ℤ) (key : String) (s s' : Server)
    → uncache db key s ≡ ok s'
    → size_lfu db s' ≤ size_lfu db s
unfolding uncache
size_lfu-uncache db key s s' e = elim (Bool-cases s.config.lower_case) [
  | inr other ↦ same_lfu db s s' (ground (arith, other))
  | inl lower ↦ go (cache_of s.config.policy) refl lower
]
  where
    go :
        (c : Cache)
        → cache_of s.config.policy ≡ c
        → s.config.lower_case ≡ true
        → size_lfu db s' ≤ size_lfu db s
    go counts used lower = delete_lfu_size db key s s' (ground (arith, used, lower))
    go times used lower =
        same_lfu db s s' (delete_lru_same db key s s' (ground (arith, used, lower)))
    go no_cache used lower = same_lfu db s s' (ground (arith, used, lower))

remove_key_same_lfu :
    (db : ℤ) (key : String) (mem : ℕ) (s : Server) → (remove_key db key mem s).lfu ≡ s.lfu
unfolding remove_key drop_entry
remove_key_same_lfu db key mem s = ground arith

size_lfu-delete_key :
    (db : ℤ) (key : String) (s s' : Server)
    → delete_key db key s ≡ ok s'
    → size_lfu db s' ≤ size_lfu db s
unfolding delete_key
size_lfu-delete_key db key s s' e = elim (get_mem-cases s.memory (data_or_zero (entry s db key))) [
  | inl (mem, fits) ↦ omega (
    arith,
    size_lfu-uncache db key (remove_key db key mem s) s' (ground (arith, fits)),
    same_lfu db s (remove_key db key mem s) (remove_key_same_lfu db key mem s),
  )
  | inr (m, fails) ↦ absurd (ground (arith, fails))
]

pub size_lfu-evict_key :
    (db : ℤ) (key : String) (s s' : Server)
    → evict_key db key s ≡ ok s'
    → size_lfu db s' ≤ size_lfu db s
unfolding evict_key
size_lfu-evict_key db key s s' e = go s.config.mode refl
  where
    go : (m : Mode) → s.config.mode ≡ m → size_lfu db s' ≤ size_lfu db s
    go standalone alone = size_lfu-delete_key db key s s' (ground (arith, alone))
    go follower alone = same_lfu db s s' (ground (arith, alone))

pub size_lfu-next_lfu :
    (db : ℤ) (key : String) (s s1 : Server)
    → next_lfu db s ≡ ok (key, s1)
    → size_lfu db s1 < size_lfu db s
unfolding next_lfu
size_lfu-next_lfu db key s s1 e = elim (Option-cases (lookup db s.lfu)) [
  | inl gone ↦ absurd (ground (arith, gone))
  | inr (c, held) ↦ elim (Bool-cases (length c.entries == 0)) [
    | inl empty ↦ absurd (ground (arith, held, empty))
    | inr some_left ↦ elim (Option-cases (Lfu.pop_root c)) [
      | inl gone ↦ absurd (ground (arith, held, some_left, gone))
      | inr ((k, c'), popped) ↦
          let stored = stored_lfu db c' s s1 (ground (arith, held, some_left, popped)) in
          let positive : length c.entries ≢ 0 = ground arith in
          omega (
            arith,
            positive,
            length-pop_root_lfu c c' k popped,
            ap entries_lfu held,
            ap entries_lfu stored,
          )
    ]
  ]
]

-- the number of entries in the heap of a database
abbrev pub entries_lru : Option CacheLru → ℕ
entries_lru none = 0
entries_lru (some c) = length c.entries

abbrev pub size_lru : ℤ → Server → ℕ
size_lru db s = entries_lru (lookup db s.lru)

same_lru : (db : ℤ) (s s' : Server) → s'.lru ≡ s.lru → size_lru db s' ≤ size_lru db s
same_lru db s s' same = omega (arith, ap (λ caches. entries_lru (lookup db caches)) same)

stored_lru :
    (db : ℤ) (c : CacheLru) (s s' : Server) → insert db c s.lru ≡ s'.lru → lookup db s'.lru ≡ some c
stored_lru db c s s' same =
    ap (lookup db) (sym same) ∙ ground (arith, lookup-insert db c s.lru db, int_beq_iff db db)

delete_lru_size :
    (db : ℤ) (key : String) (s s' : Server)
    → delete_lru db key s ≡ ok s'
    → size_lru db s' ≤ size_lru db s
unfolding delete_lru
delete_lru_size db key s s' e = elim (Option-cases (lookup db s.lru)) [
  | inl gone ↦ absurd (ground (arith, gone))
  | inr (c, held) ↦ elim (Option-cases (Lru.delete key c)) [
    | inl gone ↦ absurd (ground (arith, held, gone))
    | inr (c', done) ↦
        let stored = stored_lru db c' s s' (ground (arith, held, done)) in
        omega (arith, length-delete_lru c c' key done, ap entries_lru held, ap entries_lru stored)
  ]
]

delete_lfu_same :
    (db : ℤ) (key : String) (s s' : Server) → delete_lfu db key s ≡ ok s' → s'.lru ≡ s.lru
unfolding delete_lfu
delete_lfu_same db key s s' e = ground arith

size_lru-uncache :
    (db : ℤ) (key : String) (s s' : Server)
    → uncache db key s ≡ ok s'
    → size_lru db s' ≤ size_lru db s
unfolding uncache
size_lru-uncache db key s s' e = elim (Bool-cases s.config.lower_case) [
  | inr other ↦ same_lru db s s' (ground (arith, other))
  | inl lower ↦ go (cache_of s.config.policy) refl lower
]
  where
    go :
        (c : Cache)
        → cache_of s.config.policy ≡ c
        → s.config.lower_case ≡ true
        → size_lru db s' ≤ size_lru db s
    go times used lower = delete_lru_size db key s s' (ground (arith, used, lower))
    go counts used lower =
        same_lru db s s' (delete_lfu_same db key s s' (ground (arith, used, lower)))
    go no_cache used lower = same_lru db s s' (ground (arith, used, lower))

remove_key_same_lru :
    (db : ℤ) (key : String) (mem : ℕ) (s : Server) → (remove_key db key mem s).lru ≡ s.lru
unfolding remove_key drop_entry
remove_key_same_lru db key mem s = ground arith

size_lru-delete_key :
    (db : ℤ) (key : String) (s s' : Server)
    → delete_key db key s ≡ ok s'
    → size_lru db s' ≤ size_lru db s
unfolding delete_key
size_lru-delete_key db key s s' e = elim (get_mem-cases s.memory (data_or_zero (entry s db key))) [
  | inl (mem, fits) ↦ omega (
    arith,
    size_lru-uncache db key (remove_key db key mem s) s' (ground (arith, fits)),
    same_lru db s (remove_key db key mem s) (remove_key_same_lru db key mem s),
  )
  | inr (m, fails) ↦ absurd (ground (arith, fails))
]

pub size_lru-evict_key :
    (db : ℤ) (key : String) (s s' : Server)
    → evict_key db key s ≡ ok s'
    → size_lru db s' ≤ size_lru db s
unfolding evict_key
size_lru-evict_key db key s s' e = go s.config.mode refl
  where
    go : (m : Mode) → s.config.mode ≡ m → size_lru db s' ≤ size_lru db s
    go standalone alone = size_lru-delete_key db key s s' (ground (arith, alone))
    go follower alone = same_lru db s s' (ground (arith, alone))

pub size_lru-next_lru :
    (db : ℤ) (key : String) (s s1 : Server)
    → next_lru db s ≡ ok (key, s1)
    → size_lru db s1 < size_lru db s
unfolding next_lru
size_lru-next_lru db key s s1 e = elim (Option-cases (lookup db s.lru)) [
  | inl gone ↦ absurd (ground (arith, gone))
  | inr (c, held) ↦ elim (Bool-cases (length c.entries == 0)) [
    | inl empty ↦ absurd (ground (arith, held, empty))
    | inr some_left ↦ elim (Option-cases (Lru.pop_root c)) [
      | inl gone ↦ absurd (ground (arith, held, some_left, gone))
      | inr ((k, c'), popped) ↦
          let stored = stored_lru db c' s s1 (ground (arith, held, some_left, popped)) in
          let positive : length c.entries ≢ 0 = ground arith in
          omega (
            arith,
            positive,
            length-pop_root_lru c c' k popped,
            ap entries_lru held,
            ap entries_lru stored,
          )
    ]
  ]
]
