-- ===== src/Eviction/Lru.antt =====
-- internal/eviction/lru.go: the cache of access times. `none` is a panic (a nil entry, an index out
-- of range); the time of a call is an argument.
use echo_vault.Base.{
  ℕ, ◌+◌, ◌-◌, String, Bool, Option, none, some, List, [], ◌∷◌, ◌++◌, map, ltb, if◌then◌else◌, ◌==◌,
  nat_eq, string_eq, length, set, take, contains, erase,
}
use echo_vault.Eviction.Heap.{Entry, ◌>>=◌, up, fix, sink_root, sink_at, deref}

-- `EntryLRU`
pub record EntryLru : Type 0 where
  pub key : String
  pub unix_time : ℕ
  pub index : ℕ

-- `CacheLRU`
pub record CacheLru : Type 0 where
  pub keys : List String
  pub entries : List (Option EntryLru)

-- `Less`: the later time first
abbrev pub less : EntryLru → EntryLru → Bool
less a b = ltb b.unix_time a.unix_time

abbrev pub entry_lru : Entry EntryLru
entry_lru = record { less = less; set_index = λ i e. record e { index = i } }

-- `NewCacheLRU`
abbrev pub new_cache_lru : CacheLru
new_cache_lru = record { keys = []; entries = [] }

-- `slices.IndexFunc` by key, from place `i` on; `some none` is -1
unfoldable pub index_from : ℕ → String → List (Option EntryLru) → Option (Option ℕ)
index_from i key [] = some none
index_from i key (none ∷ entries) = none
index_from i key (some e ∷ entries) =
    let rest = index_from (i + 1) key entries in if e.key == key then some (some i) else rest

-- `GetTime`; `some none` is the error of a key that does not exist
unfoldable pub get_time : String → CacheLru → Option (Option ℕ)
unfolding index_from deref
get_time key cache = do
  idx ← index_from 0 key cache.entries
  elim idx [ none ↦ some none | some i ↦ do e ← deref cache.entries i; some (some e.unix_time) ]

-- `Flush`; `clear` on a slice sets every element to nil and keeps the length
unfoldable pub flush : CacheLru → CacheLru
flush cache = record { keys = []; entries = map (λ _. none) cache.entries }

-- `Push`; the map of keys is not written
unfoldable pub push : ℕ → String → CacheLru → CacheLru
push now key cache = record cache {
  entries =
      cache.entries
      ++ some (record { key = key; unix_time = now; index = length cache.entries }) ∷ [];
}

-- `Pop`
unfoldable pub pop : CacheLru → Option (String × CacheLru)
unfolding deref
pop cache = do
  e ← deref cache.entries (length cache.entries - 1)
  some (
    e.key,
    record {
      keys = erase e.key cache.keys;
      entries = take (length cache.entries - 1) cache.entries;
    },
  )

-- the first branch of `Update`: `heap.Push` of a key that the map lacks
unfoldable pub insert_new : ℕ → String → CacheLru → Option CacheLru
unfolding push up
insert_new now key cache = if contains cache.keys key then some cache else do
  let pushed = push now key cache
  h ← up entry_lru (length pushed.entries) pushed.entries (length pushed.entries - 1)
  some (record pushed { entries = h })

-- `Update`
unfoldable pub update : ℕ → String → CacheLru → Option CacheLru
unfolding insert_new fix index_from deref
update now key cache = do
  cache' ← insert_new now key cache
  idx ← index_from 0 key cache'.entries
  i ← idx
  e ← deref cache'.entries i
  h ← fix entry_lru (set cache'.entries i (some (record e { unix_time = now }))) i
  some (record cache' { entries = h })

-- `heap.Pop` on the cache
unfoldable pub pop_root : CacheLru → Option (String × CacheLru)
unfolding sink_root pop
pop_root cache = do h ← sink_root entry_lru cache.entries; pop (record cache { entries = h })

-- `Delete`, with `heap.Remove` at the place that the entry holds
unfoldable pub delete : String → CacheLru → Option CacheLru
unfolding sink_at pop index_from deref
delete key cache = do
  idx ← index_from 0 key cache.entries
  elim idx [
    | none ↦ some cache
    | some i ↦ do
      e ← deref cache.entries i
      h ← sink_at entry_lru cache.entries e.index
      (_, popped) ← pop (record cache { entries = h })
      some popped
  ]
