-- ===== src/Eviction/Lfu.antt =====
-- internal/eviction/lfu.go: the cache of access counts. `none` is a panic (a nil entry, an index out
-- of range); the time of a call is an argument.
use echo_vault.Base.{
  ℕ, ◌+◌, ◌-◌, String, Bool, Option, none, some, List, [], ◌∷◌, ◌++◌, map, ltb, if◌then◌else◌, ◌==◌,
  nat_eq, string_eq, length, set, take, contains, erase,
}
use echo_vault.Eviction.Heap.{Entry, ◌>>=◌, up, fix, sink_root, sink_at, deref}

-- `EntryLFU`
pub record EntryLfu : Type 0 where
  pub key : String
  pub count : ℕ
  pub added_time : ℕ
  pub index : ℕ

-- `CacheLFU`
pub record CacheLfu : Type 0 where
  pub keys : List String
  pub entries : List (Option EntryLfu)

-- `Less`: the smaller count first, and of two equal counts the later time
abbrev pub less : EntryLfu → EntryLfu → Bool
less a b = if a.count == b.count then ltb b.added_time a.added_time else ltb a.count b.count

abbrev pub entry_lfu : Entry EntryLfu
entry_lfu = record { less = less; set_index = λ i e. record e { index = i } }

-- `NewCacheLFU`
abbrev pub new_cache_lfu : CacheLfu
new_cache_lfu = record { keys = []; entries = [] }

-- `slices.IndexFunc` by key, from place `i` on; `some none` is -1
unfoldable pub index_from : ℕ → String → List (Option EntryLfu) → Option (Option ℕ)
index_from i key [] = some none
index_from i key (none ∷ entries) = none
index_from i key (some e ∷ entries) =
    let rest = index_from (i + 1) key entries in if e.key == key then some (some i) else rest

-- `GetCount`; `some none` is the error of a key that does not exist
unfoldable pub get_count : String → CacheLfu → Option (Option ℕ)
unfolding index_from deref
get_count key cache = do
  idx ← index_from 0 key cache.entries
  elim idx [ none ↦ some none | some i ↦ do e ← deref cache.entries i; some (some e.count) ]

-- `Flush`; `clear` on a slice sets every element to nil and keeps the length
unfoldable pub flush : CacheLfu → CacheLfu
flush cache = record { keys = []; entries = map (λ _. none) cache.entries }

-- `Push`
unfoldable pub push : ℕ → String → CacheLfu → CacheLfu
push now key cache = record {
  keys = if contains cache.keys key then cache.keys else key ∷ cache.keys;
  entries =
      cache.entries
      ++ some (record { key = key; count = 1; added_time = now; index = length cache.entries })
        ∷ [];
}

-- `Pop`
unfoldable pub pop : CacheLfu → Option (String × CacheLfu)
unfolding deref
pop cache = do
  e ← deref cache.entries (length cache.entries - 1)
  some (
    e.key,
    record {
      keys = erase e.key cache.keys;
      entries = take (length cache.entries - 1) cache.entries;
    },
  )

-- the branch of `Update` for a key that the map lacks: `heap.Push`
unfoldable pub insert_new : ℕ → String → CacheLfu → Option CacheLfu
unfolding push up
insert_new now key cache = do
  let pushed = push now key cache
  h ← up entry_lfu (length pushed.entries) pushed.entries (length pushed.entries - 1)
  some (record pushed { entries = h })

-- the branch for a key that the map has
unfoldable pub count_access : String → CacheLfu → Option CacheLfu
unfolding fix index_from deref
count_access key cache = do
  idx ← index_from 0 key cache.entries
  i ← idx
  e ← deref cache.entries i
  h ← fix entry_lfu (set cache.entries i (some (record e { count = e.count + 1 }))) i
  some (record cache { entries = h })

-- `Update`
unfoldable pub update : ℕ → String → CacheLfu → Option CacheLfu
unfolding insert_new count_access
update now key cache =
    if contains cache.keys key then count_access key cache else insert_new now key cache

-- `heap.Pop` on the cache
unfoldable pub pop_root : CacheLfu → Option (String × CacheLfu)
unfolding sink_root pop
pop_root cache = do h ← sink_root entry_lfu cache.entries; pop (record cache { entries = h })

-- `Delete`, with `heap.Remove` at the place that the entry holds
unfoldable pub delete : String → CacheLfu → Option CacheLfu
unfolding sink_at pop index_from deref
delete key cache = do
  idx ← index_from 0 key cache.entries
  elim idx [
    | none ↦ some cache
    | some i ↦ do
      e ← deref cache.entries i
      h ← sink_at entry_lfu cache.entries e.index
      (_, popped) ← pop (record cache { entries = h })
      some popped
  ]
