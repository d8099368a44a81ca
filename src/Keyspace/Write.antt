-- ===== src/Keyspace/Write.antt =====
-- sugardb/keyspace.go: setValues, setExpiry and Flush.
use Prim.Native.String.{len}
use echo_vault.Base.{
  ℕ, ◌+◌, String, Bool, Option, none, some, List, [], ◌∷◌, ◌++◌, map, if◌then◌else◌, ◌==◌, nat_eq,
  string_eq, int_eq, ℤ, negsuc, Assoc, lookup, insert, contains, ◌&&◌,
}
use echo_vault.Eviction.Lfu
use echo_vault.Eviction.Lfu.{CacheLfu, new_cache_lfu}
use echo_vault.Eviction.Lru
use echo_vault.Eviction.Lru.{CacheLru, new_cache_lru}
use echo_vault.Keyspace.State.{
  Result, ok, err, panic, Value, KeyData, get_mem, Mode, standalone, Server, header, add64,
  volatile_of, is_max_memory_exceeded, refuses,
}
use echo_vault.Keyspace.Access.{get_expiry, create_database, put_entry, data_or_zero}

-- `IncrementChangeCount` of internal/snapshot/snapshot.go, which a standalone node calls
abbrev pub count_change : Mode → ℕ → ℕ
count_change standalone n = n + 1
count_change _ n = n

-- one round of the loop of `setValues`: a key keeps its expiry time; an error comes after the write
unfoldable pub set_value : ℤ → String → Value → Server → Server × Option String
set_value db key value s =
    let d : KeyData = record { value = value; expire_at = get_expiry s db key } in
    let s1 = put_entry db key d s in
    elim (get_mem s.memory d) [
      | ok mem ↦ (
        record s1 {
          mem_used = add64 (add64 (add64 s.mem_used mem) header) (len key);
          changes = count_change s.config.mode s.changes;
        },
        none,
      )
      | err e ↦ (s1, some e)
      | panic ↦ (s1, none)
    ]

-- the loop of `setValues`
unfoldable pub set_each : ℤ → Assoc String Value → Server → Server × Option String
set_each db [] s = (s, none)
set_each db ((key, value) ∷ entries) s =
    let (s', e) = set_value db key value s in
    elim e [ none ↦ set_each db entries s' | some m ↦ (s', some m) ]

-- the database of a write, created if it is not there
unfoldable pub ensure_database : ℤ → Server → Server
ensure_database db s = elim (lookup db s.store) [ none ↦ create_database db s | some keys ↦ s ]

abbrev pub max_memory_message : String
max_memory_message = "max memory reached, key value not set"

-- `setValues`; the updates of the caches are left to tasks, one for each key
unfoldable pub set_values : ℤ → Assoc String Value → Server → Server × Option String
set_values db entries s =
    if is_max_memory_exceeded s.mem_used s.config.max_memory && refuses s.config
    then (s, some max_memory_message)
    else (let (s', e) = set_each db entries (ensure_database db s) in
        elim e [
          | none ↦ (
            record s' {
              tasks = s'.tasks ++ map (λ e. record { database = db; keys = e.0 ∷ [] }) entries;
            },
            none,
          )
          | some m ↦ (s', some m)
        ])

-- `setExpiry`; a write to the nil map of a missing database panics
unfoldable pub set_expiry : ℤ → String → Option ℕ → Bool → Server → Result Server
set_expiry db key expire_at touch s = elim (lookup db s.store) [
  | none ↦ panic
  | some keys ↦
      let d : KeyData = record {
        value = (data_or_zero (lookup key keys)).value;
        expire_at = expire_at;
      } in
      let tracked = volatile_of s db in
      ok (record (put_entry db key d s) {
        volatile =
            if contains tracked key then s.volatile else insert db (tracked ++ key ∷ []) s.volatile;
        tasks =
            if touch then s.tasks ++ record { database = db; keys = key ∷ [] } ∷ [] else s.tasks;
      })
]

-- `clear(m[k])`; on a nil element it does nothing (for the slices of the tracker, `clear` sets the
-- keys to the empty text and keeps the length)
unfoldable pub clear_at {ℓ} : {V : Type ℓ} → ℤ → (V → V) → Assoc ℤ V → Assoc ℤ V
clear_at db empty m = elim (lookup db m) [ none ↦ m | some v ↦ insert db (empty v) m ]

-- the body of `Flush` for one database
unfoldable pub flush_database : ℤ → Server → Result Server
flush_database db s = elim (lookup db s.lfu) [
  | none ↦ panic
  | some c ↦ elim (lookup db s.lru) [
    | none ↦ panic
    | some c' ↦ ok (record s {
      store = clear_at db (λ _. []) s.store;
      volatile = clear_at db (map (λ _. "")) s.volatile;
      lfu = insert db (Lfu.flush c) s.lfu;
      lru = insert db (Lru.flush c') s.lru;
    })
  ]
]

unfoldable pub flush_each : List ℤ → Server → Result Server
flush_each [] s = ok s
flush_each (db ∷ databases) s = elim (flush_database db s) [
  | ok s' ↦ flush_each databases s'
  | err e ↦ err e
  | panic ↦ panic
]

-- `Flush`; -1 stands for all databases
unfoldable pub flush : ℤ → Server → Result Server
flush db s = if db == negsuc 0 then flush_each (map (λ e. e.0) s.store) s else flush_database db s
