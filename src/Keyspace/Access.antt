-- ===== src/Keyspace/Access.antt =====
-- sugardb/keyspace.go: keysExist, getExpiry, getValues, deleteKey and createDatabase.
use Prim.Native.String.{len}
use echo_vault.Base.{
  ℕ, String, Bool, true, false, Option, none, some, List, [], ◌∷◌, ◌++◌, if◌then◌else◌, ◌==◌,
  nat_eq, string_eq, int_eq, ℤ, Assoc, lookup, insert, without, delete_func,
}
use echo_vault.Eviction.Lfu
use echo_vault.Eviction.Lfu.{CacheLfu, new_cache_lfu}
use echo_vault.Eviction.Lru
use echo_vault.Eviction.Lru.{CacheLru, new_cache_lru}
use echo_vault.Keyspace.State.{
  Result, ok, err, panic, Value, nil_value, KeyData, no_data, get_mem, Policy, allkeys_lfu,
  allkeys_lru, volatile_lfu, volatile_lru, standalone, follower, forward_delete, Server, header,
  sub64, entry, keys_of, volatile_of, expired,
}

-- `keysExist`
unfoldable pub keys_exist : Server → ℤ → List String → Assoc String Bool
keys_exist s db [] = []
keys_exist s db (key ∷ keys) =
    insert key (elim (entry s db key) [ none ↦ false | some d ↦ true ]) (keys_exist s db keys)

-- `getExpiry`
unfoldable pub get_expiry : Server → ℤ → String → Option ℕ
get_expiry s db key = elim (entry s db key) [ none ↦ none | some d ↦ d.expire_at ]

-- `createDatabase`
unfoldable pub create_database : ℤ → Server → Server
create_database db s = record s {
  store = insert db [] s.store;
  volatile = insert db [] s.volatile;
  lfu = insert db new_cache_lfu s.lfu;
  lru = insert db new_cache_lru s.lru;
}

-- the write of one entry to a database
unfoldable pub put_entry : ℤ → String → KeyData → Server → Server
put_entry db key d s = record s { store = insert db (insert key d (keys_of s db)) s.store }

-- `delete(server.store[database], key)`; on a nil map it does nothing
unfoldable pub drop_entry : ℤ → String → Server → Server
drop_entry db key s = elim (lookup db s.store) [
  | none ↦ s
  | some keys ↦ record s { store = insert db (without key keys) s.store }
]

-- The caches that a policy uses.
pub data Cache : Type 0 where
  counts times no_cache : Cache

abbrev pub cache_of : Policy → Cache
cache_of allkeys_lfu = counts
cache_of volatile_lfu = counts
cache_of allkeys_lru = times
cache_of volatile_lru = times
cache_of _ = no_cache

-- `server.lfuCache.cache[database].Delete(key)`; a nil cache panics, and so does a nil entry in it
unfoldable pub delete_lfu : ℤ → String → Server → Result Server
delete_lfu db key s = elim (lookup db s.lfu) [
  | none ↦ panic
  | some c ↦ elim (Lfu.delete key c) [
    | none ↦ panic
    | some c' ↦ ok (record s { lfu = insert db c' s.lfu })
  ]
]

-- `server.lruCache.cache[database].Delete(key)`
unfoldable pub delete_lru : ℤ → String → Server → Result Server
delete_lru db key s = elim (lookup db s.lru) [
  | none ↦ panic
  | some c ↦ elim (Lru.delete key c) [
    | none ↦ panic
    | some c' ↦ ok (record s { lru = insert db c' s.lru })
  ]
]

-- The switch at the end of `deleteKey`, which compares the policy as it is written.
unfoldable pub uncache : ℤ → String → Server → Result Server
uncache db key s =
    if s.config.lower_case
    then elim (cache_of s.config.policy) [
      | counts ↦ delete_lfu db key s
      | times ↦ delete_lru db key s
      | no_cache ↦ ok s
    ]
    else ok s

-- `deleteKey` up to its switch: the counter goes down, by the size of a zero `KeyData` where there is
-- no key, and the key leaves the store and the tracker.
unfoldable pub remove_key : ℤ → String → ℕ → Server → Server
remove_key db key mem s = record (drop_entry db key s) {
  mem_used = sub64 (sub64 (sub64 s.mem_used mem) header) (len key);
  volatile = insert db (delete_func (λ k. k == key) (volatile_of s db)) s.volatile;
}

-- the zero `KeyData` of a missing key
abbrev pub data_or_zero : Option KeyData → KeyData
data_or_zero none = no_data
data_or_zero (some d) = d

-- `deleteKey`
unfoldable pub delete_key : ℤ → String → Server → Result Server
delete_key db key s = elim (get_mem s.memory (data_or_zero (entry s db key))) [
  | ok mem ↦ uncache db key (remove_key db key mem s)
  | err e ↦ err e
  | panic ↦ panic
]

-- What `getValues` does with an expired key: standalone it deletes it, and a
-- follower asks the leader to. An error is only logged. The branch of a raft leader is not modelled.
unfoldable pub expire_key : ℤ → String → Server → Result Server
expire_key db key s = elim s.config.mode [
  | standalone ↦ elim (delete_key db key s) [ ok s' ↦ ok s' | err e ↦ ok s | panic ↦ panic ]
  | follower ↦ ok (record s { sent = s.sent ++ forward_delete db key ∷ [] })
]

-- the loop of `getValues`
unfoldable pub read_keys :
    ℤ → List String → Assoc String Value → Server → Result (Server × Assoc String Value)
read_keys db [] values s = ok (s, values)
read_keys db (key ∷ keys) values s = elim (entry s db key) [
  | none ↦ read_keys db keys (insert key nil_value values) s
  | some d ↦ elim (expired s.now d) [
    | false ↦ read_keys db keys (insert key d.value values) s
    | true ↦ elim (expire_key db key s) [
      | ok s' ↦ read_keys db keys (insert key nil_value values) s'
      | err e ↦ err e
      | panic ↦ panic
    ]
  ]
]

-- `getValues`; the update of the caches is left to a task
unfoldable pub get_values : ℤ → List String → Server → Result (Server × Assoc String Value)
get_values db keys s = elim (read_keys db keys [] s) [
  | ok (s', values) ↦
      ok (record s' { tasks = s'.tasks ++ record { database = db; keys = keys } ∷ [] }, values)
  | err e ↦ err e
  | panic ↦ panic
]
