-- ===== src/Keyspace/Evict.antt =====
-- sugardb/keyspace.go: updateKeysInCache and adjustMemoryUsage. Loops run on fuel; `none` is fuel that ran out. What `rand.Intn` draws is an input.
use echo_vault.Base.{
  ℕ, zero, suc, ◌+◌, ◌/◌, ◌%◌, String, Bool, true, false, ◌||◌, Option, none, some, List, [], ◌∷◌,
  map, if◌then◌else◌, ◌==◌, nat_eq, string_eq, int_eq, ltb, length, get_elem?, ℤ, lookup, insert,
  str_append, print_int,
}
use echo_vault.Sets.{Draws}
use echo_vault.Eviction.Lfu
use echo_vault.Eviction.Lfu.{CacheLfu}
use echo_vault.Eviction.Lru
use echo_vault.Eviction.Lru.{CacheLru}
use echo_vault.Keyspace.State.{
  Result, ok, err, panic, KeyData, allkeys_lfu, allkeys_lru, volatile_lfu, volatile_lru,
  allkeys_random, volatile_random, standalone, follower, Mode, Server, entry, keys_of, volatile_of,
}
use echo_vault.Keyspace.Access.{delete_key}

-- `time.Now().UnixMilli()`, counted from the origin of the clock
abbrev pub now_millis : Server → ℕ
now_millis s = s.now / 1000000

abbrev pub bind_lfu : ℤ → Option CacheLfu → Server → Result Server
bind_lfu db none s = panic
bind_lfu db (some c) s = ok (record s { lfu = insert db c s.lfu })

abbrev pub bind_lru : ℤ → Option CacheLru → Server → Result Server
bind_lru db none s = panic
bind_lru db (some c) s = ok (record s { lru = insert db c s.lru })

-- `server.lfuCache.cache[database].Update(key)`; a nil cache panics
unfoldable pub update_lfu : ℤ → String → Server → Result Server
update_lfu db key s = elim (lookup db s.lfu) [
  | none ↦ panic
  | some c ↦ bind_lfu db (Lfu.update (now_millis s) key c) s
]

unfoldable pub update_lru : ℤ → String → Server → Result Server
update_lru db key s = elim (lookup db s.lru) [
  | none ↦ panic
  | some c ↦ bind_lru db (Lru.update (now_millis s) key c) s
]

abbrev is_volatile : KeyData → Bool
is_volatile d = elim d.expire_at [ none ↦ false | some t ↦ true ]

-- the lock of a cache of a policy for keys with an expiry time, which a nil cache refuses
abbrev locked_lfu : ℤ → Server → Result Server
locked_lfu db s = elim (lookup db s.lfu) [ none ↦ panic | some c ↦ ok s ]

abbrev locked_lru : ℤ → Server → Result Server
locked_lru db s = elim (lookup db s.lru) [ none ↦ panic | some c ↦ ok s ]

-- the switch of `updateKeysInCache` for a key that is there
unfoldable pub update_key : ℤ → String → KeyData → Server → Result Server
unfolding update_lfu update_lru
update_key db key d s = elim s.config.policy [
  | allkeys_lfu ↦ update_lfu db key s
  | allkeys_lru ↦ update_lru db key s
  | volatile_lfu ↦ if is_volatile d then update_lfu db key s else locked_lfu db s
  | volatile_lru ↦ if is_volatile d then update_lru db key s else locked_lru db s
  | _ ↦ ok s
]

-- the loop of `updateKeysInCache`, with the number of the keys that are there
unfoldable pub update_keys : ℤ → List String → ℕ → Server → Result (Server × ℕ)
unfolding update_key
update_keys db [] n s = ok (s, n)
update_keys db (key ∷ keys) n s = elim (entry s db key) [
  | none ↦ update_keys db keys n s
  | some d ↦ elim (update_key db key d s) [
    | ok s' ↦ update_keys db keys (n + 1) s'
    | err e ↦ err e
    | panic ↦ panic
  ]
]

-- the deletion of an evicted key: on a standalone node, and not at all on a follower; the branch of a raft
-- leader is not modelled
unfoldable pub evict_key : ℤ → String → Server → Result Server
evict_key db key s = elim s.config.mode [ standalone ↦ delete_key db key s | follower ↦ ok s ]

-- `uint64(server.memUsed) < server.config.MaxMemory`
abbrev pub below_limit : Server → Bool
below_limit s = ltb s.mem_used s.config.max_memory

abbrev pub taken_lfu : ℤ → Option (String × CacheLfu) → Server → Result (String × Server)
taken_lfu db none s = panic
taken_lfu db (some (key, c)) s = ok (key, record s { lfu = insert db c s.lfu })

abbrev pub taken_lru : ℤ → Option (String × CacheLru) → Server → Result (String × Server)
taken_lru db none s = panic
taken_lru db (some (key, c)) s = ok (key, record s { lru = insert db c s.lru })

-- one round of the loop over a heap: the next key, or the error of an empty cache
unfoldable pub next_lfu : ℤ → Server → Result (String × Server)
next_lfu db s = elim (lookup db s.lfu) [
  | none ↦ panic
  | some c ↦ elim (length c.entries == 0) [
    | true ↦ err "adjustMemoryUsage -> LFU cache empty"
    | false ↦ taken_lfu db (Lfu.pop_root c) s
  ]
]

unfoldable pub next_lru : ℤ → Server → Result (String × Server)
next_lru db s = elim (lookup db s.lru) [
  | none ↦ panic
  | some c ↦ elim (length c.entries == 0) [
    | true ↦ err "adjustMemoryUsage -> LRU cache empty"
    | false ↦ taken_lru db (Lru.pop_root c) s
  ]
]

-- how a loop ends: the server that it leaves, and its error
abbrev pub Outcome : Type 0
Outcome = Server × Option String

-- the loops over a heap
unfoldable pub evict_from :
    String → (Server → Result (String × Server)) → ℕ → ℤ → Server → Option (Result Outcome)
unfolding evict_key
evict_from name next zero db s = none
evict_from name next (suc fuel) db s = elim (next s) [
  | err e ↦ some (ok (s, some e))
  | panic ↦ some panic
  | ok (key, s1) ↦ elim (evict_key db key s1) [
    | err e ↦ some (ok (s1, some (str_append name e)))
    | panic ↦ some panic
    | ok s2 ↦ elim (below_limit s2) [
      | true ↦ some (ok (s2, none))
      | false ↦ evict_from name next fuel db s2
    ]
  ]
]

-- The loop over all keys: the draw is below the number of databases, and a draw past the keys of the
-- database does nothing.
unfoldable pub evict_any : Draws → ℕ → ℕ → ℤ → Server → Option (Result Outcome)
unfolding evict_key
evict_any draws zero i db s = none
evict_any draws (suc fuel) i db s = elim (length s.store == 0) [
  | true ↦ some (ok (s, some "adjustMemoryUsage -> all keys random: no keys to evict"))
  | false ↦ elim (get_elem? (keys_of s db) (draws i % length s.store)) [
    | none ↦ evict_any draws fuel (i + 1) db s
    | some (key, d) ↦ elim (evict_key db key s) [
      | err e ↦ some (ok (s, some (str_append "adjustMemoryUsage -> all keys random: " e)))
      | panic ↦ some panic
      | ok s2 ↦ elim (below_limit s2) [
        | true ↦ some (ok (s2, none))
        | false ↦ evict_any draws fuel (i + 1) db s2
      ]
    ]
  ]
]

-- `server.keysWithExpiry.keys[database][rand.Intn(len(server.keysWithExpiry.keys))]`, which panics
-- without databases, and past the end
abbrev pub draw_volatile : ℕ → ℤ → Server → Option String
draw_volatile draw db s =
    if length s.volatile == 0 then none else get_elem? (volatile_of s db) (draw % length s.volatile)

abbrev volatile_message : Mode → String
volatile_message standalone = "adjustMemoryUsage -> volatile keys random: "
volatile_message _ = "adjustMemoryUsage -> volatile keys randome: "

-- the loop over the keys with an expiry time
unfoldable pub evict_volatile : Draws → ℕ → ℕ → ℤ → Server → Option (Result Outcome)
unfolding evict_key
evict_volatile draws zero i db s = none
evict_volatile draws (suc fuel) i db s = elim (draw_volatile (draws i) db s) [
  | none ↦ some panic
  | some key ↦ elim (evict_key db key s) [
    | err e ↦ some (ok (s, some (str_append (volatile_message s.config.mode) e)))
    | panic ↦ some panic
    | ok s2 ↦ elim (below_limit s2) [
      | true ↦ some (ok (s2, none))
      | false ↦ evict_volatile draws fuel (i + 1) db s2
    ]
  ]
]

-- `adjustMemoryUsage`
unfoldable pub adjust_memory : Draws → ℕ → ℤ → Server → Option (Result Outcome)
unfolding next_lfu next_lru evict_from evict_any evict_volatile
adjust_memory draws fuel db s =
    if s.config.max_memory == 0 || below_limit s
    then some (ok (s, none))
    else elim s.config.policy [
      | allkeys_lfu ↦ evict_from "adjustMemoryUsage -> LFU cache eviction: " (next_lfu db) fuel db s
      | volatile_lfu ↦
          evict_from "adjustMemoryUsage -> LFU cache eviction: " (next_lfu db) fuel db s
      | allkeys_lru ↦ evict_from "adjustMemoryUsage -> LRU cache eviction: " (next_lru db) fuel db s
      | volatile_lru ↦
          evict_from "adjustMemoryUsage -> LRU cache eviction: " (next_lru db) fuel db s
      | allkeys_random ↦ evict_any draws fuel 0 db s
      | volatile_random ↦ evict_volatile draws fuel 0 db s
      | _ ↦ some (ok (s, none))
    ]

-- the error that is reported first
abbrev pub first_error : Option String → ℤ → Option String → Option String
first_error (some first) db e = some first
first_error none db none = none
first_error none db (some m) = some (
    str_append "adjustMemoryUsage database " (str_append (print_int db) (str_append ", error: " m)))

-- `adjustMemoryUsage` for every database; the goroutines are run in the order of the databases, and the
-- error of the first that fails is kept
unfoldable pub adjust_each : Draws → ℕ → List ℤ → Option String → Server → Option (Result Outcome)
unfolding adjust_memory
adjust_each draws fuel [] e s = some (ok (s, e))
adjust_each draws fuel (db ∷ databases) e s = elim (adjust_memory draws fuel db s) [
  | none ↦ none
  | some (ok (s', e')) ↦ adjust_each draws fuel databases (first_error e db e') s'
  | some (err m) ↦ some (err m)
  | some panic ↦ some panic
]

abbrev pub wrapped : Option String → Option String
wrapped none = none
wrapped (some e) = some (str_append "adjustMemoryUsage error: " e)

-- `updateKeysInCache`: the server, the count, and the error
unfoldable pub update_keys_in_cache :
    Draws → ℕ → ℤ → List String → Server → Option (Result (Server × ℕ × Option String))
unfolding update_keys adjust_each
update_keys_in_cache draws fuel db keys s = elim s.config.mode [
  | standalone ↦
      if s.config.max_memory == 0 then some (ok (s, 0, none)) else elim (update_keys db keys 0 s) [
        | err e ↦ some (err e)
        | panic ↦ some panic
        | ok (s1, n) ↦ elim (adjust_each draws fuel (map (λ e. e.0) s1.store) none s1) [
          | none ↦ none
          | some (err e) ↦ some (err e)
          | some panic ↦ some panic
          | some (ok (s2, e)) ↦ some (ok (s2, n, wrapped e))
        ]
      ]
  | follower ↦ some (ok (s, 0, none))
]
