-- ===== src/Keyspace/Sampling.antt =====
-- sugardb/keyspace.go: evictKeysWithExpiredTTL, randomKey, getObjectFreq and getObjectIdleTime.
use echo_vault.Base.{
  ℕ, zero, suc, ◌+◌, ◌*◌, ◌/◌, ◌%◌, String, Bool, true, false, ◌||◌, Option, none, some, List, [],
  ◌∷◌, ◌++◌, if◌then◌else◌, ◌==◌, nat_eq, string_eq, int_eq, ltb, leb, length, get_elem?, contains,
  ℤ, lookup, str_append,
}
use echo_vault.Sets.{Draws}
use echo_vault.Eviction.Lfu
use echo_vault.Eviction.Lru
use echo_vault.Keyspace.State.{
  Result, ok, err, panic, Mode, standalone, follower, Server, keys_of, volatile_of,
}
use echo_vault.Keyspace.Evict.{Outcome, evict_key, draw_volatile}

-- The loop that samples `n` more keys, on fuel: a key that is in the slice is drawn again, and so is the
-- empty text, which fills the rest of the slice.
unfoldable pub sample_keys :
    Draws → ℕ → ℕ → ℕ → ℤ → Server → List String → Option (Result (List String × ℕ))
sample_keys draws fuel i zero db s got = some (ok (got, i))
sample_keys draws zero i (suc n) db s got = none
sample_keys draws (suc fuel) i (suc n) db s got = elim (draw_volatile (draws i) db s) [
  | none ↦ some panic
  | some key ↦ elim (contains got key || key == "") [
    | true ↦ sample_keys draws fuel (i + 1) (suc n) db s got
    | false ↦ sample_keys draws fuel (i + 1) n db s (got ++ key ∷ [])
  ]
]

abbrev pub delete_message : Mode → String
delete_message standalone = "evictKeysWithExpiredTTL -> standalone delete: "
delete_message _ = "evictKeysWithExpiredTTL -> cluster delete: "

-- The loop that deletes the sampled keys; it does not look at their expiry times.
unfoldable pub evict_each : ℤ → List String → Server → Result Outcome
unfolding evict_key
evict_each db [] s = ok (s, none)
evict_each db (key ∷ keys) s = elim (evict_key db key s) [
  | ok s' ↦ evict_each db keys s'
  | err e ↦ ok (s, some (str_append (delete_message s.config.mode) e))
  | panic ↦ panic
]

-- the size of the sample: where there are few keys, it is the number of databases
abbrev pub sample_size : ℤ → Server → ℕ
sample_size db s =
    if ltb (length (volatile_of s db)) s.config.eviction_sample
    then length s.volatile
    else s.config.eviction_sample

abbrev pub is_follower : Mode → Bool
is_follower follower = true
is_follower _ = false

-- `evictKeysWithExpiredTTL`, on fuel for the samples and the calls; every sampled key counts as deleted
unfoldable pub evict_expired : Draws → ℕ → ℕ → ℤ → Server → Option (Result Outcome)
unfolding sample_keys evict_each
evict_expired draws zero i db s = none
evict_expired draws (suc fuel) i db s = elim (is_follower s.config.mode) [
  | true ↦ some (ok (s, none))
  | false ↦ elim (sample_keys draws fuel i (sample_size db s) db s []) [
    | none ↦ none
    | some (err e) ↦ some (err e)
    | some panic ↦ some panic
    | some (ok (keys, i')) ↦ elim (evict_each db keys s) [
      | err e ↦ some (err e)
      | panic ↦ some panic
      | ok (s', some e) ↦ some (ok (s', some e))
      | ok (s', none) ↦ elim (sample_size db s == 0) [
        | true ↦ some (ok (s', none))
        | false ↦ elim (leb 20 (length keys / sample_size db s * 100)) [
          | true ↦ evict_expired draws fuel i' db s'
          | false ↦ some (ok (s', none))
        ]
      ]
    ]
  ]
]

-- `randomKey`; `draw` is what `rand.Intn` draws from
unfoldable pub random_key : ℕ → ℤ → Server → String
random_key draw db s =
    if length (keys_of s db) == 0
    then ""
    else elim (get_elem? (keys_of s db) (draw % length (keys_of s db))) [
      | none ↦ ""
      | some (key, d) ↦ key
    ]

abbrev pub answer : String → Option (Option ℕ) → Result ℕ
answer message none = panic
answer message (some none) = err message
answer message (some (some n)) = ok n

-- `getObjectFreq`; the map of caches is never nil
unfoldable pub object_freq : ℤ → String → Server → Result ℕ
object_freq db key s = elim (lookup db s.lfu) [
  | none ↦ panic
  | some c ↦ answer (str_append "Key: " (str_append key " does not exist.")) (Lfu.get_count key c)
]

-- the access time behind `getObjectIdleTime`
unfoldable pub access_time : ℤ → String → Server → Result ℕ
access_time db key s = elim (lookup db s.lru) [
  | none ↦ panic
  | some c ↦
      answer (str_append "Error: key " (str_append key " does not exist.")) (Lru.get_time key c)
]
