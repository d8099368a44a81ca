-- ===== src/Keyspace/Ending.antt =====
-- sugardb/keyspace.go: the loops of adjustMemoryUsage over a heap end.
use echo_vault.Base.{
  none, some, ℕ, zero, suc, ◌≤◌, ◌<◌, ◌≡◌, refl, String, true, false, ◌||◌, some, arith, inl, inr,
  Bool-cases, ◌==◌, nat_eq, Bool, ℤ, str_append,
}
use echo_vault.Sets.{Draws}
use echo_vault.Keyspace.State.{
  Result, ok, panic, Policy, allkeys_lfu, allkeys_lru, volatile_lfu, volatile_lru, no_eviction,
  allkeys_random, volatile_random, other_policy, Server,
}
use echo_vault.Keyspace.Evict.{
  Outcome, evict_key, next_lfu, next_lru, evict_from, adjust_memory, below_limit,
}
use echo_vault.Keyspace.Expired.{Result-cases}
use echo_vault.Keyspace.HeapSizes.{
  size_lfu, size_lru, size_lfu-evict_key, size_lru-evict_key, size_lfu-next_lfu, size_lru-next_lru,
}

-- A loop whose heap gets smaller in every round ends.
evict_from_ends :
    (size : Server → ℕ) (name : String) (next : Server → Result (String × Server)) (fuel : ℕ)
    (db : ℤ) (s : Server)
    → ((key : String) (s s1 : Server) → next s ≡ ok (key, s1) → size s1 < size s)
    → ((key : String) (s s' : Server) → evict_key db key s ≡ ok s' → size s' ≤ size s)
    → size s < fuel
    → (r : Result Outcome) × (evict_from name next fuel db s ≡ some r)
unfolding evict_from
evict_from_ends size name next zero db s shrinks keeps enough = absurd (omega arith)
evict_from_ends size name next (suc fuel) db s shrinks keeps enough = elim (Result-cases (next s)) [
  | inr (inl (m, failed)) ↦ (ok (s, some m), ground (arith, failed))
  | inr (inr panics) ↦ (panic, ground (arith, panics))
  | inl ((key, s1), taken) ↦ elim (Result-cases (evict_key db key s1)) [
    | inr (inl (m, failed)) ↦ (ok (s1, some (str_append name m)), ground (arith, taken, failed))
    | inr (inr panics) ↦ (panic, ground (arith, taken, panics))
    | inl (s2, gone) ↦ elim (Bool-cases (below_limit s2)) [
      | inl low ↦ (ok (s2, none), ground (arith, taken, gone, low))
      | inr high ↦
          let less = shrinks key s s1 taken in
          let kept = keeps key s1 s2 gone in
          let (r, ends) = evict_from_ends size name next fuel db s2 shrinks keeps (omega arith) in
          (r, ground (arith, taken, gone, high, ends))
    ]
  ]
]

abbrev pub uses_heap : Policy → Bool
uses_heap allkeys_lfu = true
uses_heap volatile_lfu = true
uses_heap allkeys_lru = true
uses_heap volatile_lru = true
uses_heap _ = false

-- `adjustMemoryUsage` under an LFU or LRU policy, on a standalone node or a follower of a cluster: it ends, with as much fuel as one more than the
-- entries of each of the two heaps of the database.
pub adjust_memory_ends :
    (draws : Draws) (fuel : ℕ) (db : ℤ) (s : Server)
    → uses_heap s.config.policy ≡ true
    → size_lfu db s < fuel
    → size_lru db s < fuel
    → (r : Result Outcome) × (adjust_memory draws fuel db s ≡ some r)
unfolding adjust_memory
adjust_memory_ends draws fuel db s heap lfu lru =
    elim (Bool-cases (s.config.max_memory == 0 || below_limit s)) [
      | inl low ↦ (ok (s, none), ground (arith, low))
      | inr high ↦ go s.config.policy refl heap high
    ]
  where
    by_lfu :
        (r : Result Outcome) × (evict_from "adjustMemoryUsage -> LFU cache eviction: "
            (next_lfu db)
            fuel
            db
            s
          ≡ some r)
    by_lfu =
        evict_from_ends (size_lfu db) _ (next_lfu db) fuel db s
          (λ key s s1 e. size_lfu-next_lfu db key s s1 e)
          (λ key s s' e. size_lfu-evict_key db key s s' e) lfu

    by_lru :
        (r : Result Outcome) × (evict_from "adjustMemoryUsage -> LRU cache eviction: "
            (next_lru db)
            fuel
            db
            s
          ≡ some r)
    by_lru =
        evict_from_ends (size_lru db) _ (next_lru db) fuel db s
          (λ key s s1 e. size_lru-next_lru db key s s1 e)
          (λ key s s' e. size_lru-evict_key db key s s' e) lru

    go :
        (p : Policy)
        → s.config.policy ≡ p
        → uses_heap p ≡ true
        → (s.config.max_memory == 0 || below_limit s) ≡ false
        → (r : Result Outcome) × (adjust_memory draws fuel db s ≡ some r)
    go allkeys_lfu used heap high = (by_lfu.0, ground (arith, used, high, by_lfu.1))
    go volatile_lfu used heap high = (by_lfu.0, ground (arith, used, high, by_lfu.1))
    go allkeys_lru used heap high = (by_lru.0, ground (arith, used, high, by_lru.1))
    go volatile_lru used heap high = (by_lru.0, ground (arith, used, high, by_lru.1))
    go no_eviction used heap high = absurd (ground arith)
    go allkeys_random used heap high = absurd (ground arith)
    go volatile_random used heap high = absurd (ground arith)
    go other_policy used heap high = absurd (ground arith)
