-- ===== src/Keyspace/Expired.antt =====
-- sugardb/keyspace.go: the calls of evictKeysWithExpiredTTL do not come to an end.
use echo_vault.Base.{
  ℕ, zero, suc, ◌+◌, ◌*◌, ◌/◌, ◌<◌, ◌≡◌, ◌⊎◌, refl, ap, sym, ◌∙◌, String, true, false, ◌||◌, Option,
  none, some, List, [], ◌∷◌, ◌++◌, arith, inl, inr, Option-cases, Bool-cases, length, length-append,
  contains, insert, ℤ, leb, ◌==◌, nat_eq, string_eq, int_eq, Assoc,
}
use native.Mathlib.Nat.{div_self}
use echo_vault.Sets.{Draws}
use echo_vault.Keyspace.Laws.{get_mem-cases, config-remove_key}
use echo_vault.Keyspace.State.{entry, Result, ok, err, panic, Server, Mode, standalone, follower}
use echo_vault.Keyspace.Access.{
  data_or_zero, delete_key, remove_key, uncache, delete_lfu, delete_lru,
}
use echo_vault.Keyspace.Evict.{evict_key, draw_volatile}
use echo_vault.Keyspace.Sampling.{sample_keys, evict_each, evict_expired, sample_size, is_follower}

pub Result-cases :
    {A : Type 0} (r : Result A)
    → ((a : A) × (r ≡ ok a)) ⊎ (((e : String) × (r ≡ err e)) ⊎ (r ≡ panic))
Result-cases (ok a) = inl (a, refl)
Result-cases (err e) = inr (inl (e, refl))
Result-cases panic = inr (inr refl)

-- a sample that was drawn, or none
sampled :
    (o : Option (Result (List String × ℕ)))
    → ((keys : List String) × (i : ℕ) × (o ≡ some (ok (keys, i))))
      ⊎ ((o ≡ none) ⊎ (((e : String) × (o ≡ some (err e))) ⊎ (o ≡ some panic)))
sampled none = inr (inl refl)
sampled (some (ok (keys, i))) = inl (keys, i, refl)
sampled (some (err e)) = inr (inr (inl (e, refl)))
sampled (some panic) = inr (inr (inr refl))

length-sample_keys :
    (draws : Draws) (fuel i n : ℕ) (db : ℤ) (s : Server) (got keys : List String) (i' : ℕ)
    → sample_keys draws fuel i n db s got ≡ some (ok (keys, i'))
    → length keys ≡ length got + n
unfolding sample_keys
length-sample_keys draws fuel i zero db s got keys i' e = ground arith
length-sample_keys draws zero i (suc n) db s got keys i' e = absurd (ground arith)
length-sample_keys draws (suc fuel) i (suc n) db s got keys i' e =
    elim (Option-cases (draw_volatile (draws i) db s)) [
      | inl gone ↦ absurd (ground (arith, gone))
      | inr (key, drawn) ↦ elim (Bool-cases (contains got key || key == "")) [
        | inl again ↦
            length-sample_keys draws fuel (i + 1) (suc n) db s got keys i'
              (ground (arith, drawn, again))
        | inr new ↦
            let more =
              length-sample_keys draws fuel (i + 1) n db s (got ++ key ∷ []) keys i'
                (ground (arith, drawn, new)) in
            omega (arith, more, length-append got (key ∷ []))
      ]
    ]

length-insert_some : {V : Type 0} (k : ℤ) (v : V) (m : Assoc ℤ V) → 0 < length (insert k v m)
unfolding insert
length-insert_some k v [] = omega arith
length-insert_some k v ((j, w) ∷ m) = elim (Bool-cases (j == k)) [
  | inl same ↦ rw same (omega arith)
  | inr other ↦ rw other (omega arith)
]

delete_lfu_keeps :
    (db : ℤ) (key : String) (s s' : Server)
    → delete_lfu db key s ≡ ok s'
    → (s'.config ≡ s.config) × (s'.volatile ≡ s.volatile)
unfolding delete_lfu
delete_lfu_keeps db key s s' e = (ground arith, ground arith)

delete_lru_keeps :
    (db : ℤ) (key : String) (s s' : Server)
    → delete_lru db key s ≡ ok s'
    → (s'.config ≡ s.config) × (s'.volatile ≡ s.volatile)
unfolding delete_lru
delete_lru_keeps db key s s' e = (ground arith, ground arith)

uncache_keeps :
    (db : ℤ) (key : String) (s s' : Server)
    → uncache db key s ≡ ok s'
    → (s'.config ≡ s.config) × (s'.volatile ≡ s.volatile)
unfolding uncache
uncache_keeps db key s s' e = (
  ground (arith, delete_lfu_keeps db key s s', delete_lru_keeps db key s s'),
  ground (arith, delete_lfu_keeps db key s s', delete_lru_keeps db key s s'),
)

remove_key_keeps :
    (db : ℤ) (key : String) (mem : ℕ) (s : Server) → 0 < length (remove_key db key mem s).volatile
unfolding remove_key
remove_key_keeps db key mem s = length-insert_some db _ s.volatile

delete_key_keeps :
    (db : ℤ) (key : String) (s s' : Server)
    → delete_key db key s ≡ ok s'
    → (s'.config ≡ s.config) × 0 < length s'.volatile
unfolding delete_key
delete_key_keeps db key s s' e = elim (get_mem-cases s.memory (data_or_zero (entry s db key))) [
  | inl (mem, fits) ↦
      let s1 = remove_key db key mem s in
      let after : uncache db key s1 ≡ ok s' = ground (arith, fits) in
      let (config, volatile) = uncache_keeps db key s1 s' after in
      (config ∙ config-remove_key db key mem s, rw volatile (remove_key_keeps db key mem s))
  | inr (m, fails) ↦ absurd (ground (arith, fails))
]

evict_key_keeps :
    (db : ℤ) (key : String) (s s' : Server)
    → evict_key db key s ≡ ok s'
    → 0 < length s.volatile
    → (s'.config ≡ s.config) × 0 < length s'.volatile
unfolding evict_key
evict_key_keeps db key s s' e some_db = go s.config.mode refl
  where
    kept : s'.volatile ≡ s.volatile → 0 < length s'.volatile
    kept same = rw same some_db

    go : (m : Mode) → s.config.mode ≡ m → (s'.config ≡ s.config) × 0 < length s'.volatile
    go standalone alone = delete_key_keeps db key s s' (ground (arith, alone))
    go follower alone = (ground (arith, alone), kept (ground (arith, alone)))

evict_each_keeps :
    (db : ℤ) (keys : List String) (s s' : Server)
    → evict_each db keys s ≡ ok (s', none)
    → 0 < length s.volatile
    → (s'.config ≡ s.config) × 0 < length s'.volatile
unfolding evict_each
evict_each_keeps db [] s s' e some_db =
    let same : s ≡ s' = ground arith in (ap (λ r. r.config) (sym same), rw same at some_db)
evict_each_keeps db (key ∷ keys) s s' e some_db = elim (Result-cases (evict_key db key s)) [
  | inl (s1, done) ↦
      let (config, still) = evict_key_keeps db key s s1 done some_db in
      let (config', still') = evict_each_keeps db keys s1 s' (ground (arith, done)) still in
      (config' ∙ config, still')
  | inr (inl (m, failed)) ↦ absurd (ground (arith, failed))
  | inr (inr panics) ↦ absurd (ground (arith, panics))
]

-- A call on what a call leaves is a call under the same settings.
sample_size_positive :
    (db : ℤ) (s : Server)
    → 0 < s.config.eviction_sample
    → 0 < length s.volatile
    → 0 < sample_size db s
sample_size_positive db s some_sample some_db = ground arith

-- The share that is deleted is always the whole sample.
all_deleted : (n size : ℕ) → 0 < size → n ≡ size → leb 20 (n / size * 100) ≡ true
all_deleted n size some_keys same =
    let whole : size / size ≡ 1 = div_self some_keys in rw (same, whole) (ground arith)

-- `evictKeysWithExpiredTTL` on a standalone node, where the size of a sample is set and there is a
-- database: whatever is drawn, however long it runs, and whatever has expired, no call ever ends without an error or a panic. Every
-- sampled key counts as deleted, so that every call calls itself again.
pub evict_expired_runs_on :
    (draws : Draws) (fuel i : ℕ) (db : ℤ) (s s' : Server)
    → is_follower s.config.mode ≡ false
    → 0 < s.config.eviction_sample
    → 0 < length s.volatile
    → ¬ (evict_expired draws fuel i db s ≡ some (ok (s', none)))
unfolding evict_expired
evict_expired_runs_on draws zero i db s s' acts some_sample some_db e = ground arith
evict_expired_runs_on draws (suc fuel) i db s s' acts some_sample some_db e =
    elim (sampled (sample_keys draws fuel i (sample_size db s) db s [])) [
      | inr (inl out) ↦ ground (arith, acts, out)
      | inr (inr (inl (m, failed))) ↦ ground (arith, acts, failed)
      | inr (inr (inr panics)) ↦ ground (arith, acts, panics)
      | inl (keys, i', drawn) ↦ elim (Result-cases (evict_each db keys s)) [
        | inl ((s1, some m), failed) ↦ ground (arith, acts, drawn, failed)
        | inl ((s1, none), done) ↦
            let (config, still) = evict_each_keeps db keys s s1 done some_db in
            let some_keys = sample_size_positive db s some_sample some_db in
            let again = all_deleted (length keys) (sample_size db s) some_keys (
              omega (
                arith,
                length-sample_keys draws fuel i (sample_size db s) db s [] keys i' drawn,
              )) in
            let positive : (sample_size db s == 0) ≡ false = ground arith in
            evict_expired_runs_on draws fuel i' db s1 s'
              (ap (λ c. is_follower c.mode) config ∙ acts) (ground (arith, config)) still
              (ground (arith, acts, drawn, done, positive, again))
        | inr (inl (m, failed)) ↦ ground (arith, acts, drawn, failed)
        | inr (inr panics) ↦ ground (arith, acts, drawn, panics)
      ]
    ]
