-- ===== src/Keyspace/Writes.antt =====
-- sugardb/keyspace.go, `setValues`: what is written, what is kept, and what it costs.
use Prim.Native.String.{len}
use echo_vault.Base.{
  ℕ, ◌+◌, ◌≡◌, refl, ap, ◌∙◌, String, Bool, true, false, not, ◌&&◌, Option, none, some, [], ◌∷◌,
  arith, inl, inr, Option-cases, if◌then◌else◌, ◌==◌, nat_eq, string_eq, int_eq, ℤ, int_beq_iff,
  eq_iff, Assoc, lookup, lookup-nil, nested, All, ◌∙◌, lookup-insert,
}
use echo_vault.Keyspace.State.{
  ok, Value, KeyData, get_mem, Server, header, add64, entry, is_max_memory_exceeded, refuses,
  scalar, hash, list, set_at, unsupported, scalar_mem, hash_mem, list_mem, set_mem,
}
use echo_vault.Sets.Pointers.{Memory}
use echo_vault.Keyspace.Access.{get_expiry, create_database, put_entry}
use echo_vault.Keyspace.Write.{set_value, set_each, ensure_database, set_values, max_memory_message}
use echo_vault.Keyspace.Laws.{entry-put_entry, get_mem-cases}

-- The databases of a server after `ensure_database`: nothing that was there changes.
pub entry-ensure_database :
    (db : ℤ) (s : Server) (db' : ℤ) (key : String)
    → entry (ensure_database db s) db' key ≡ entry s db' key
unfolding entry ensure_database create_database
entry-ensure_database db s db' key = elim (Option-cases (lookup db s.store)) [
  | inl gone ↦
      rw (gone, ensure_database)
        (ground (
          arith,
          lookup-insert db [] s.store db',
          int_beq_iff db db',
          lookup-nil {V = KeyData} key,
        ))
  | inr (keys, found) ↦ rw (found, ensure_database)
]

-- The bytes that a key with a value counts for.
abbrev pub entry_mem : ℕ → String → ℕ
entry_mem mem key = mem + header + len key

abbrev pub kept_data : ℤ → String → Value → Server → KeyData
kept_data db key v s = record { value = v; expire_at = get_expiry s db key }

store-set_value :
    (db : ℤ) (key : String) (v : Value) (s : Server)
    → (set_value db key v s).0.store ≡ (put_entry db key (kept_data db key v s) s).store
unfolding set_value
store-set_value db key v s = elim (get_mem-cases s.memory (kept_data db key v s)) [
  | inl (mem, fits) ↦ rw (fits, set_value)
  | inr (e, fails) ↦ rw (fails, set_value)
]

-- One round of `setValues` writes the value under the key with the expiry time that it had, and
-- nothing else.
pub entry-set_value :
    (db : ℤ) (key : String) (v : Value) (s : Server) (db' : ℤ) (key' : String)
    → entry (set_value db key v s).0 db' key'
      ≡ (if db == db' && key == key' then some (kept_data db key v s) else entry s db' key')
unfolding entry
entry-set_value db key v s db' key' =
    ap (λ st. nested db' key' st) (store-set_value db key v s)
    ∙ entry-put_entry db key (kept_data db key v s) s db' key'

-- It succeeds on a value with a size, which it adds to the counter.
pub set_value_fits :
    (db : ℤ) (key : String) (v : Value) (s : Server) (mem : ℕ)
    → get_mem s.memory (kept_data db key v s) ≡ ok mem
    → ((set_value db key v s).1 ≡ none)
      × ((set_value db key v s).0.mem_used ≡ add64 (add64 (add64 s.mem_used mem) header) (len key))
unfolding set_value
set_value_fits db key v s mem fits = (rw (fits, set_value), rw (fits, set_value))

pub set_value_keeps :
    (db : ℤ) (key : String) (v : Value) (s : Server)
    → ((set_value db key v s).0.memory ≡ s.memory)
      × ((set_value db key v s).0.config ≡ s.config)
      × ((set_value db key v s).0.now ≡ s.now)
unfolding set_value put_entry
set_value_keeps db key v s = elim (get_mem-cases s.memory (kept_data db key v s)) [
  | inl (mem, fits) ↦ rw (fits, set_value) (refl, refl, refl)
  | inr (e, fails) ↦ rw (fails, set_value) (refl, refl, refl)
]

-- the last value that a list of writes gives a key
abbrev pub written : String → Assoc String Value → Option Value
written key [] = none
written key ((j, v) ∷ entries) = elim (written key entries) [
  | none ↦ if j == key then some v else none
  | some w ↦ some w
]

-- the entry that is left by the writes: the new value, and the expiry time of before
abbrev pub entry_after : ℤ → Assoc String Value → Server → ℤ → String → Option KeyData
entry_after db entries s db' key =
    if db == db'
    then elim (written key entries) [
      | none ↦ entry s db' key
      | some v ↦ some (kept_data db key v s)
    ]
    else entry s db' key

pub expiry-set_value :
    (db : ℤ) (k : String) (v : Value) (s : Server) (db' : ℤ) (key : String)
    → get_expiry (set_value db k v s).0 db' key ≡ get_expiry s db' key
unfolding get_expiry
expiry-set_value db k v s db' key =
    ground (arith, entry-set_value db k v s db' key, int_beq_iff db db', eq_iff k key)

pub set_each-cons :
    (db : ℤ) (k : String) (v : Value) (entries : Assoc String Value) (s : Server)
    → (set_value db k v s).1 ≡ none
    → set_each db ((k, v) ∷ entries) s ≡ set_each db entries (set_value db k v s).0
unfolding set_each
set_each-cons db k v entries s done = rw (done, set_each)

pub set_each-fails :
    (db : ℤ) (k : String) (v : Value) (entries : Assoc String Value) (s : Server) (m : String)
    → (set_value db k v s).1 ≡ some m
    → (set_each db ((k, v) ∷ entries) s).1 ≡ some m
unfolding set_each
set_each-fails db k v entries s m failed = rw (failed, set_each)

entry-set_each :
    (db : ℤ) (entries : Assoc String Value) (s : Server)
    → (set_each db entries s).1 ≡ none
    → (db' : ℤ) (key : String)
    → entry (set_each db entries s).0 db' key ≡ entry_after db entries s db' key
entry-set_each db [] s h db' key = unfold set_each in ground arith
entry-set_each db ((k, v) ∷ entries) s h db' key = elim (Option-cases (set_value db k v s).1) [
  | inr (m, failed) ↦ absurd (ground (arith, set_each-fails db k v entries s m failed))
  | inl done ↦
      let step = set_each-cons db k v entries s done in
      rw step (
        ground (
          arith,
          entry-set_each db entries (set_value db k v s).0 (rw step at h) db' key,
          entry-set_value db k v s db' key,
          expiry-set_value db k v s db key,
          int_beq_iff db db',
          eq_iff k key,
        ))
]

get_expiry-ensure_database :
    (db : ℤ) (s : Server) (key : String)
    → get_expiry (ensure_database db s) db key ≡ get_expiry s db key
unfolding get_expiry
get_expiry-ensure_database db s key = rw (entry-ensure_database db s db key, get_expiry)

-- A value whose size `GetMem` knows.
abbrev pub IsSupported : Value → Type 0
IsSupported unsupported = ⊥
IsSupported _ = Unit

pub get_mem_of_supported :
    (m : Memory) (v : Value) (t : Option ℕ)
    → IsSupported v
    → (mem : ℕ) × (get_mem m (record { value = v; expire_at = t }) ≡ ok mem)
unfolding get_mem
get_mem_of_supported m (scalar x) t h = (24 + scalar_mem x, refl)
get_mem_of_supported m (hash x) t h = (24 + 8 + hash_mem x, refl)
get_mem_of_supported m (list x) t h = (24 + list_mem x, refl)
get_mem_of_supported m (set_at p) t h = (24 + set_mem (m.cell p), refl)
get_mem_of_supported m unsupported t h = absurd h

pub set_each-succeeds :
    (db : ℤ) (entries : Assoc String Value) (s : Server)
    → All (λ e. IsSupported e.1) entries
    → (set_each db entries s).1 ≡ none
set_each-succeeds db [] s h = unfold set_each in refl
set_each-succeeds db ((k, v) ∷ entries) s h =
    let (mem, fits) = get_mem_of_supported s.memory v (get_expiry s db k) h.0 in
    rw (set_each-cons db k v entries s (set_value_fits db k v s mem fits).0)
      (set_each-succeeds db entries (set_value db k v s).0 h.1)

-- The write is let through.
abbrev pub has_room : Server → Bool
has_room s = not (is_max_memory_exceeded s.mem_used s.config.max_memory && refuses s.config)

set_values_through :
    (db : ℤ) (entries : Assoc String Value) (s : Server)
    → has_room s ≡ true
    → (set_each db entries (ensure_database db s)).1 ≡ none
    → ((set_values db entries s).1 ≡ none)
      × ((set_values db entries s).0.store ≡ (set_each db entries (ensure_database db s)).0.store)
unfolding set_values
set_values_through db entries s room done =
    let refused : (is_max_memory_exceeded s.mem_used s.config.max_memory && refuses s.config)
        ≡ false =
      ground arith in
    rw (refused, done, set_values) (refl, refl)

set_values_refused :
    (db : ℤ) (entries : Assoc String Value) (s : Server)
    → has_room s ≡ false
    → set_values db entries s ≡ (s, some max_memory_message)
unfolding set_values
set_values_refused db entries s full =
    let refused : (is_max_memory_exceeded s.mem_used s.config.max_memory && refuses s.config)
        ≡ true =
      ground arith in
    rw refused

entry_after-ensure_database :
    (db : ℤ) (entries : Assoc String Value) (s : Server) (db' : ℤ) (key : String)
    → entry_after db entries (ensure_database db s) db' key ≡ entry_after db entries s db' key
entry_after-ensure_database db entries s db' key =
    ground (arith, entry-ensure_database db s db' key, get_expiry-ensure_database db s key)

-- A write on either side of the memory check.
pub set_values-entry :
    (db : ℤ) (entries : Assoc String Value) (s : Server)
    → All (λ e. IsSupported e.1) entries
    → (has_room s ≡ true
        → ((set_values db entries s).1 ≡ none)
          × ((db' : ℤ) (key : String)
              → entry (set_values db entries s).0 db' key ≡ entry_after db entries s db' key))
      × (has_room s ≡ false → set_values db entries s ≡ (s, some max_memory_message))
unfolding entry
set_values-entry db entries s h = (
  λ room.
      let s0 = ensure_database db s in
      let done = set_each-succeeds db entries s0 h in
      let (fine, same) = set_values_through db entries s room done in
      (
        fine,
        λ db' key.
            ap (λ st. nested db' key st) same
            ∙ (entry-set_each db entries s0 done db' key
                ∙ entry_after-ensure_database db entries s db' key),
      ),
  set_values_refused db entries s,
)

-- `setValues`, when memory is below its maximum or the policy is not written `noeviction`, with values whose
-- size is known: it reports no error; every key that it is given then holds the last value given for
-- it with the expiry time that the key had before, and every other entry of every database is as it
-- was.
pub set_values_stores :
    (db : ℤ) (entries : Assoc String Value) (s : Server)
    → All (λ e. IsSupported e.1) entries
    → has_room s ≡ true
    → ((set_values db entries s).1 ≡ none)
      × ((db' : ℤ) (key : String)
          → entry (set_values db entries s).0 db' key ≡ entry_after db entries s db' key)
set_values_stores db entries s h room = (set_values-entry db entries s h).0 room
