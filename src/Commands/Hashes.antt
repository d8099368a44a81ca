-- ===== src/Commands/Hashes.antt =====
-- internal/modules/hash: the key functions, and the handlers HSET, HSETNX, HLEN, HKEYS, HEXISTS and
-- HDEL. A hash is a Go map that the store holds by reference.
pub mod Values
pub mod Fields
pub mod Laws
use echo_vault.Base.{
  ℕ, ◌+◌, ◌*◌, ◌%◌, String, Bool, true, false, not, Option, none, some, List, [], ◌∷◌, map,
  if◌then◌else◌, ◌==◌, nat_eq, string_eq, ltb, length, take, drop, equal_fold, ℤ, Assoc, lookup,
  insert, without, str_append,
}
use echo_vault.Keyspace.State.{
  Server, Value, hash, Scalar, nothing, integer, float, text, Result, ok, err, panic,
}
use echo_vault.Keyspace.Access.{get_expiry, put_entry}
use echo_vault.Commands.Exec.{
  Exec, ◌>>=◌, ◌>>◌, pure, fail, lift, arg, wrong_args, Keys, Reply, Cell, null_cell, text_cell,
  integer_cell, number, null_bulk, array, cells, key_exists, value_of, store_values,
}
use echo_vault.Commands.Numbers.{Number, adapt_type}
use echo_vault.Commands.Sets.{first, read_only, write_only, first_key}
use echo_vault.Commands.Sets.Combined.{at_least}

-- `hsetKeyFunc` and `hsetnxKeyFunc`
abbrev pub hset_key_func : List String → Result Keys
hset_key_func cmd = at_least 4 cmd (write_only (first_key cmd))

-- `hgetKeyFunc` and `hmgetKeyFunc`
abbrev pub hget_key_func : List String → Result Keys
hget_key_func cmd = at_least 3 cmd (read_only (first_key cmd))

-- `hvalsKeyFunc`, `hlenKeyFunc`, `hkeysKeyFunc` and `hgetallKeyFunc`
abbrev pub hvals_key_func : List String → Result Keys
hvals_key_func cmd = if length cmd == 2 then read_only (drop 1 cmd) else err wrong_args

-- `hexistsKeyFunc`
abbrev pub hexists_key_func : List String → Result Keys
hexists_key_func cmd = if length cmd == 3 then read_only (first_key cmd) else err wrong_args

-- `hdelKeyFunc`
abbrev pub hdel_key_func : List String → Result Keys
hdel_key_func cmd = at_least 3 cmd (write_only (first_key cmd))

abbrev pub Fields : Type 0
Fields = Assoc String Scalar

-- `hash[field] == nil`
abbrev pub is_nil : Option Scalar → Bool
is_nil none = true
is_nil (some nothing) = true
is_nil (some _) = false

-- the assertion `.(map[string]interface{})`
abbrev pub as_hash : String → Value → Exec Fields
as_hash key (hash h) = pure h
as_hash key _ = fail (str_append "value at " (str_append key " is not a hash"))

-- the loop over the fields and values of HSET
unfoldable pub given_fields : (String → Scalar) → List String → Fields → Fields
given_fields adapt (field ∷ value ∷ rest) m = given_fields adapt rest (insert field (adapt value) m)
given_fields adapt _ m = m

-- the loop of HSET over the fields that are there
unfoldable pub keep_missing : Fields → Fields → Fields
keep_missing [] entries = entries
keep_missing ((field, value) ∷ h) entries =
    keep_missing h (if is_nil (lookup field entries) then insert field value entries else entries)

-- the loop of HSETNX over the fields that are there
unfoldable pub keep_all : Fields → Fields → Fields
keep_all [] entries = entries
keep_all ((field, value) ∷ h) entries = keep_all h (insert field value entries)

-- the count of HSETNX
unfoldable pub count_new : Fields → Fields → ℕ
count_new h [] = 0
count_new h ((field, value) ∷ entries) =
    let rest = count_new h entries in if is_nil (lookup field h) then rest + 1 else rest

-- the entries that HSET and HSETNX store, and their reply
abbrev pub merged : String → Fields → Fields → Fields × ℕ
merged word h entries =
    if equal_fold word "hsetnx"
    then (keep_all h entries, count_new h entries)
    else (keep_missing h entries, length (keep_missing h entries))

-- the loop of HDEL
unfoldable pub delete_fields : List String → Fields → Fields × ℕ
delete_fields [] h = (h, 0)
delete_fields (field ∷ fields) h =
    if not (is_nil (lookup field h))
    then (let (h', n) = delete_fields fields (without field h) in (h', n + 1))
    else delete_fields fields h

module _ (db : ℤ) where
  -- `SetValues` of one hash and the reply
  unfoldable pub store_hash : String → Fields → ℕ → Exec Reply
  store_hash key h n = do store_values db ((key, hash h) ∷ []); pure (number n)

  -- what HSET does with the value that is there
  unfoldable pub merge_into : String → String → Fields → Value → Exec Reply
  unfolding store_hash
  merge_into word key entries (hash h) =
      store_hash key (merged word h entries).0 (merged word h entries).1
  merge_into word key entries _ = store_hash key entries (length entries)

  -- `handleHLEN`
  unfoldable pub handle_hlen : List String → Exec Reply
  handle_hlen cmd = do
    keys ← lift (hvals_key_func cmd)
    let key = first keys.read_keys
    exists ← key_exists db key
    if not exists
        then pure (number 0)
        else do v ← value_of db key; h ← as_hash key v; pure (number (length h))

  -- `handleHKEYS`
  unfoldable pub handle_hkeys : List String → Exec Reply
  handle_hkeys cmd = do
    keys ← lift (hvals_key_func cmd)
    let key = first keys.read_keys
    exists ← key_exists db key
    if not exists
        then pure (array [])
        else do v ← value_of db key; h ← as_hash key v; pure (array (map (λ e. e.0) h))

  -- `handleHEXISTS`
  unfoldable pub handle_hexists : List String → Exec Reply
  handle_hexists cmd = do
    keys ← lift (hexists_key_func cmd)
    let key = first keys.read_keys
    exists ← key_exists db key
    if not exists then pure (number 0) else do
      v ← value_of db key
      h ← as_hash key v
      pure (number (if not (is_nil (lookup (arg cmd 2) h)) then 1 else 0))

  -- A change of the map that the store holds: the entry changes and nothing is counted.
  unfoldable pub write_hash : String → Fields → Exec (Unit {0})
  write_hash key h s =
      (ok tt, put_entry db key (record { value = hash h; expire_at = get_expiry s db key }) s)

  -- `handleHDEL`
  unfoldable pub handle_hdel : List String → Exec Reply
  unfolding write_hash store_hash
  handle_hdel cmd = do
    keys ← lift (hdel_key_func cmd)
    let key = first keys.write_keys
    exists ← key_exists db key
    if not exists then pure (number 0) else do
      v ← value_of db key
      h ← as_hash key v
      write_hash key (delete_fields (drop 2 cmd) h).0
      store_hash key (delete_fields (drop 2 cmd) h).0 (delete_fields (drop 2 cmd) h).1

module _ (parse : String → Option Number) (db : ℤ) where
  -- `handleHSET`
  unfoldable pub handle_hset : List String → Exec Reply
  unfolding merge_into store_hash given_fields
  handle_hset cmd = do
    keys ← lift (hset_key_func cmd)
    let key = first keys.write_keys
    exists ← key_exists db key
    if not (length (drop 2 cmd) % 2 == 0)
        then fail "each field must have a corresponding value"
        else do
          let entries = given_fields (adapt_type parse) (drop 2 cmd) []
          if not exists
              then store_hash db key entries (length entries)
              else do v ← value_of db key; merge_into db (arg cmd 0) key entries v
