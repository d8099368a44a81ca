-- ===== src/Commands/Generic.antt =====
-- internal/modules/generic: the commands on keys of any type. The handlers SET, MSET, GET, MGET, DEL,
-- RENAME, FLUSHALL, FLUSHDB, GETDEL and TYPE, with their key functions.
pub mod Options
pub mod Expiry
pub mod Counters
pub mod Laws
pub mod Counting
pub mod Deadlines
pub mod Removal
pub mod Refinement
pub mod Reads
pub mod Usage
pub mod Setting
use echo_vault.Base.{
  ℕ, zero, suc, ◌+◌, String, Bool, true, false, not, ◌&&◌, ◌||◌, Option, none, some, List, [], ◌∷◌,
  if◌then◌else◌, ◌==◌, nat_eq, string_eq, int_eq, ltb, length, drop, equal_fold, ℤ, pos, negsuc,
  Assoc, lookup, insert, str_append, size,
}
use echo_vault.Keyspace.State.{
  Server, Value, scalar, nothing, integer, float, text, hash, list, set_at, unsupported, Result, ok,
  err,
}
use echo_vault.Commands.Numbers.{Number, adapt_type, Formats, print_value}
use echo_vault.Commands.Exec.{
  Exec, ◌>>=◌, ◌>>◌, pure, fail, crash, lift, arg, wrong_args, Keys, Reply, number, bulk, null_bulk,
  cells, Cell, null_cell, text_cell, ok_response, simple, or_nil, is_true, key_exists, exist_of,
  value_of, values_of, store_values, remove_key, try_remove, put_expiry, clock_now, flush_keys,
}
use echo_vault.Commands.Sets.{first, read_only, write_only, first_key}
use Options.{SetOptions, no_options, set_options, is_nx, is_xx}

-- `setKeyFunc`
abbrev pub set_key_func : List String → Result Keys
set_key_func cmd =
    if ltb (length cmd) 3 || ltb 7 (length cmd) then err wrong_args else write_only (first_key cmd)

-- the arguments of MSET that stand at even places
unfoldable pub even_args : List String → List String
even_args [] = []
even_args (key ∷ []) = key ∷ []
even_args (key ∷ value ∷ rest) = key ∷ even_args rest

unfoldable pub is_even : ℕ → Bool
is_even zero = true
is_even (suc n) = not (is_even n)

-- `msetKeyFunc`
abbrev pub mset_key_func : List String → Result Keys
mset_key_func cmd =
    if not (is_even (length (drop 1 cmd)))
    then err "each key must be paired with a value"
    else write_only (even_args (drop 1 cmd))

-- `getKeyFunc`, and the same for GETDEL with the key in both lists
abbrev pub get_key_func : List String → Result Keys
get_key_func cmd = if length cmd == 2 then read_only (drop 1 cmd) else err wrong_args

abbrev pub getdel_key_func : List String → Result Keys
getdel_key_func cmd =
    if length cmd == 2
    then ok (record { channels = []; read_keys = drop 1 cmd; write_keys = drop 1 cmd })
    else err wrong_args

-- `mgetKeyFunc` and `delKeyFunc`
abbrev pub mget_key_func : List String → Result Keys
mget_key_func cmd = if ltb (length cmd) 2 then err wrong_args else read_only (drop 1 cmd)

abbrev pub del_key_func : List String → Result Keys
del_key_func cmd = if ltb (length cmd) 2 then err wrong_args else write_only (drop 1 cmd)

-- `value == nil`
abbrev pub is_nil : Value → Bool
is_nil (scalar nothing) = true
is_nil _ = false

-- `[]byte(fmt.Sprintf("+%v\r\n", value))`
abbrev pub shown : Formats → Value → Exec Reply
shown fmt v s = (ok (simple (print_value fmt s v)), s)

-- the map of MSET, where a later value replaces an earlier one
unfoldable pub pairs :
    (String → Option Number) → List String → Assoc String Value → Assoc String Value
pairs parse (key ∷ value ∷ rest) entries =
    pairs parse rest (insert key (scalar (adapt_type parse value)) entries)
pairs parse _ entries = entries

-- one element of the answer of MGET: an empty text is answered like a missing value
abbrev pub value_cell : Formats → Server → Option Value → Cell
value_cell fmt s none = null_cell
value_cell fmt s (some (scalar nothing)) = null_cell
value_cell fmt s (some v) =
    if print_value fmt s v == "" then null_cell else text_cell (print_value fmt s v)

unfoldable pub value_cells : Formats → Server → Assoc String Value → List String → List Cell
value_cells fmt s values [] = []
value_cells fmt s values (key ∷ keys) =
    value_cell fmt s (lookup key values) ∷ value_cells fmt s values keys

abbrev pub no_such_key : String → String
no_such_key key = str_append "key " (str_append key " does not exist")

abbrev pub key_is_there : String → String
key_is_there key = str_append "key " (str_append key " already exists")

-- `type_string` of TYPE; the type of no value is a panic
abbrev pub type_name : Formats → Value → Exec Reply
type_name fmt (scalar nothing) = crash
type_name fmt (scalar (integer i)) = pure (simple "integer")
type_name fmt (scalar (float f)) = pure (simple "float")
type_name fmt (scalar (text t)) = pure (simple "string")
type_name fmt (hash fields) = pure (simple "hash")
type_name fmt (list items) = pure (simple "list")
type_name fmt (set_at p) = pure (simple "set")
type_name fmt unsupported = pure (simple (fmt.print_type unsupported))

module _ (db : ℤ) where
  -- the loop of DEL; an error of a deletion is only logged
  unfoldable pub delete_each : Assoc String Bool → ℕ → Exec ℕ
  delete_each [] count = pure count
  delete_each ((key, false) ∷ keys) count = delete_each keys count
  delete_each ((key, true) ∷ keys) count = do
    done ← try_remove db key
    delete_each keys (if done then count + 1 else count)

  -- `handleDel`
  unfoldable pub handle_del : List String → Exec Reply
  unfolding delete_each
  handle_del cmd = do
    keys ← lift (del_key_func cmd)
    exists ← exist_of db keys.write_keys
    count ← delete_each exists 0
    pure (number count)

  -- `handleRename`
  unfoldable pub handle_rename : List String → Exec Reply
  handle_rename cmd = if not (length cmd == 3) then fail wrong_args else do
    v ← value_of db (arg cmd 1)
    if is_nil v
        then fail "no such key"
        else do store_values db ((arg cmd 2, v) ∷ []); remove_key db (arg cmd 1); pure ok_response

  -- `handleFlush`
  unfoldable pub handle_flush : List String → Exec Reply
  handle_flush cmd = if not (length cmd == 1) then fail wrong_args else do
    flush_keys (if equal_fold (arg cmd 0) "flushall" then negsuc 0 else db)
    pure ok_response

  -- `handleMSet`
  unfoldable pub handle_mset : (String → Option Number) → List String → Exec Reply
  unfolding pairs even_args is_even
  handle_mset parse cmd = do
    keys ← lift (mset_key_func cmd)
    store_values db (pairs parse (drop 1 cmd) [])
    pure ok_response

module _ (fmt : Formats) (db : ℤ) where
  -- the answer of SET: the value of before where GET asks for it
  abbrev pub set_answer : Bool → Bool → String → Exec Reply
  set_answer false exists key = pure ok_response
  set_answer true false key = pure null_bulk
  set_answer true true key = do v ← value_of db key; shown fmt v

  -- `handleSet`
  unfoldable pub handle_set : (String → Option Number) → List String → Exec Reply
  unfolding set_options
  handle_set parse cmd = do
    keys ← lift (set_key_func cmd)
    let key = first keys.write_keys
    exists ← key_exists db key
    now ← clock_now
    options ← lift (set_options now (drop 3 cmd) no_options)
    res ← set_answer options.get exists key
    if is_xx options && not exists
        then fail (no_such_key key)
        else if is_nx options && exists
        then fail (key_is_there key)
        else do
          store_values db ((key, scalar (adapt_type parse (arg cmd 2))) ∷ [])
          elim options.expire_at [ none ↦ pure tt | some t ↦ put_expiry db key (some t) false ]
          pure res

  -- `handleGet`
  unfoldable pub handle_get : List String → Exec Reply
  handle_get cmd = do
    keys ← lift (get_key_func cmd)
    let key = first keys.read_keys
    exists ← key_exists db key
    if not exists then pure null_bulk else do v ← value_of db key; shown fmt v

  -- `handleMGet`
  unfoldable pub handle_mget : List String → Exec Reply
  unfolding value_cells
  handle_mget cmd = do
    keys ← lift (mget_key_func cmd)
    values ← values_of db keys.read_keys
    λ s. (ok (cells (length (drop 1 cmd)) (value_cells fmt s values (drop 1 cmd))), s)

  -- `handleGetdel`
  unfoldable pub handle_getdel : List String → Exec Reply
  handle_getdel cmd = do
    keys ← lift (getdel_key_func cmd)
    let key = first keys.read_keys
    exists ← key_exists db key
    if not exists
        then pure null_bulk
        else do v ← value_of db key; remove_key db (first keys.write_keys); shown fmt v

  -- `handleType`
  unfoldable pub handle_type : List String → Exec Reply
  handle_type cmd = do
    keys ← lift (get_key_func cmd)
    let key = first keys.read_keys
    exists ← key_exists db key
    if not exists then fail (no_such_key key) else do v ← value_of db key; type_name fmt v
