-- ===== src/Commands/Sets.antt =====
-- internal/modules/set: the key functions, and the handlers of one set, SADD, SCARD, SISMEMBER, SMEMBERS,
-- SMISMEMBER, SMOVE, SPOP, SRANDMEMBER and SREM.
pub mod Combined
pub mod Laws
pub mod Moves
pub mod Aliases
pub mod Intersections
use echo_vault.Base.{
  ℕ, zero, suc, ◌+◌, String, Bool, true, false, not, ◌&&◌, ◌||◌, Option, none, some, List, [], ◌∷◌,
  ◌++◌, map, if◌then◌else◌, ◌==◌, nat_eq, string_eq, ltb, length, take, drop, is_empty, get_elem?,
  equal_fold, ℤ, pos, Assoc, lookup, str_append,
}
use echo_vault.Sets.{Set, Draws, has, add, remove, new_set, get_all, cardinality, get_random, pop}
use echo_vault.Sets.Pointers.{Memory, store, alloc, move}
use echo_vault.Keyspace.State.{Server, Value, set_at, Result, ok, err, panic}
use echo_vault.Commands.Numbers.{Number, as_int}
use echo_vault.Commands.Exec.{
  Exec, ◌>>=◌, ◌>>◌, pure, fail, crash, lift, arg, wrong_args, Keys, Reply, number, array,
  cut_array, null_array, numbers, or_nil, is_true, key_exists, exist_of, value_of, values_of,
  store_values,
}

abbrev pub first : List String → String
first keys = arg keys 0

abbrev pub read_only : List String → Result Keys
read_only keys = ok (record { channels = []; read_keys = keys; write_keys = [] })

abbrev pub write_only : List String → Result Keys
write_only keys = ok (record { channels = []; read_keys = []; write_keys = keys })

-- `cmd[1:2]`, where the length has been checked
abbrev pub first_key : List String → List String
first_key cmd = take 1 (drop 1 cmd)

-- `saddKeyFunc` and `sremKeyFunc`
abbrev pub sadd_key_func : List String → Result Keys
sadd_key_func cmd = if ltb (length cmd) 3 then err wrong_args else write_only (first_key cmd)

-- `scardKeyFunc` and `smembersKeyFunc`
abbrev pub scard_key_func : List String → Result Keys
scard_key_func cmd = if length cmd == 2 then read_only (drop 1 cmd) else err wrong_args

-- `sismemberKeyFunc`; the member is listed among the keys
abbrev pub sismember_key_func : List String → Result Keys
sismember_key_func cmd = if length cmd == 3 then read_only (drop 1 cmd) else err wrong_args

-- `smismemberKeyFunc`
abbrev pub smismember_key_func : List String → Result Keys
smismember_key_func cmd = if ltb (length cmd) 3 then err wrong_args else read_only (first_key cmd)

-- `smoveKeyFunc`
abbrev pub smove_key_func : List String → Result Keys
smove_key_func cmd = if length cmd == 4 then write_only (take 2 (drop 1 cmd)) else err wrong_args

abbrev pub two_or_three : List String → Result Keys → Result Keys
two_or_three cmd keys = if ltb (length cmd) 2 || ltb 3 (length cmd) then err wrong_args else keys

-- `spopKeyFunc`
abbrev pub spop_key_func : List String → Result Keys
spop_key_func cmd = two_or_three cmd (write_only (first_key cmd))

-- `srandmemberKeyFunc`
abbrev pub srandmember_key_func : List String → Result Keys
srandmember_key_func cmd = two_or_three cmd (read_only (first_key cmd))

abbrev pub not_a_set : String → String
not_a_set key = str_append "value at key " (str_append key " is not a set")

abbrev pub not_a_set_at : String → String
not_a_set_at key = str_append "value at " (str_append key " is not a set")

-- the assertion `.(*Set)`
abbrev pub as_set : String → Value → Exec ℕ
as_set message (set_at p) = pure p
as_set message _ = fail message

-- `*p`
unfoldable pub load : ℕ → Exec Set
load p s = (ok (s.memory.cell p), s)

-- the change of a set through its pointer
unfoldable pub save : ℕ → Set → Exec (Unit {0})
unfolding store
save p x s = (ok tt, record s { memory = store p x s.memory })

-- `NewSet`, and the sets that other functions make
unfoldable pub allocate : Set → Exec ℕ
unfolding alloc
allocate x s = (ok (alloc x s.memory).0, record s { memory = (alloc x s.memory).1 })

-- the loop that prints an array: with no elements the line end is missing
abbrev pub elements : List String → Reply
elements xs = if is_empty xs then cut_array else array xs

-- the answer of SMISMEMBER for one member
abbrev pub bit : Bool → ℕ
bit true = 1
bit false = 0

-- the optional count of SPOP and SRANDMEMBER
abbrev pub count_arg : (String → Option Number) → List String → Exec ℤ
count_arg parse cmd =
    if length cmd == 3
    then elim (as_int parse (arg cmd 2)) [
      | none ↦ fail "count must be an integer"
      | some c ↦ pure c
    ]
    else pure (pos 1)

-- what `GetRandom` draws; `none` does not happen while the draws end
abbrev pub drawn : {A : Type 0} → Option A → Exec A
drawn none = crash
drawn (some a) = pure a

module _ (db : ℤ) where
  -- `handleSADD`
  unfoldable pub handle_sadd : List String → Exec Reply
  unfolding allocate save load
  handle_sadd cmd = do
    keys ← lift (sadd_key_func cmd)
    let key = first keys.write_keys
    exists ← key_exists db key
    if not exists
        then (do
          p ← allocate (new_set (drop 2 cmd))
          store_values db ((key, set_at p) ∷ [])
          pure (number (length (drop 2 cmd))))
        else do
          v ← value_of db key
          p ← as_set (not_a_set key) v
          x ← load p
          save p (add (drop 2 cmd) x).0
          pure (number (add (drop 2 cmd) x).1)

  -- `handleSCARD`
  unfoldable pub handle_scard : List String → Exec Reply
  unfolding load
  handle_scard cmd = do
    keys ← lift (scard_key_func cmd)
    let key = first keys.read_keys
    exists ← key_exists db key
    if not exists then pure (number 0) else do
      v ← value_of db key
      p ← as_set (not_a_set key) v
      x ← load p
      pure (number (cardinality x))

  -- `handleSISMEMBER`
  unfoldable pub handle_sismember : List String → Exec Reply
  unfolding load
  handle_sismember cmd = do
    keys ← lift (sismember_key_func cmd)
    let key = first keys.read_keys
    exists ← key_exists db key
    if not exists then pure (number 0) else do
      v ← value_of db key
      p ← as_set (not_a_set key) v
      x ← load p
      pure (number (bit (has x (arg cmd 2))))

  -- `handleSMEMBERS`
  unfoldable pub handle_smembers : List String → Exec Reply
  unfolding load
  handle_smembers cmd = do
    keys ← lift (scard_key_func cmd)
    let key = first keys.read_keys
    exists ← key_exists db key
    if not exists then pure (array []) else do
      v ← value_of db key
      p ← as_set (not_a_set key) v
      x ← load p
      pure (elements (get_all x))

  -- `handleSMISMEMBER`
  unfoldable pub handle_smismember : List String → Exec Reply
  unfolding load
  handle_smismember cmd = do
    keys ← lift (smismember_key_func cmd)
    let key = first keys.read_keys
    exists ← key_exists db key
    if not exists then pure (numbers (map (λ m. 0) (drop 2 cmd))) else do
      v ← value_of db key
      p ← as_set (not_a_set key) v
      x ← load p
      pure (numbers (map (λ m. bit (has x m)) (drop 2 cmd)))

  -- the call of `Move`
  unfoldable pub move_member : ℕ → ℕ → String → Exec Reply
  unfolding move
  move_member source destination member s =
      let (m, res) = move source destination member s.memory in
      (ok (number res), record s { memory = m })

  -- `handleSMOVE`
  unfoldable pub handle_smove : List String → Exec Reply
  unfolding move_member
  handle_smove cmd = do
    keys ← lift (smove_key_func cmd)
    let source = arg keys.write_keys 0
    let destination = arg keys.write_keys 1
    exist ← exist_of db keys.write_keys
    if not (is_true (lookup source exist)) then pure (number 0) else do
      sets ← values_of db keys.write_keys
      p ← as_set "source is not a set" (or_nil (lookup source sets))
      q ← as_set "destination is not a set" (or_nil (lookup destination sets))
      move_member p q (arg cmd 3)

  -- `handleSREM`
  unfoldable pub handle_srem : List String → Exec Reply
  unfolding save load
  handle_srem cmd = do
    keys ← lift (sadd_key_func cmd)
    let key = first keys.write_keys
    exists ← key_exists db key
    if not exists then pure (number 0) else do
      v ← value_of db key
      p ← as_set (not_a_set key) v
      x ← load p
      save p (remove (drop 2 cmd) x).0
      pure (number (remove (drop 2 cmd) x).1)

module _ (parse : String → Option Number) (draws : Draws) (db : ℤ) where
  -- `handleSPOP`
  unfoldable pub handle_spop : List String → Exec Reply
  unfolding save load
  handle_spop cmd = do
    keys ← lift (spop_key_func cmd)
    let key = first keys.write_keys
    exists ← key_exists db key
    count ← count_arg parse cmd
    if not exists then pure null_array else do
      v ← value_of db key
      p ← as_set (not_a_set_at key) v
      x ← load p
      (x', members) ← drawn (pop draws count x)
      save p x'
      pure (elements members)

  -- `handleSRANDMEMBER`
  unfoldable pub handle_srandmember : List String → Exec Reply
  unfolding load
  handle_srandmember cmd = do
    keys ← lift (srandmember_key_func cmd)
    let key = first keys.read_keys
    exists ← key_exists db key
    count ← count_arg parse cmd
    if not exists then pure null_array else do
      v ← value_of db key
      p ← as_set (not_a_set_at key) v
      x ← load p
      members ← drawn (get_random draws count x)
      pure (elements members)
