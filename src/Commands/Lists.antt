-- ===== src/Commands/Lists.antt =====
-- internal/modules/list: the key functions and the handlers that read lists, LLEN, LINDEX and LRANGE,
-- and those that overwrite them, LSET, LTRIM and LREM.
pub mod Ends
pub mod Laws
pub mod Windows
pub mod Overwrites
pub mod Removal
use echo_vault.Base.{
  ℕ, zero, suc, ◌+◌, ◌-◌, ◌≤◌, String, Bool, true, false, not, ◌&&◌, ◌||◌, Option, none, some, List,
  [], ◌∷◌, ◌++◌, if◌then◌else◌, ◌==◌, nat_eq, string_eq, ltb, leb, length, get_elem?, take, drop,
  set, ℤ, pos, negsuc, is_neg, abs, offset, back, ltb_ℤ, atoi,
}
use echo_vault.Keyspace.State.{Server, Value, list, Result, ok, err, panic, entry, keys_of, KeyData}
use echo_vault.Keyspace.Access.{put_entry, get_expiry}
use echo_vault.Commands.Exec.{
  Exec, ◌>>=◌, ◌>>◌, pure, fail, crash, lift, arg, wrong_args, Keys, Reply, number, bulk, null_bulk,
  array, ok_response, key_exists, value_of, store_values, remove_key,
}

abbrev pub first : List String → String
first cmd = arg cmd 0

abbrev pub reads_key : List String → Result Keys
reads_key cmd = ok (record { channels = []; read_keys = arg cmd 1 ∷ []; write_keys = [] })

abbrev pub writes_key : List String → Result Keys
writes_key cmd = ok (record { channels = []; read_keys = []; write_keys = arg cmd 1 ∷ [] })

abbrev pub of_length : ℕ → List String → Result Keys → Result Keys
of_length n cmd keys = if length cmd == n then keys else err wrong_args

-- `llenKeyFunc`, `lindexKeyFunc`, `lrangeKeyFunc`, `lsetKeyFunc`, `ltrimKeyFunc`, `lremKeyFunc`
abbrev pub llen_key_func : List String → Result Keys
llen_key_func cmd = of_length 2 cmd (reads_key cmd)

abbrev pub lindex_key_func : List String → Result Keys
lindex_key_func cmd = of_length 3 cmd (reads_key cmd)

abbrev pub lrange_key_func : List String → Result Keys
lrange_key_func cmd = of_length 4 cmd (reads_key cmd)

abbrev pub lset_key_func : List String → Result Keys
lset_key_func cmd = of_length 4 cmd (writes_key cmd)

abbrev pub ltrim_key_func : List String → Result Keys
ltrim_key_func cmd = of_length 4 cmd (writes_key cmd)

abbrev pub lrem_key_func : List String → Result Keys
lrem_key_func cmd = of_length 4 cmd (writes_key cmd)

-- the assertion `.([]string)`
abbrev pub as_list : String → Value → Exec (List String)
as_list message (list items) = pure items
as_list message _ = fail message

-- `strconv.Atoi`, with the return of an error
abbrev pub integer_arg : String → Option ℤ → Exec ℤ
integer_arg message none = fail message
integer_arg message (some i) = pure i

-- `list[i]`
abbrev pub item_at : List String → ℤ → Exec String
item_at items (negsuc i) = crash
item_at items (pos i) = elim (get_elem? items i) [ none ↦ crash | some x ↦ pure x ]

-- an index counted from the end where it is negative
abbrev pub from_end : ℕ → ℤ → ℤ
from_end n i = if is_neg i then offset n i else i

module _ (db : ℤ) where
  -- `handleLLen`
  unfoldable pub handle_llen : List String → Exec Reply
  handle_llen cmd = do
    keys ← lift (llen_key_func cmd)
    let key = first keys.read_keys
    exists ← key_exists db key
    if not exists then pure (number 0) else do
      v ← value_of db key
      items ← as_list "LLEN command on non-list item" v
      pure (number (length items))

  -- `handleLIndex`
  unfoldable pub handle_lindex : List String → Exec Reply
  handle_lindex cmd = do
    keys ← lift (lindex_key_func cmd)
    let key = first keys.read_keys
    exists ← key_exists db key
    if not exists then pure null_bulk else do
      v ← value_of db key
      items ← as_list "LINDEX command on non-list item" v
      given ← integer_arg "index must be an integer" (atoi (arg cmd 2))
      let index = from_end (length items) given
      if not (ltb_ℤ index (pos (length items))) || is_neg index
          then pure null_bulk
          else do x ← item_at items index; pure (bulk x)

  -- the loop of `handleLRange`: `count` items from `start` on
  unfoldable pub items_from : List String → ℤ → ℕ → Exec (List String)
  items_from items start zero = pure []
  items_from items start (suc count) = do
    x ← item_at items start
    rest ← items_from items (offset 1 start) count
    pure (x ∷ rest)

  -- the number of rounds of `for i := start; i <= end; i++`, where `start <= end`
  abbrev pub rounds : ℤ → ℤ → ℕ
  rounds (pos i) (pos j) = suc j - i
  rounds (negsuc i) (pos j) = suc j + suc i
  rounds (pos i) (negsuc j) = 0
  rounds (negsuc i) (negsuc j) = suc i - j

  -- the window of `handleLRange` once its indices are read; a negative end is subtracted
  unfoldable pub range_reply : List String → ℤ → ℤ → Exec Reply
  range_reply items start_arg end_arg =
      let n = length items in
      let start = from_end n start_arg in
      let end_given = if is_neg end_arg then back n end_arg else end_arg in
      let end = if ltb_ℤ (pos n) end_given then offset n (negsuc 0) else end_given in
      if ltb_ℤ end start || ltb_ℤ (pos n) start
      then pure (array [])
      else do xs ← items_from items start (rounds start end); pure (array xs)

  -- `handleLRange`
  unfoldable pub handle_lrange : List String → Exec Reply
  handle_lrange cmd = do
    keys ← lift (lrange_key_func cmd)
    let key = first keys.read_keys
    exists ← key_exists db key
    if not exists then pure (array []) else do
      v ← value_of db key
      items ← as_list "LRANGE command on non-list item" v
      start ← integer_arg "start index must be an integer" (atoi (arg cmd 2))
      end ← integer_arg "end index must be an integer" (atoi (arg cmd 3))
      range_reply items start end

  -- A write through the slice that the store holds: the entry changes and nothing is counted.
  unfoldable pub write_through : String → List String → Exec (Unit {0})
  write_through key items s =
      (ok tt, put_entry db key (record { value = list items; expire_at = get_expiry s db key }) s)

  -- `handleLSet`
  unfoldable pub handle_lset : List String → Exec Reply
  handle_lset cmd = do
    keys ← lift (lset_key_func cmd)
    let key = first keys.write_keys
    exists ← key_exists db key
    if not exists then fail "LSET command on non-list item" else do
      given ← integer_arg "index must be an integer" (atoi (arg cmd 2))
      v ← value_of db key
      items ← as_list "LSET command on non-list item" v
      let index = from_end (length items) given
      let outside = is_neg index || not (ltb_ℤ index (pos (length items)))
      if outside then fail "index must be within list range" else do
        write_through key (set items (abs index) (arg cmd 3))
        store_values db ((key, list (set items (abs index) (arg cmd 3))) ∷ [])
        pure ok_response

  -- `list[start:end]`
  abbrev pub slice : List String → ℤ → ℤ → Exec (List String)
  slice items (pos i) (pos j) =
      if leb i j && leb j (length items) then pure (take (j - i) (drop i items)) else crash
  slice items _ _ = crash

  -- the end of `handleLTrim` once its indices are read
  unfoldable pub trim : String → List String → ℤ → ℤ → Exec Reply
  trim key items start_arg end_arg =
      let n = length items in
      let start = from_end n start_arg in
      let last = from_end n end_arg in
      if ltb_ℤ last start || not (ltb_ℤ start (pos n))
      then (do remove_key db key; pure ok_response)
      else do
        let capped = if ltb_ℤ (pos n) last then pos n else last
        let end = if ltb_ℤ capped (pos n) then offset 1 capped else capped
        kept ← slice items start end
        store_values db ((key, list kept) ∷ [])
        pure ok_response

  -- `handleLTrim`
  unfoldable pub handle_ltrim : List String → Exec Reply
  handle_ltrim cmd = do
    keys ← lift (ltrim_key_func cmd)
    let key = first keys.write_keys
    exists ← key_exists db key
    if not exists then pure ok_response else do
      start ← integer_arg "start index must be an integer" (atoi (arg cmd 2))
      end ← integer_arg "end index must be an integer" (atoi (arg cmd 3))
      v ← value_of db key
      items ← as_list "LTRIM command on non-list item" v
      trim key items start end
