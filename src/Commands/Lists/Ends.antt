-- ===== src/Commands/Lists/Ends.antt =====
-- internal/modules/list/commands.go: LPUSH, LPUSHX, RPUSH, RPUSHX, LPOP, RPOP and LMOVE.
use echo_vault.Base.{
  ℕ, zero, suc, ◌+◌, ◌-◌, String, Bool, true, false, not, ◌||◌, none, some, List, [], ◌∷◌, ◌++◌,
  if◌then◌else◌, ◌==◌, nat_eq, string_eq, ltb, length, get_elem?, take, drop, ℤ, abs, atoi,
  equal_fold, insert, lookup,
}
use echo_vault.Keyspace.State.{list, Result, ok, err}
use echo_vault.Commands.Exec.{
  Exec, ◌>>=◌, ◌>>◌, pure, fail, crash, lift, arg, wrong_args, Keys, Reply, number, bulk, null_bulk,
  array, ok_response, or_nil, key_exists, value_of, values_of, store_values,
}
use echo_vault.Commands.Lists.{first, as_list}

-- `lpushKeyFunc` and `rpushKeyFunc`
abbrev pub push_key_func : List String → Result Keys
push_key_func cmd =
    if ltb (length cmd) 3
    then err wrong_args
    else ok (record { channels = []; read_keys = []; write_keys = arg cmd 1 ∷ [] })

-- `popKeyFunc`; a count is listed among the keys
abbrev pub pop_key_func : List String → Result Keys
pop_key_func cmd =
    if ltb (length cmd) 2 || ltb 3 (length cmd)
    then err wrong_args
    else ok (record { channels = []; read_keys = []; write_keys = drop 1 cmd })

-- `lmoveKeyFunc`
abbrev pub lmove_key_func : List String → Result Keys
lmove_key_func cmd =
    if length cmd == 5
    then ok (record { channels = []; read_keys = []; write_keys = arg cmd 1 ∷ arg cmd 2 ∷ [] })
    else err wrong_args

-- one round of the loop of `handlePop`: what was popped so far, and the list that is left
abbrev pub pop_left : List String → List String → Exec (List String × List String)
pop_left popped [] = crash
pop_left popped (x ∷ items) = pure (popped ++ x ∷ [], items)

abbrev pub pop_right : List String → List String → Exec (List String × List String)
pop_right popped items = elim (get_elem? items (length items - 1)) [
  | none ↦ crash
  | some x ↦ pure (popped ++ x ∷ [], take (length items - 1) items)
]

-- the loop of `handlePop`
unfoldable pub pop_each : Bool → ℕ → List String → List String → Exec (List String × List String)
pop_each left zero popped items = pure (popped, items)
pop_each left (suc count) popped items = do
  (popped', items') ← (if left then pop_left popped items else pop_right popped items)
  pop_each left count popped' items'

-- the count of `handlePop`, with its flag; `len` is the length of the list
abbrev pub pop_count : ℕ → List String → Exec (Bool × ℕ)
pop_count len cmd =
    if length cmd == 3
    then elim (atoi (arg cmd 2)) [
      | none ↦ fail "count must be an integer"
      | some i ↦ pure (true, if ltb len (abs i) then len else abs i)
    ]
    else pure (false, 1)

-- `sourceList[0]`, or the last item, with the items that are left; a slice of no items panics
abbrev pub take_end : Bool → List String → Exec (String × List String)
take_end true [] = crash
take_end true (x ∷ items) = pure (x, items)
take_end false items = elim (get_elem? items (length items - 1)) [
  | none ↦ crash
  | some x ↦ pure (x, take (length items - 1) items)
]

module _ (db : ℤ) where
  -- the end of the push handlers, once the list is there
  unfoldable pub push_onto : Bool → String → String → List String → Exec Reply
  push_onto left message key elems = do
    v ← value_of db key
    items ← as_list message v
    store_values db ((key, list (if left then elems ++ items else items ++ elems)) ∷ [])
    pure (number (length items + length elems))

  -- `handleLPush` for `left`, and `handleRPush`: they differ in the side and in their messages
  unfoldable pub handle_push : Bool → String → String → String → List String → Exec Reply
  handle_push left only_existing absent message cmd = do
    keys ← lift (push_key_func cmd)
    let key = first keys.write_keys
    exists ← key_exists db key
    if exists then push_onto left message key (drop 2 cmd) else do
      if equal_fold (arg cmd 0) only_existing
          then fail absent
          else do store_values db ((key, list []) ∷ []); push_onto left message key (drop 2 cmd)

  -- `handleLPush`
  unfoldable pub handle_lpush : List String → Exec Reply
  handle_lpush =
      handle_push true "lpushx" "LPUSHX command on non-existent key"
        "LPUSH command on non-list item"

  -- `handleRPush`
  unfoldable pub handle_rpush : List String → Exec Reply
  handle_rpush =
      handle_push false "rpushx" "RPUSHX command on non-existent key"
        "RPUSH command on non-list item"

  -- `handlePop` from its count on
  unfoldable pub pop_items : String → Bool → List String → Bool × ℕ → Exec Reply
  pop_items key left items (with_count, count) = if length items == 0 then pure null_bulk else do
    (popped, rest) ← pop_each left count [] items
    store_values db ((key, list rest) ∷ [])
    pure (if with_count then array popped else bulk (first popped))

  -- `handlePop`
  unfoldable pub handle_pop : List String → Exec Reply
  handle_pop cmd = do
    keys ← lift (pop_key_func cmd)
    let key = first keys.write_keys
    exists ← key_exists db key
    if not exists then pure null_bulk else do
      v ← value_of db key
      items ← as_list "command on non-list item" v
      counted ← pop_count (length items) cmd
      pop_items key (equal_fold (arg cmd 0) "lpop") items counted

  abbrev pub both_lists : String
  both_lists = "both source and destination must be lists"

  abbrev pub is_side : String → Bool
  is_side word = equal_fold word "left" || equal_fold word "right"

  -- the write of `handleLMove`: a map with one entry where the two keys are one
  unfoldable pub move_item : Bool → Bool → String → String → List String → List String → Exec Reply
  move_item from_left to_left source destination items target = do
    (x, rest) ← take_end from_left items
    store_values db (
        insert destination (list (if to_left then x ∷ target else target ++ x ∷ []))
          (insert source (list rest) []))
    pure ok_response

  -- `handleLMove`
  unfoldable pub handle_lmove : List String → Exec Reply
  handle_lmove cmd = do
    keys ← lift (lmove_key_func cmd)
    let source = arg keys.write_keys 0
    let destination = arg keys.write_keys 1
    if not (is_side (arg cmd 3)) || not (is_side (arg cmd 4))
        then fail "wherefrom and whereto arguments must be either LEFT or RIGHT"
        else do
          source_exists ← key_exists db source
          destination_exists ← key_exists db destination
          if not source_exists || not destination_exists then fail both_lists else do
            values ← values_of db (source ∷ destination ∷ [])
            items ← as_list both_lists (or_nil (lookup source values))
            target ← as_list both_lists (or_nil (lookup destination values))
            move_item (equal_fold (arg cmd 3) "left") (equal_fold (arg cmd 4) "left") source
                destination items target
