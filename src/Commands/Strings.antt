-- ===== src/Commands/Strings.antt =====
-- internal/modules/string: the handlers SETRANGE, STRLEN, SUBSTR and APPEND with their key functions.
pub mod Laws
use Prim.Native.Char.{Char}
use echo_vault.Base.{
  ℕ, zero, suc, ◌+◌, ◌-◌, String, Bool, true, false, not, ◌&&◌, ◌||◌, Option, none, some, List, [],
  ◌∷◌, if◌then◌else◌, ◌==◌, nat_eq, ltb, leb, length, take, drop, size, take_text, drop_text,
  str_append, ℤ, pos, is_neg, ltb_ℤ,
}
use echo_vault.Keyspace.State.{Value, scalar, text, Result, ok, err}
use echo_vault.Commands.Numbers.{Number, adapt_type, as_int}
use echo_vault.Commands.Exec.{
  Exec, ◌>>=◌, ◌>>◌, pure, fail, crash, lift, arg, wrong_args, Keys, Reply, number, bulk,
  key_exists, value_of, store_values,
}
use echo_vault.Commands.Lists.{from_end}
use echo_vault.Commands.Sets.{first, read_only, write_only, first_key}

-- `setRangeKeyFunc`
abbrev pub setrange_key_func : List String → Result Keys
setrange_key_func cmd = if length cmd == 4 then write_only (first_key cmd) else err wrong_args

-- `strLenKeyFunc`
abbrev pub strlen_key_func : List String → Result Keys
strlen_key_func cmd = if length cmd == 2 then read_only (first_key cmd) else err wrong_args

-- `subStrKeyFunc`
abbrev pub substr_key_func : List String → Result Keys
substr_key_func cmd = if length cmd == 4 then read_only (first_key cmd) else err wrong_args

-- `appendKeyFunc`
abbrev pub append_key_func : List String → Result Keys
append_key_func cmd = if length cmd == 3 then write_only (first_key cmd) else err wrong_args

abbrev pub not_a_string : String → String → String
not_a_string start key = str_append start (str_append key " is not a string")

-- the assertion `.(string)`
abbrev pub as_text : String → Value → Exec String
as_text message (scalar (text t)) = pure t
as_text message _ = fail message

-- the assertion `.(int)`
abbrev pub as_index : String → Option ℤ → Exec ℤ
as_index message none = fail message
as_index message (some i) = pure i

-- `strRunes[offset] = r`
unfoldable pub put_char : ℕ → Char → String → String
put_char offset r String.[] = String.[]
put_char zero r (String.◌∷◌ c s) = String.◌∷◌ r s
put_char (suc n) r (String.◌∷◌ c s) = String.◌∷◌ c (put_char n r s)

-- the loop of SETRANGE, with the length of the text before it
unfoldable pub overwrite : ℕ → ℕ → String → String → String
unfolding put_char
overwrite len offset String.[] runes = runes
overwrite len offset (String.◌∷◌ c new) runes =
    let rest = overwrite len (offset + 1) new (put_char offset c runes) in
    if ltb offset len then rest else str_append runes (String.◌∷◌ c new)

-- the text that SETRANGE stores
unfoldable pub with_range : ℤ → String → String → String
unfolding overwrite
with_range offset new str =
    if not (ltb_ℤ offset (pos (size str)))
    then str_append str new
    else elim offset [ pos n ↦ overwrite (size str) n new str | _ ↦ str_append new str ]

-- the loop of SUBSTR that turns a text around
unfoldable pub reversed_onto : String → String → String
reversed_onto String.[] res = res
reversed_onto (String.◌∷◌ c s) res = reversed_onto s (String.◌∷◌ c res)

-- `value[start:end]`
abbrev pub slice_text : String → ℤ → ℤ → Exec String
slice_text value (pos i) (pos j) =
    if leb i j && leb j (size value) then pure (take_text (j - i) (drop_text i value)) else crash
slice_text value _ _ = crash

-- the end of SUBSTR, behind the last character
abbrev pub past_end : String → ℤ → ℤ → ℤ
past_end value start (pos e) =
    let past = if not (ltb_ℤ (pos e) start) then e + 1 else e in
    if ltb (size value) past then pos (size value) else pos past
past_end value start e = e

unfoldable pub sub_string : String → ℤ → ℤ → Exec Reply
unfolding reversed_onto
sub_string value start e =
    if ltb_ℤ e start
    then (do part ← slice_text value e start; pure (bulk (reversed_onto part "")))
    else (do part ← slice_text value start e; pure (bulk part))

module _ (db : ℤ) where
  -- `handleStrLen`
  unfoldable pub handle_strlen : List String → Exec Reply
  handle_strlen cmd = do
    keys ← lift (strlen_key_func cmd)
    let key = first keys.read_keys
    exists ← key_exists db key
    if not exists then pure (number 0) else do
      v ← value_of db key
      str ← as_text (not_a_string "value at key " key) v
      pure (number (size str))

module _ (parse : String → Option Number) (db : ℤ) where
  -- `handleSetRange`
  unfoldable pub handle_setrange : List String → Exec Reply
  unfolding with_range
  handle_setrange cmd = do
    keys ← lift (setrange_key_func cmd)
    let key = first keys.write_keys
    exists ← key_exists db key
    offset ← as_index "offset must be an integer" (as_int parse (arg cmd 2))
    if not exists then pure (number (size (arg cmd 3))) else do
      v ← value_of db key
      str ← as_text (not_a_string "value at key " key) v
      store_values db ((key, scalar (text (with_range offset (arg cmd 3) str))) ∷ [])
      pure (number (size (with_range offset (arg cmd 3) str)))

  -- `handleSubStr`
  unfoldable pub handle_substr : List String → Exec Reply
  unfolding sub_string
  handle_substr cmd = do
    keys ← lift (substr_key_func cmd)
    let key = first keys.read_keys
    exists ← key_exists db key
    start ← as_index "start and end indices must be integers" (as_int parse (arg cmd 2))
    last ← as_index "start and end indices must be integers" (as_int parse (arg cmd 3))
    if not exists then fail (str_append "key " (str_append key " does not exist")) else do
      v ← value_of db key
      value ← as_text (not_a_string "value at key " key) v
      let from = from_end (size value) start
      sub_string value from (past_end value from (from_end (size value) last))

  -- `handleAppend`
  unfoldable pub handle_append : List String → Exec Reply
  handle_append cmd = do
    keys ← lift (append_key_func cmd)
    let key = first keys.write_keys
    exists ← key_exists db key
    if not exists
        then (do
          store_values db ((key, scalar (adapt_type parse (arg cmd 2))) ∷ [])
          pure (number (size (arg cmd 2))))
        else do
          v ← value_of db key
          str ← as_text (not_a_string "Value at key " key) v
          store_values db ((key, scalar (adapt_type parse (str_append str (arg cmd 2)))) ∷ [])
          pure (number (size (str_append str (arg cmd 2))))
