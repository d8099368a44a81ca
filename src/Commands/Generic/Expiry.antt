-- ===== src/Commands/Generic/Expiry.antt =====
-- internal/modules/generic/commands.go: PERSIST, EXPIRETIME, PEXPIRETIME, TTL, PTTL, EXPIRE, PEXPIRE,
-- EXPIREAT, PEXPIREAT and GETEX, with their key functions.
use echo_vault.Base.{
  ℕ, String, Bool, true, false, not, ◌||◌, Option, none, some, List, [], if◌then◌else◌, ◌==◌,
  nat_eq, string_eq, ltb, length, drop, equal_fold, ℤ, pos, negsuc, ltb_ℤ, sub_int64, atoi,
  str_append, to_upper,
}
use echo_vault.Keyspace.State.{Result, ok, err}
use echo_vault.Commands.Numbers.{Formats}
use echo_vault.Commands.Exec.{
  Exec, ◌>>=◌, ◌>>◌, pure, fail, lift, arg, wrong_args, Keys, Reply, number, signed_number,
  null_bulk, key_exists, value_of, expiry_of, put_expiry, clock_now,
}
use echo_vault.Commands.Times.{
  add_duration, seconds, milliseconds, from_unix, from_unix_milli, to_unix, to_unix_milli,
}
use echo_vault.Commands.Sets.{first, write_only, first_key}
use echo_vault.Commands.Generic.{get_key_func, shown}

-- `persistKeyFunc`
abbrev pub persist_key_func : List String → Result Keys
persist_key_func cmd = if length cmd == 2 then write_only (drop 1 cmd) else err wrong_args

-- `expireKeyFunc`, which EXPIREAT uses as well
abbrev pub expire_key_func : List String → Result Keys
expire_key_func cmd =
    if ltb (length cmd) 3 || ltb 4 (length cmd) then err wrong_args else write_only (first_key cmd)

-- `getExKeyFunc`
abbrev pub getex_key_func : List String → Result Keys
getex_key_func cmd =
    if ltb (length cmd) 2 || ltb 4 (length cmd)
    then err wrong_args
    else ok (record { channels = []; read_keys = first_key cmd; write_keys = first_key cmd })

-- the argument of a time, `strconv.ParseInt(s, 10, 64)`
abbrev pub time_arg : String → Exec ℤ
time_arg s = elim (atoi s) [ none ↦ fail "expire time must be integer" | some n ↦ pure n ]

-- what TTL and PTTL answer for a key with an expiry time
abbrev pub remaining : Bool → ℕ → ℕ → ℤ
remaining in_millis t now =
    let left =
      if in_millis
      then sub_int64 (to_unix_milli t) (to_unix_milli now)
      else sub_int64 (to_unix t) (to_unix now) in
    if ltb_ℤ (pos 0) left then left else pos 0

-- the cases of `getex` that give a time
abbrev pub getex_time : ℕ → String → ℤ → Option (Option ℕ)
getex_time now w n =
    if equal_fold w "ex"
    then some (some (add_duration now (seconds n)))
    else if equal_fold w "px"
    then some (some (add_duration now (milliseconds n)))
    else if equal_fold w "exat"
    then some (some (from_unix n))
    else if equal_fold w "pxat"
    then some (some (from_unix_milli n))
    else if equal_fold w "persist"
    then some none
    else none

module _ (db : ℤ) where
  -- `handlePersist`
  unfoldable pub handle_persist : List String → Exec Reply
  handle_persist cmd = do
    keys ← lift (persist_key_func cmd)
    let key = first keys.write_keys
    exists ← key_exists db key
    if not exists then pure (number 0) else do
      expire_at ← expiry_of db key
      elim expire_at [
        | none ↦ pure (number 0)
        | some t ↦ (do put_expiry db key none false; pure (number 1))
      ]

  -- `handleExpireTime`
  unfoldable pub handle_expiretime : List String → Exec Reply
  handle_expiretime cmd = do
    keys ← lift (get_key_func cmd)
    let key = first keys.read_keys
    exists ← key_exists db key
    if not exists then pure (signed_number (negsuc 1)) else do
      expire_at ← expiry_of db key
      elim expire_at [
        | none ↦ pure (signed_number (negsuc 0))
        | some t ↦ pure (
            signed_number
              (if equal_fold (arg cmd 0) "pexpiretime" then to_unix_milli t else to_unix t))
      ]

  -- `handleTTL`
  unfoldable pub handle_ttl : List String → Exec Reply
  handle_ttl cmd = do
    keys ← lift (get_key_func cmd)
    let key = first keys.read_keys
    exists ← key_exists db key
    if not exists then pure (signed_number (negsuc 1)) else do
      expire_at ← expiry_of db key
      now ← clock_now
      elim expire_at [
        | none ↦ pure (signed_number (negsuc 0))
        | some t ↦ pure (signed_number (remaining (equal_fold (arg cmd 0) "pttl") t now))
      ]

  -- The switch of EXPIRE and EXPIREAT on a condition; "lt" sets a time that is there twice.
  abbrev pub set_time : String → ℕ → Exec Reply
  set_time key t = do put_expiry db key (some t) false; pure (number 1)

  unfoldable pub expire_if : String → ℕ → Option ℕ → String → Exec Reply
  expire_if key t before w =
      if equal_fold w "nx"
      then elim before [ none ↦ set_time key t | some b ↦ pure (number 0) ]
      else if equal_fold w "xx"
      then elim before [ none ↦ pure (number 0) | some b ↦ set_time key t ]
      else if equal_fold w "gt"
      then elim before [
        | none ↦ pure (number 0)
        | some b ↦ if ltb t b then pure (number 0) else set_time key t
      ]
      else if equal_fold w "lt"
      then elim before [
        | none ↦ set_time key t
        | some b ↦
            if ltb b t
            then pure (number 0)
            else (do put_expiry db key (some t) false; set_time key t)
      ]
      else fail (str_append "unknown option " (to_upper w))

  -- the part that EXPIRE and EXPIREAT share: the write of a time
  unfoldable pub expire_to : List String → String → Bool → ℕ → Exec Reply
  unfolding expire_if
  expire_to cmd key exists t =
      if not exists
      then pure (number 0)
      else if length cmd == 3
      then (do put_expiry db key (some t) true; pure (number 1))
      else (do before ← expiry_of db key; expire_if key t before (arg cmd 3))

  -- `handleExpire`
  unfoldable pub handle_expire : List String → Exec Reply
  unfolding expire_to
  handle_expire cmd = do
    keys ← lift (expire_key_func cmd)
    let key = first keys.write_keys
    exists ← key_exists db key
    n ← time_arg (arg cmd 2)
    now ← clock_now
    expire_to cmd key exists
        (add_duration now (if equal_fold (arg cmd 0) "pexpire" then milliseconds n else seconds n))

  -- `handleExpireAt`
  unfoldable pub handle_expireat : List String → Exec Reply
  unfolding expire_to
  handle_expireat cmd = do
    keys ← lift (expire_key_func cmd)
    let key = first keys.write_keys
    exists ← key_exists db key
    n ← time_arg (arg cmd 2)
    expire_to cmd key exists
        (if equal_fold (arg cmd 0) "pexpireat" then from_unix_milli n else from_unix n)

  -- GETEX with a time; `exCommand` is in upper case and the list of the words is in the error
  abbrev pub getex_set : (String → String) → String → String → String → Exec (Unit {0})
  getex_set print_command key w value = do
    n ← time_arg value
    now ← clock_now
    elim (getex_time now w n) [
      | none ↦ fail (
          str_append "unknown option "
            (str_append (to_upper w) (str_append " -- " (print_command w))))
      | some t ↦ put_expiry db key t false
    ]

-- `handleGetex`. The word in upper case is compared with "persist", which it never is, before the
-- length is looked at. The print of the whole command in the error is `print_command`.
module _ (fmt : Formats) (print_command : List String → String) (db : ℤ) where
  unfoldable pub handle_getex : List String → Exec Reply
  handle_getex cmd = do
    keys ← lift (getex_key_func cmd)
    let key = first keys.read_keys
    exists ← key_exists db key
    if not exists then pure null_bulk else do
      v ← value_of db key
      if length cmd == 2
          then shown fmt v
          else if to_upper (arg cmd 2) == "persist"
          then (do put_expiry db key none false; shown fmt v)
          else if length cmd == 3
          then shown fmt v
          else (do getex_set db (λ w. print_command cmd) key (arg cmd 2) (arg cmd 3); shown fmt v)
