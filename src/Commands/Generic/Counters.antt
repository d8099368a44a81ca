-- ===== src/Commands/Generic/Counters.antt =====
-- internal/modules/generic/commands.go: INCR, DECR, INCRBY, DECRBY and INCRBYFLOAT, with their key
-- functions.
use echo_vault.Base.{
  ℕ, String, none, some, List, [], ◌∷◌, if◌then◌else◌, ◌==◌, nat_eq, length, ℤ, pos, negsuc,
  add_int64, sub_int64, mul_int64, atoi, print_int,
}
use echo_vault.Keyspace.State.{Value, scalar, nothing, integer, float, text, Result, err}
use echo_vault.Commands.Numbers.{Formats}
use echo_vault.Commands.Exec.{
  Exec, ◌>>=◌, ◌>>◌, pure, fail, lift, arg, wrong_args, Keys, Reply, signed_number, bulk, value_of,
  store_values,
}
use echo_vault.Commands.Sets.{first, write_only, first_key}

-- `incrKeyFunc` and `decrKeyFunc`
abbrev pub incr_key_func : List String → Result Keys
incr_key_func cmd = if length cmd == 2 then write_only (first_key cmd) else err wrong_args

-- `incrByKeyFunc`, `decrByKeyFunc` and `incrByFloatKeyFunc`
abbrev pub incrby_key_func : List String → Result Keys
incrby_key_func cmd = if length cmd == 3 then write_only (first_key cmd) else err wrong_args

-- The new number of a counter: the type switch on the current value, and the step.
abbrev pub next_int : ℤ → (ℤ → ℤ) → Value → Exec ℤ
next_int initial step (scalar nothing) = pure initial
next_int initial step (scalar (text t)) = elim (atoi t) [
  | none ↦ fail "value is not an integer or out of range"
  | some i ↦ pure (step i)
]
next_int initial step (scalar (integer i)) = pure (step i)
next_int initial step _ = fail "unexpected type for currentValue"

-- an increment, `strconv.ParseInt(s, 10, 64)`
abbrev pub increment : String → String → Exec ℤ
increment message s = elim (atoi s) [ none ↦ fail message | some n ↦ pure n ]

module _ (db : ℤ) where
  -- what the four handlers of whole numbers do once the key and the step are known
  unfoldable pub count_by : ℤ → (ℤ → ℤ) → String → Exec Reply
  count_by initial step key = do
    v ← value_of db key
    n ← next_int initial step v
    store_values db ((key, scalar (text (print_int n))) ∷ [])
    pure (signed_number n)

  -- `handleIncr`
  unfoldable pub handle_incr : List String → Exec Reply
  unfolding count_by
  handle_incr cmd = do
    keys ← lift (incr_key_func cmd)
    count_by (pos 1) (λ i. add_int64 i (pos 1)) (first keys.write_keys)

  -- `handleDecr`
  unfoldable pub handle_decr : List String → Exec Reply
  unfolding count_by
  handle_decr cmd = do
    keys ← lift (incr_key_func cmd)
    count_by (negsuc 0) (λ i. sub_int64 i (pos 1)) (first keys.write_keys)

  -- `handleIncrBy`
  unfoldable pub handle_incrby : List String → Exec Reply
  unfolding count_by
  handle_incrby cmd = do
    keys ← lift (incrby_key_func cmd)
    n ← increment "increment value is not an integer or out of range" (arg cmd 2)
    count_by n (λ i. add_int64 i n) (first keys.write_keys)

  -- `handleDecrBy`
  unfoldable pub handle_decrby : List String → Exec Reply
  unfolding count_by
  handle_decrby cmd = do
    keys ← lift (incrby_key_func cmd)
    n ← increment "decrement value is not an integer or out of range" (arg cmd 2)
    count_by (mul_int64 n (negsuc 0)) (λ i. sub_int64 i n) (first keys.write_keys)

module _ (fmt : Formats) (db : ℤ) where
  -- the type switch of INCRBYFLOAT
  abbrev pub next_float : ℕ → Value → Exec ℕ
  next_float f (scalar nothing) = pure f
  next_float f (scalar (text t)) = elim (fmt.parse_float t) [
    | some x ↦ pure (fmt.add_float x f)
    | none ↦ elim (atoi t) [
      | some i ↦ pure (fmt.add_float (fmt.of_int i) f)
      | none ↦ fail "value is not a float or integer"
    ]
  ]
  next_float f (scalar (float x)) = pure (fmt.add_float x f)
  next_float f (scalar (integer i)) = pure (fmt.add_float (fmt.of_int i) f)
  next_float f _ = fail "unexpected type for currentValue"

  -- `handleIncrByFloat`
  unfoldable pub handle_incrbyfloat : List String → Exec Reply
  handle_incrbyfloat cmd = do
    keys ← lift (incrby_key_func cmd)
    f ← elim (fmt.parse_float (arg cmd 2)) [
      | none ↦ fail "increment value is not a float or out of range"
      | some f ↦ pure f
    ]
    v ← value_of db (first keys.write_keys)
    x ← next_float f v
    store_values db ((first keys.write_keys, scalar (text (fmt.print_float x))) ∷ [])
    pure (bulk (fmt.print_float x))
