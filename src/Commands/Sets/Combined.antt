-- ===== src/Commands/Sets/Combined.antt =====
-- internal/modules/set: the key functions and the handlers of several sets, SDIFF, SDIFFSTORE, SINTER,
-- SINTERCARD, SINTERSTORE, SUNION and SUNIONSTORE.
use echo_vault.Base.{
  ℕ, zero, suc, ◌+◌, String, Bool, not, Option, none, some, List, [], ◌∷◌, ◌++◌, if◌then◌else◌,
  nat_eq, string_eq, ltb, leb, length, take, drop, is_empty, equal_fold, ℤ, pos, Assoc, lookup,
  str_append,
}
use echo_vault.Sets.{Set, get_all, cardinality, subtract}
use echo_vault.Sets.Pointers.{union, intersection}
use echo_vault.Keyspace.State.{Value, set_at, Result, ok, err, panic}
use echo_vault.Commands.Numbers.{Number, as_int}
use echo_vault.Commands.Exec.{
  Exec, ◌>>=◌, ◌>>◌, pure, fail, lift, arg, wrong_args, Keys, Reply, number, array, is_true,
  exist_of, value_of, values_of, store_values,
}
use echo_vault.Commands.Sets.{
  first, read_only, first_key, not_a_set, as_set, load, allocate, elements,
}

abbrev pub at_least : ℕ → List String → Result Keys → Result Keys
at_least n cmd keys = if ltb (length cmd) n then err wrong_args else keys

-- `sdiffKeyFunc`, `sinterKeyFunc` and `sunionKeyFunc`
abbrev pub sdiff_key_func : List String → Result Keys
sdiff_key_func cmd = at_least 2 cmd (read_only (drop 1 cmd))

-- `sdiffstoreKeyFunc`, `sinterstoreKeyFunc` and `sunionstoreKeyFunc`
abbrev pub sdiffstore_key_func : List String → Result Keys
sdiffstore_key_func cmd =
    at_least 3 cmd
      (ok (record { channels = []; read_keys = drop 2 cmd; write_keys = first_key cmd }))

-- `slices.IndexFunc` with `strings.EqualFold(s, word)`
abbrev pub index_fold : String → List String → Option ℕ
index_fold word [] = none
index_fold word (s ∷ cmd) =
    let later = index_fold word cmd in
    if equal_fold s word then some 0 else elim later [ none ↦ none | some i ↦ some (i + 1) ]

-- `sintercardKeyFunc`; `cmd[1:0]` panics
abbrev pub sintercard_key_func : List String → Result Keys
sintercard_key_func cmd = at_least 2 cmd (elim (index_fold "limit" cmd) [
  | none ↦ read_only (drop 1 cmd)
  | some zero ↦ panic
  | some (suc i) ↦ read_only (take i (drop 1 cmd))
])

-- the limit of SINTERCARD
abbrev pub limit_arg : (String → Option Number) → List String → Exec ℤ
limit_arg parse cmd = elim (index_fold "limit" cmd) [
  | none ↦ pure (pos 0)
  | some i ↦
      if ltb i 2
      then fail wrong_args
      else if leb (length cmd) (i + 1)
      then fail "provide limit after LIMIT keyword"
      else elim (as_int parse (arg cmd (i + 1))) [
        | none ↦ fail "limit must be an integer"
        | some l ↦ pure l
      ]
]

-- the call of `Intersection`; no fuel is needed beyond the number of sets
unfoldable pub intersect : ℤ → List ℕ → Exec ℕ
unfolding intersection
intersect limit sets s = elim (intersection (length sets) limit sets s.memory) [
  | none ↦ (panic, s)
  | some (r, reached, m) ↦ (ok r, record s { memory = m })
]

-- the call of `Union`
unfoldable pub unite : List ℕ → Exec ℕ
unfolding union
unite sets s = elim (union (length sets) sets s.memory) [
  | none ↦ (panic, s)
  | some (r, m) ↦ (ok r, record s { memory = m })
]

abbrev pub no_base : String → String
no_base key = str_append "key for base set \"" (str_append key "\" does not exist")

-- `if !ok { continue }`
unfoldable pub held_set : Value → Exec (List Set)
unfolding load
held_set (set_at p) = do x ← load p; pure (x ∷ [])
held_set _ = pure []

module _ (db : ℤ) where
  -- the sets of SDIFF at the other keys; what is no set is skipped
  unfoldable pub other_sets : List String → Exec (List Set)
  unfolding held_set
  other_sets [] = pure []
  other_sets (key ∷ keys) = do
    v ← value_of db key
    found ← held_set v
    rest ← other_sets keys
    pure (found ++ rest)

  -- `baseSet.Subtract(sets)`, for the first key and the others
  unfoldable pub difference : Assoc String Bool → List String → List String → Exec Set
  unfolding load other_sets
  difference exist read_keys others =
      let base = first read_keys in
      if not (is_true (lookup base exist)) then fail (no_base base) else do
        v ← value_of db base
        p ← as_set (not_a_set base) v
        sets ← other_sets others
        x ← load p
        pure (subtract x sets)

  -- `handleSDIFF`
  unfoldable pub handle_sdiff : List String → Exec Reply
  unfolding difference
  handle_sdiff cmd = do
    keys ← lift (sdiff_key_func cmd)
    exist ← exist_of db keys.read_keys
    diff ← difference exist keys.read_keys (drop 2 cmd)
    pure (elements (get_all diff))

  -- `handleSDIFFSTORE`
  unfoldable pub handle_sdiffstore : List String → Exec Reply
  unfolding difference allocate
  handle_sdiffstore cmd = do
    keys ← lift (sdiffstore_key_func cmd)
    exist ← exist_of db (keys.write_keys ++ keys.read_keys)
    diff ← difference exist keys.read_keys (drop 1 keys.read_keys)
    p ← allocate diff
    store_values db ((first keys.write_keys, set_at p) ∷ [])
    pure (number (length (get_all diff)))

  -- the loop of the SINTER handlers over the map of existing keys; `none` is a key that is missing
  unfoldable pub gather : Assoc String Bool → Exec (Option (List ℕ))
  gather [] = pure (some [])
  gather ((key, exists) ∷ exist) = if not exists then pure none else do
    v ← value_of db key
    p ← as_set (not_a_set key) v
    rest ← gather exist
    pure (elim rest [ none ↦ none | some ps ↦ some (p ∷ ps) ])

  abbrev pub too_few : String
  too_few = "not enough sets in the keys provided"

  -- `handleSINTER`
  unfoldable pub handle_sinter : List String → Exec Reply
  unfolding gather intersect load
  handle_sinter cmd = do
    keys ← lift (sdiff_key_func cmd)
    exist ← exist_of db keys.read_keys
    gathered ← gather exist
    elim gathered [
      | none ↦ pure (array [])
      | some sets ↦
          if is_empty sets
          then fail too_few
          else do r ← intersect (pos 0) sets; x ← load r; pure (elements (get_all x))
    ]

  -- `handleSINTERSTORE`
  unfoldable pub handle_sinterstore : List String → Exec Reply
  unfolding gather intersect load
  handle_sinterstore cmd = do
    keys ← lift (sdiffstore_key_func cmd)
    exist ← exist_of db keys.read_keys
    gathered ← gather exist
    elim gathered [
      | none ↦ pure (number 0)
      | some sets ↦ do
        r ← intersect (pos 0) sets
        store_values db ((first keys.write_keys, set_at r) ∷ [])
        x ← load r
        pure (number (cardinality x))
    ]

  -- the loop of the SUNION handlers over the map of values, in the order that Go takes
  unfoldable pub all_sets : Assoc String Value → Exec (List ℕ)
  all_sets [] = pure []
  all_sets ((key, value) ∷ values) = do
    p ← as_set (not_a_set key) value
    rest ← all_sets values
    pure (p ∷ rest)

  -- `handleSUNION`, where `order` is the order in which Go ranges over a map
  unfoldable pub handle_sunion :
      (Assoc String Value → Assoc String Value) → List String → Exec Reply
  unfolding all_sets unite load
  handle_sunion order cmd = do
    keys ← lift (sdiff_key_func cmd)
    values ← values_of db keys.read_keys
    sets ← all_sets (order values)
    r ← unite sets
    x ← load r
    pure (elements (get_all x))

  -- `handleSUNIONSTORE`
  unfoldable pub handle_sunionstore :
      (Assoc String Value → Assoc String Value) → List String → Exec Reply
  unfolding all_sets unite load
  handle_sunionstore order cmd = do
    keys ← lift (sdiffstore_key_func cmd)
    values ← values_of db keys.read_keys
    sets ← all_sets (order values)
    r ← unite sets
    store_values db ((first keys.write_keys, set_at r) ∷ [])
    x ← load r
    pure (number (cardinality x))

module _ (parse : String → Option Number) (db : ℤ) where
  -- `handleSINTERCARD`
  unfoldable pub handle_sintercard : List String → Exec Reply
  unfolding gather intersect load
  handle_sintercard cmd = do
    keys ← lift (sintercard_key_func cmd)
    exist ← exist_of db keys.read_keys
    limit ← limit_arg parse cmd
    gathered ← gather db exist
    elim gathered [
      | none ↦ pure (number 0)
      | some sets ↦
          if is_empty sets
          then fail (too_few db)
          else do r ← intersect limit sets; x ← load r; pure (number (cardinality x))
    ]
