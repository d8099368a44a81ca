-- ===== src/Commands/Exec.antt =====
-- internal/types.go, `HandlerFuncParams`: what a command handler calls, as actions on the server.
-- What a handler did before it fails stays done.
use echo_vault.Base.{
  ℕ, String, Bool, true, false, Option, none, some, List, [], ◌∷◌, ℤ, Assoc, lookup, get_elem?,
  string_eq,
}
use echo_vault.Keyspace.State.{Server, Value, nil_value, Result, ok, err, panic}
use echo_vault.Keyspace.Access.{keys_exist, get_values, delete_key, get_expiry}
use echo_vault.Keyspace.Write.{set_values, set_expiry, flush}

-- one element of an array that is not of texts alone
pub data Cell : Type 0 where
  null_cell : Cell
  text_cell : String → Cell
  integer_cell : ℤ → Cell

-- The RESP answers of the handlers; `cut_array` is `*0` with no line end, and `cells` has the
-- number that it prints before its elements. `number` and `signed_number` are both `:%d`, `simple` is
-- `+%s`.
pub data Reply : Type 0 where
  number : ℕ → Reply
  bulk : String → Reply
  null_bulk : Reply
  array : List String → Reply
  cut_array : Reply
  null_array : Reply
  numbers : List ℕ → Reply
  cells : ℕ → List Cell → Reply
  ok_response : Reply
  simple : String → Reply
  signed_number : ℤ → Reply

abbrev pub Exec : Type 0 → Type 0
Exec A = Server → Result A × Server

abbrev pub continue : {A B : Type 0} → Result A → (A → Exec B) → Exec B
continue (ok a) f s = f a s
continue (err e) f s = (err e, s)
continue panic f s = (panic, s)

infixl 10 ◌>>=◌ ◌>>◌
abbrev pub ◌>>=◌ : {A B : Type 0} → Exec A → (A → Exec B) → Exec B
◌>>=◌ m f s = continue (m s).0 f (m s).1

abbrev pub ◌>>◌ : {A B : Type 0} → Exec A → Exec B → Exec B
m >> n = m >>= λ _. n

abbrev pub pure : {A : Type 0} → A → Exec A
pure a s = (ok a, s)

abbrev pub fail : {A : Type 0} → String → Exec A
fail e s = (err e, s)

abbrev pub crash : {A : Type 0} → Exec A
crash s = (panic, s)

abbrev pub lift : {A : Type 0} → Result A → Exec A
lift r s = (r, s)

-- `cmd[i]`, where the key function has checked the number of arguments
abbrev pub arg : List String → ℕ → String
arg cmd i = elim (get_elem? cmd i) [ none ↦ "" | some a ↦ a ]

abbrev pub wrong_args : String
wrong_args = "wrong number of arguments"

-- `KeyExtractionFuncResult`
pub record Keys : Type 0 where
  pub channels : List String
  pub read_keys : List String
  pub write_keys : List String

abbrev pub or_nil : Option Value → Value
or_nil none = nil_value
or_nil (some v) = v

abbrev pub is_true : Option Bool → Bool
is_true (some true) = true
is_true _ = false

module _ (db : ℤ) where
  -- `params.KeysExist(params.Context, keys)[key]`
  unfoldable pub key_exists : String → Exec Bool
  key_exists key s = (ok (is_true (lookup key (keys_exist s db (key ∷ [])))), s)

  abbrev pub values_in :
      Result (Server × Assoc String Value) → Server → Result (Assoc String Value) × Server
  values_in (ok (s', values)) s = (ok values, s')
  values_in (err e) s = (err e, s)
  values_in panic s = (panic, s)

  -- `params.KeysExist(params.Context, keys)`
  unfoldable pub exist_of : List String → Exec (Assoc String Bool)
  exist_of keys s = (ok (keys_exist s db keys), s)

  -- `params.GetValues(params.Context, keys)`
  unfoldable pub values_of : List String → Exec (Assoc String Value)
  values_of keys s = values_in (get_values db keys s) s

  -- `params.GetValues(params.Context, []string{key})[key]`
  unfoldable pub value_of : String → Exec Value
  value_of key = do values ← values_of (key ∷ []); pure (or_nil (lookup key values))

  abbrev pub settled : Server × Option String → Result (Unit {0}) × Server
  settled (s', none) = (ok tt, s')
  settled (s', some e) = (err e, s')

  -- `params.SetValues(params.Context, entries)`, with the return of its error
  unfoldable pub store_values : Assoc String Value → Exec (Unit {0})
  store_values entries s = settled (set_values db entries s)

  abbrev pub gone : Result Server → Server → Result (Unit {0}) × Server
  gone (ok s') s = (ok tt, s')
  gone (err e) s = (err e, s)
  gone panic s = (panic, s)

  -- `params.DeleteKey(params.Context, key)`, with the return of its error
  unfoldable pub remove_key : String → Exec (Unit {0})
  remove_key key s = gone (delete_key db key s) s

  -- `params.DeleteKey(params.Context, key)`, where an error is only logged; whether it succeeded
  abbrev pub tried : Result Server → Server → Result Bool × Server
  tried (ok s') s = (ok true, s')
  tried (err e) s = (ok false, s)
  tried panic s = (panic, s)

  unfoldable pub try_remove : String → Exec Bool
  try_remove key s = tried (delete_key db key s) s

  -- `params.GetExpiry(params.Context, key)`
  unfoldable pub expiry_of : String → Exec (Option ℕ)
  expiry_of key s = (ok (get_expiry s db key), s)

  -- `params.SetExpiry(params.Context, key, expireAt, touch)`
  unfoldable pub put_expiry : String → Option ℕ → Bool → Exec (Unit {0})
  put_expiry key t touch s = gone (set_expiry db key t touch s) s

-- `params.GetClock().Now()`
unfoldable pub clock_now : Exec ℕ
clock_now s = (ok s.now, s)

-- `params.Flush(database)`
unfoldable pub flush_keys : ℤ → Exec (Unit {0})
flush_keys db s = gone db (flush db s) s
