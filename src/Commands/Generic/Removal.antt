-- ===== src/Commands/Generic/Removal.antt =====
-- internal/modules/generic/commands.go: which keys DEL takes away, and how many it counts.
use echo_vault.Base.{
  ℕ, ◌+◌, ◌≡◌, refl, String, Bool, true, false, not, ◌&&◌, ◌||◌, none, some, List, [], ◌∷◌, arith,
  inl, inr, Bool-cases, if◌then◌else◌, ◌==◌, nat_eq, string_eq, int_eq, eq_iff, int_beq_iff, ℤ,
  Assoc, insert, lookup, lookup-insert, contains,
}
use echo_vault.Keyspace.State.{Server, ok, entry}
use echo_vault.Keyspace.Access.{keys_exist}
use echo_vault.Commands.Exec.{number, exist_of}
use echo_vault.Commands.Steady.{View, IsSteady, Leads}
use echo_vault.Commands.Steady.Reads.{remove_key-Leads}
use echo_vault.Commands.Generic.{delete_each, handle_del}
use echo_vault.Commands.Generic.Laws.{is_there, Leads-trans}

-- the keys that a map of `KeysExist` has found, and their number
unfoldable found : String → Assoc String Bool → Bool
found key [] = false
found key ((k, b) ∷ m) = k == key && b || found key m

unfoldable count_found : Assoc String Bool → ℕ
count_found [] = 0
count_found ((k, b) ∷ m) = (if b then 1 else 0) + count_found m

abbrev pub drop_all : ℤ → (String → Bool) → View → View
drop_all db gone f db' key = if db == db' && gone key then none else f db' key

-- The number of the different keys of a list that are there.
unfoldable pub count_there : View → ℤ → List String → ℕ
unfolding contains
count_there f db [] = 0
count_there f db (key ∷ keys) =
    (if is_there (f db key) && not (contains keys key) then 1 else 0) + count_there f db keys

delete_each-Leads :
    (db : ℤ) (m : Assoc String Bool) (count : ℕ) (s : Server)
    → IsSteady s
    → (s' : Server) × (delete_each db m count s ≡ (ok (count + count_found m), s'))
      × Leads s (drop_all db (λ key. found key m) (entry s)) s'
unfolding delete_each found count_found
delete_each-Leads db [] count s steady =
    (s, ground arith, record { steady = steady; clock = refl; look = λ db' key. ground arith })
delete_each-Leads db ((key, false) ∷ m) count s steady =
    let (s', done, step) = delete_each-Leads db m count s steady in
    (
      s',
      ground (arith, done),
      record {
        steady = step.steady;
        clock = step.clock;
        look = λ db' key'. ground (arith, step.look db' key');
      },
    )
delete_each-Leads db ((key, true) ∷ m) count s steady =
    let (s1, gone, tried, first_step) = remove_key-Leads db key s steady in
    let (s', done, step) = delete_each-Leads db m (count + 1) s1 first_step.steady in
    (
      s',
      ground (arith, tried, done),
      Leads-trans _ first_step step
          (λ db' key'. ground (arith, first_step.look db' key', eq_iff key key')),
    )

-- a key that is in the map has this value
abbrev agrees : String → Bool → Assoc String Bool → Bool
agrees key b m = elim (lookup key m) [ none ↦ true | some c ↦ if b then c else not c ]

found-insert :
    (key : String) (b : Bool) (m : Assoc String Bool) (key' : String)
    → agrees key b m ≡ true
    → found key' (insert key b m) ≡ (key == key' && b || found key' m)
unfolding found insert lookup
found-insert key b [] key' h = refl
found-insert key b ((k, c) ∷ m) key' h = elim (Bool-cases (k == key)) [
  | inl same ↦ ground (arith, eq_iff k key, eq_iff key key', eq_iff k key')
  | inr other ↦ ground (arith, found-insert key b m key' (ground arith))
]

abbrev is_new : String → Assoc String Bool → Bool
is_new key m = elim (lookup key m) [ none ↦ true | some c ↦ false ]

count_found-insert :
    (key : String) (b : Bool) (m : Assoc String Bool)
    → agrees key b m ≡ true
    → count_found (insert key b m) ≡ (if is_new key m && b then 1 else 0) + count_found m
unfolding count_found insert lookup
count_found-insert key b [] h = ground arith
count_found-insert key b ((k, c) ∷ m) h = elim (Bool-cases (k == key)) [
  | inl same ↦ ground arith
  | inr other ↦ ground (arith, count_found-insert key b m (ground arith))
]

lookup-keys_exist :
    (db : ℤ) (keys : List String) (s : Server) (key : String)
    → lookup key (keys_exist s db keys)
      ≡ (if contains keys key then some (is_there (entry s db key)) else none)
unfolding keys_exist contains
lookup-keys_exist db [] s key = unfold lookup in refl
lookup-keys_exist db (k ∷ keys) s key = ground (
  arith,
  lookup-insert k (is_there (entry s db k)) (keys_exist s db keys) key,
  lookup-keys_exist db keys s key,
  eq_iff k key,
)

keys_exist-agrees :
    (db : ℤ) (keys : List String) (s : Server) (key : String)
    → agrees key (is_there (entry s db key)) (keys_exist s db keys) ≡ true
keys_exist-agrees db keys s key = ground (arith, lookup-keys_exist db keys s key)

found-keys_exist :
    (db : ℤ) (keys : List String) (s : Server) (key : String)
    → found key (keys_exist s db keys) ≡ (contains keys key && is_there (entry s db key))
unfolding keys_exist found contains
found-keys_exist db [] s key = refl
found-keys_exist db (k ∷ keys) s key = ground (
  arith,
  found-insert k (is_there (entry s db k)) (keys_exist s db keys) key
      (keys_exist-agrees db keys s k),
  found-keys_exist db keys s key,
  eq_iff k key,
)

count_found-keys_exist :
    (db : ℤ) (keys : List String) (s : Server)
    → count_found (keys_exist s db keys) ≡ count_there (entry s) db keys
unfolding keys_exist count_found count_there
count_found-keys_exist db [] s = refl
count_found-keys_exist db (k ∷ keys) s = ground (
  arith,
  count_found-insert k (is_there (entry s db k)) (keys_exist s db keys)
      (keys_exist-agrees db keys s k),
  lookup-keys_exist db keys s k,
  count_found-keys_exist db keys s,
)

-- DEL of one key or more on a standalone server without caches whose memory is not limited: the reply is the number of the
-- different given keys that were there, expired or not; then no given key is there, and every other entry is as
-- it was.
pub handle_del-Leads :
    (db : ℤ) (word key : String) (keys : List String) (s : Server)
    → IsSteady s
    → (s' : Server) × (handle_del db (word ∷ key ∷ keys) s
        ≡ (ok (number (count_there (entry s) db (key ∷ keys))), s'))
      × Leads s (drop_all db (contains (key ∷ keys)) (entry s)) s'
unfolding handle_del exist_of
handle_del-Leads db word key keys s steady =
    let (s', done, step) = delete_each-Leads db (keys_exist s db (key ∷ keys)) 0 s steady in
    (
      s',
      ground (arith, done, count_found-keys_exist db (key ∷ keys) s),
      record {
        steady = step.steady;
        clock = step.clock;
        look = λ db' key'. ground (
          arith,
          step.look db' key',
          found-keys_exist db (key ∷ keys) s key',
          int_beq_iff db db',
        );
      },
    )
