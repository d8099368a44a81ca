-- ===== src/Keyspace/Reads.antt =====
-- sugardb/keyspace.go, `getValues`: every key is read as its visible value.
use echo_vault.Base.{
  ◌≡◌, refl, ◌∙◌, String, true, some, List, [], ◌∷◌, ◌++◌, arith, inl, inr, Bool-cases,
  Option-cases, if◌then◌else◌, nat_eq, string_eq, int_eq, ℤ, eq_iff, Assoc, lookup, insert,
  lookup-insert, contains,
}
use echo_vault.Keyspace.State.{ok, Value, Server, entry, expired}
use echo_vault.Keyspace.Access.{read_keys, get_values}
use echo_vault.Keyspace.Laws.{
  shows, HasNoCache, SameView, SameView-refl, SameView-trans, expire_key-SameView,
}

-- One key of the loop of `getValues`: a value that the server shows, and a server that shows the same.
read_key-shows :
    (db : ℤ) (k : String) (keys : List String) (values : Assoc String Value) (s : Server)
    → HasNoCache s
    → (s1 : Server) × SameView s s1
      × (read_keys db (k ∷ keys) values s ≡ read_keys db keys (insert k (shows s db k) values) s1)
unfolding read_keys shows
read_key-shows db k keys values s h = elim (Option-cases (entry s db k)) [
  | inl gone ↦ (s, SameView-refl s, ground arith)
  | inr (d, found) ↦ elim (Bool-cases (expired s.now d)) [
    | inl old ↦
        let (s1, step, same) = expire_key-SameView db k s d h found old in
        (s1, same, ground (arith, step))
    | inr live ↦ (s, SameView-refl s, ground arith)
  ]
]

-- The loop of `getValues` ends; a requested key gets what the server shows of it.
read_keys-shows :
    (db : ℤ) (keys : List String) (values : Assoc String Value) (s : Server)
    → HasNoCache s
    → (s' : Server) × (values' : Assoc String Value) × (read_keys db keys values s
        ≡ ok (s', values'))
      × SameView s s'
      × ((key : String)
          → lookup key values'
            ≡ (if contains keys key then some (shows s db key) else lookup key values))
unfolding contains
read_keys-shows db [] values s h =
    (s, values, unfold read_keys in refl, SameView-refl s, λ key. refl)
read_keys-shows db (k ∷ keys) values s h =
    let (s1, same, step) = read_key-shows db k keys values s h in
    let (s', values', e, same', look) =
      read_keys-shows db keys (insert k (shows s db k) values) s1 (rw same.settings h) in
    (
      s',
      values',
      step ∙ e,
      SameView-trans same same',
      λ key. ground (
        arith,
        look key,
        same.view db key,
        lookup-insert k (shows s db k) values key,
        eq_iff k key,
      ),
    )

-- On a standalone node or a follower of a cluster, under a policy without caches, `getValues` ends without an error or a panic, returns for a requested
-- key the value that a reader is shown, nil if the key is missing or has expired, and leaves a server
-- that shows the same of every key of every database.
pub get_values-shows :
    (db : ℤ) (keys : List String) (s : Server) (key : String)
    → HasNoCache s
    → contains keys key ≡ true
    → (s' : Server) × (values : Assoc String Value) × (get_values db keys s ≡ ok (s', values))
      × SameView s s'
      × (lookup key values ≡ some (shows s db key))
unfolding get_values
get_values-shows db keys s key h asked =
    let (s', values, e, same, look) = read_keys-shows db keys [] s h in
    (
      record s' { tasks = s'.tasks ++ record { database = db; keys = keys } ∷ [] },
      values,
      rw (e, get_values),
      record {
        view = λ db' key'. unfold shows entry in same.view db' key';
        settings = same.settings;
        clock = same.clock;
      },
      ground (arith, look key),
    )
