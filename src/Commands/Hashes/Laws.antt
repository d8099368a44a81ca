-- ===== src/Commands/Hashes/Laws.antt =====
-- internal/modules/hash/commands.go: HSET and HDEL on a hash that is there.
use echo_vault.Base.{
  ℕ, ◌+◌, ◌%◌, ◌≡◌, ◌∙◌, String, true, false, not, ◌&&◌, Option, some, none, List, [], ◌∷◌, arith,
  inl, inr, Bool-cases, Option-cases, lookup-nil, lookup-insert, insert, refl, if◌then◌else◌, ◌==◌,
  nat_eq, string_eq, int_eq, eq_iff, int_beq_iff, ltb, length, equal_fold, contains, IsDistinct, ℤ,
  lookup,
}
use echo_vault.Keyspace.State.{Scalar, Server, hash, ok, err, entry}
use echo_vault.Keyspace.Access.{put_entry, get_expiry}
use echo_vault.Keyspace.Write.{set_values, max_memory_message}
use echo_vault.Keyspace.Writes.{has_room}
use echo_vault.Keyspace.Laws.{entry-put_entry}
use echo_vault.Commands.Exec.{◌>>=◌, number, store_values}
use echo_vault.Commands.Laws.{
  IsLive, Rewrites, after_read, key_exists-live, value_of-live, store_values-Rewrites,
  Rewrites-after_read, entry-after_read, store_values-full,
}
use echo_vault.Commands.Numbers.{Number, whole, fraction, adapt_type}
use echo_vault.Commands.Hashes.{
  Fields, is_nil, given_fields, keep_missing, delete_fields, handle_hset, handle_hdel, store_hash,
  merge_into, write_hash,
}
use echo_vault.Commands.Hashes.Fields.{
  keys_of, given_or_kept, lookup-keep_missing, delete_fields_lem,
}

-- The arguments of HSET for a list of fields with their values.
abbrev pub words : List (String × String) → List String
words [] = []
words ((f, v) ∷ given) = f ∷ v ∷ words given

-- the value that is given last for a field
abbrev pub last_value : String → List (String × String) → Option String
last_value x [] = none
last_value x ((f, v) ∷ given) = elim (last_value x given) [
  | some w ↦ some w
  | none ↦ if f == x then some v else none
]

lookup-given_fields :
    (adapt : String → Scalar) (given : List (String × String)) (m : Fields) (x : String)
    → lookup x (given_fields adapt (words given) m)
      ≡ elim (last_value x given) [ none ↦ lookup x m | some v ↦ some (adapt v) ]
unfolding given_fields
lookup-given_fields adapt [] m x = refl
lookup-given_fields adapt ((f, v) ∷ given) m x =
    ground (
      arith,
      lookup-given_fields adapt given (insert f (adapt v) m) x,
      lookup-insert f (adapt v) m x,
    )

even_words : (given : List (String × String)) → (length (words given) % 2 == 0) ≡ true
even_words [] = refl
even_words ((f, v) ∷ given) = ground (arith, even_words given)

adapted : (parse : String → Option Number) (v : String) → is_nil (some (adapt_type parse v)) ≡ false
adapted parse v = elim (Option-cases (parse v)) [
  | inl none_read ↦ rw (none_read, is_nil)
  | inr (whole i, read) ↦ rw (read, is_nil)
  | inr (fraction x, read) ↦ rw (read, is_nil)
]

-- HSET on a live hash, with any list of one field or more, each with a value, when there is room for a write: under the
-- key, with its expiry time, is then a hash that has for each field the value that the text given last for it is taken
-- for, or the value of before if none is given; no other key changes. The reply is the number of all
-- fields of the hash, not of those given.
pub handle_hset-Rewrites :
    (parse : String → Option Number) (db : ℤ) (word key f v : String)
    (given : List (String × String)) (h : Fields) (t : Option ℕ) (s : Server)
    → IsLive db key (hash h) t s
    → IsDistinct (keys_of h)
    → equal_fold word "hsetnx" ≡ false
    → has_room s ≡ true
    → (h' : Fields) × (s' : Server) × (handle_hset parse db (word ∷ key ∷ words ((f, v) ∷ given)) s
        ≡ (ok (number (length h')), s'))
      × Rewrites db key s (hash h') s'
      × ((x : String)
          → lookup x h' ≡ elim (last_value x ((f, v) ∷ given)) [
            | none ↦ lookup x h
            | some w ↦ some (adapt_type parse w)
          ])
unfolding handle_hset merge_into store_hash
handle_hset-Rewrites parse db word key f v given h t s live d hset room =
    let all = (f, v) ∷ given in
    let entries = given_fields (adapt_type parse) (words all) [] in
    let h' = keep_missing h entries in
    let s1 = after_read db (key ∷ []) s in
    let (done, r) = store_values-Rewrites db key s1 (hash h') room tt in
    let enough : ltb (length (word ∷ key ∷ words all)) 4 ≡ false = ground arith in
    (
      h',
      (set_values db ((key, hash h') ∷ []) s1).0,
      rw (
        enough,
        key_exists-live db key s live,
        even_words all,
        value_of-live db key s live,
        hset,
        done,
      ),
      Rewrites-after_read db key s (key ∷ []) r,
      λ x.
          lookup-keep_missing h entries x d
          ∙ kept x (last_value x all) (lookup-given_fields (adapt_type parse) all [] x),
    )
  where
    kept :
        (x : String) (o : Option String) {g : Option Scalar}
        → g ≡ elim o [ none ↦ lookup {V = Scalar} x [] | some w ↦ some (adapt_type parse w) ]
        → given_or_kept g (lookup x h)
          ≡ elim o [ none ↦ lookup x h | some w ↦ some (adapt_type parse w) ]
    kept x none e = ground (arith, e, lookup-nil {V = Scalar} x)
    kept x (some w) e = rw (e, adapted parse w)

module _ (db : ℤ) (word key f : String) (fs : List String) (h : Fields) (t : Option ℕ) (s : Server)
    (live : IsLive db key (hash h) t s) where
  -- the server in which HDEL has changed the map
  changed : Server
  changed =
      put_entry db key (record { value = hash (delete_fields (f ∷ fs) h).0; expire_at = t })
        (after_read db (key ∷ []) s)

  expiry_before : get_expiry (after_read db (key ∷ []) s) db key ≡ t
  unfolding get_expiry
  expiry_before = ground (arith, entry-after_read db (key ∷ []) s db key, live.found)

  entry-changed :
      (db' : ℤ) (key' : String)
      → entry changed db' key' ≡ (
          if db == db' && key == key'
          then some (record { value = hash (delete_fields (f ∷ fs) h).0; expire_at = t })
          else entry s db' key')
  unfolding changed
  entry-changed db' key' =
      entry-put_entry db key (record { value = hash (delete_fields (f ∷ fs) h).0; expire_at = t })
        (after_read db (key ∷ []) s) db' key'
      ∙ ground (arith, entry-after_read db (key ∷ []) s db' key')

  get_expiry-changed : get_expiry changed db key ≡ t
  unfolding get_expiry
  get_expiry-changed = ground (arith, entry-changed db key, int_beq_iff db db, eq_iff key key)

  hdel-live :
      handle_hdel db (word ∷ key ∷ f ∷ fs) s
      ≡ (store_values db ((key, hash (delete_fields (f ∷ fs) h).0) ∷ []) >>= λ _ s'.
            (ok (number (delete_fields (f ∷ fs) h).1), s'))
          changed
  unfolding handle_hdel write_hash store_hash changed
  hdel-live =
      let enough : ltb (length (word ∷ key ∷ f ∷ fs)) 3 ≡ false = ground arith in
      rw (enough, key_exists-live db key s live, value_of-live db key s live, expiry_before)

-- HDEL on a live hash, with at least one field: the fields given whose value is not nil go, and the others keep
-- their values; no other key changes, and the expiry time stays. With room for a write the reply is the number of
-- fields that went. Without room it is the error of a full memory, and the fields are gone all the same.
pub handle_hdel-entry :
    (db : ℤ) (word key f : String) (fs : List String) (h : Fields) (t : Option ℕ) (s : Server)
    → IsLive db key (hash h) t s
    → IsDistinct (keys_of h)
    → (h' : Fields) × (n : ℕ) × ((handle_hdel db (word ∷ key ∷ f ∷ fs) s).0
        ≡ (if has_room s then ok (number n) else err max_memory_message))
      × ((db' : ℤ) (key' : String)
          → entry (handle_hdel db (word ∷ key ∷ f ∷ fs) s).1 db' key' ≡ (
              if db == db' && key == key'
              then some (record { value = hash h'; expire_at = t })
              else entry s db' key'))
      × (length h' + n ≡ length h)
      × ((x : String)
          → lookup x h'
            ≡ (if contains (f ∷ fs) x && not (is_nil (lookup x h)) then none else lookup x h))
unfolding put_entry
handle_hdel-entry db word key f fs h t s live d =
    let s1 = changed db word key f fs h t s live in
    let v = hash (delete_fields (f ∷ fs) h).0 in
    let run = hdel-live db word key f fs h t s live in
    let look = entry-changed db word key f fs h t s live in
    let rest = delete_fields_lem (f ∷ fs) h d in
    elim (Bool-cases (has_room s)) [
      | inl room ↦
          let (done, r) = store_values-Rewrites db key s1 v (unfold changed in room) tt in
          (
            (delete_fields (f ∷ fs) h).0,
            (delete_fields (f ∷ fs) h).1,
            rw (run, room, done),
            rw (run, done)
                (λ db' key'. ground (
                  arith,
                  look db' key',
                  r.look db' key',
                  int_beq_iff db db',
                  eq_iff key key',
                  get_expiry-changed db word key f fs h t s live,
                )),
            rest.0,
            rest.1,
          )
      | inr full ↦
          let refused = store_values-full db key v s1 tt (unfold changed in full) in
          (
            (delete_fields (f ∷ fs) h).0,
            (delete_fields (f ∷ fs) h).1,
            rw (run, full, refused),
            rw (run, refused) look,
            rest.0,
            rest.1,
          )
    ]
