-- ===== src/Commands/Laws.antt =====
-- What the actions of the handlers do on a key that is there and has not expired.
use echo_vault.Base.{
  ℕ, ◌≡◌, refl, String, true, false, ◌&&◌, Option, some, none, List, [], ◌∷◌, ◌++◌, arith,
  if◌then◌else◌, ◌==◌, string_eq, int_eq, eq_iff, int_beq_iff, ℤ, insert, lookup-insert,
}
use echo_vault.Keyspace.State.{Server, Value, ok, err, entry, expired}
use echo_vault.Keyspace.Access.{keys_exist, read_keys, get_values, get_expiry}
use echo_vault.Keyspace.Write.{set_values, max_memory_message}
use echo_vault.Keyspace.Writes.{has_room, IsSupported, set_values-entry}
use echo_vault.Commands.Exec.{key_exists, value_of, values_of, store_values}

-- The key is in the store, with this value and expiry time, and has not expired.
pub record IsLive (db : ℤ) (key : String) (v : Value) (t : Option ℕ) (s : Server) : Type 0 where
  pub found : entry s db key ≡ some (record { value = v; expire_at = t })
  pub current : expired s.now (record { value = v; expire_at = t }) ≡ false

-- The server after a read: the update of the caches is still to come.
abbrev pub after_read : ℤ → List String → Server → Server
after_read db keys s = record s { tasks = s.tasks ++ record { database = db; keys = keys } ∷ [] }

module _ (db : ℤ) (key : String) (s : Server) where
  pub key_exists-live :
      {v : Value} {t : Option ℕ} → IsLive db key v t s → key_exists db key s ≡ (ok true, s)
  unfolding key_exists keys_exist insert
  key_exists-live live = ground (arith, lookup-insert key true [] key, eq_iff key key, live.found)

  pub value_of-live :
      {v : Value} {t : Option ℕ}
      → IsLive db key v t s
      → value_of db key s ≡ (ok v, after_read db (key ∷ []) s)
  unfolding value_of values_of get_values read_keys
  value_of-live {v} live =
      ground (arith, lookup-insert key v [] key, eq_iff key key, live.found, live.current)

  -- The store after a write of one key: the value, under the expiry time of before; all else is kept.
  pub record Rewrites (v : Value) (s' : Server) : Type 0 where
    pub look :
        (db' : ℤ) (key' : String)
        → entry s' db' key' ≡ (
            if db == db' && key == key'
            then some (record { value = v; expire_at = get_expiry s db key })
            else entry s db' key')

  pub store_values-Rewrites :
      (v : Value)
      → has_room s ≡ true
      → IsSupported v
      → (store_values db ((key, v) ∷ []) s ≡ (ok tt, (set_values db ((key, v) ∷ []) s).0))
        × Rewrites v (set_values db ((key, v) ∷ []) s).0
  unfolding store_values
  store_values-Rewrites v room known =
      let (done, look) = (set_values-entry db ((key, v) ∷ []) s (known, tt)).0 room in
      (
        ground (arith, done),
        record {
          look = λ db' key'. ground (arith, look db' key', int_beq_iff db db', eq_iff key key');
        },
      )

module _ (db : ℤ) (key : String) (s : Server) where
  -- A write after a read is a write.
  pub Rewrites-after_read :
      (keys : List String) {v : Value} {s' : Server}
      → Rewrites db key (after_read db keys s) v s'
      → Rewrites db key s v s'
  unfolding entry get_expiry
  Rewrites-after_read keys r = record { look = r.look }

pub entry-after_read :
    (db : ℤ) (keys : List String) (s : Server) (db' : ℤ) (key : String)
    → entry (after_read db keys s) db' key ≡ entry s db' key
unfolding entry
entry-after_read db keys s db' key = refl

-- Without room a write is refused, and nothing changes.
pub store_values-full :
    (db : ℤ) (key : String) (v : Value) (s : Server)
    → IsSupported v
    → has_room s ≡ false
    → store_values db ((key, v) ∷ []) s ≡ (err max_memory_message, s)
unfolding store_values
store_values-full db key v s known full =
    let refused = (set_values-entry db ((key, v) ∷ []) s (known, tt)).1 full in rw refused

-- A key that is missing.
pub key_exists-absent :
    (db : ℤ) (key : String) (s : Server)
    → entry s db key ≡ none
    → key_exists db key s ≡ (ok false, s)
unfolding key_exists keys_exist insert
key_exists-absent db key s gone =
    ground (arith, lookup-insert key false [] key, eq_iff key key, gone)
