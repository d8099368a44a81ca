-- ===== src/Tests/Hashes.antt =====
-- internal/modules/hash on a server with one hash.
use echo_vault.Base.{
  equal_fold, ℕ, ◌+◌, ◌≡◌, refl, String, not, ◌&&◌, some, none, [], ◌∷◌, if◌then◌else◌, ◌==◌,
  nat_eq, string_eq, int_eq, contains, equal_fold, length, ℤ, pos, lookup, IsDistinct,
}
use echo_vault.Keyspace.State.{Server, hash, text, integer, ok, err, entry}
use echo_vault.Keyspace.Write.{max_memory_message}
use echo_vault.Keyspace.Writes.{has_room}
use echo_vault.Commands.Exec.{number, cells, null_cell, text_cell, integer_cell}
use echo_vault.Commands.Laws.{IsLive, Rewrites, key_exists-live, value_of-live}
use echo_vault.Commands.Numbers.{adapt_type}
use echo_vault.Commands.Hashes.{Fields, is_nil, handle_hset, handle_hdel}
use echo_vault.Commands.Hashes.Values.{handle_hget}
use echo_vault.Commands.Hashes.Fields.{keys_of}
use echo_vault.Commands.Hashes.Laws.{words, last_value, handle_hset-Rewrites, handle_hdel-entry}
use echo_vault.Tests.Keyspace.{server}

abbrev ann : Fields
ann = ("name", text "ann") ∷ ("age", integer (pos 40)) ∷ []

abbrev with_hash : Server
with_hash = record server {
  store = (pos 0, ("h", record { value = hash ann; expire_at = none }) ∷ []) ∷ [];
}

h-IsLive : IsLive (pos 0) "h" (hash ann) none with_hash
unfolding entry lookup
h-IsLive = record { found = refl; current = refl }

ann-IsDistinct : IsDistinct (keys_of ann)
unfolding contains
ann-IsDistinct = (refl, (refl, tt))

hget_run :
    (handle_hget (λ f. "") (pos 0) ("HGET" ∷ "h" ∷ "age" ∷ "town" ∷ "name" ∷ []) with_hash).0
    ≡ ok (cells 3 (integer_cell (pos 40) ∷ null_cell ∷ text_cell "ann" ∷ []))
unfolding handle_hget lookup
hget_run =
    rw
      (key_exists-live (pos 0) "h" with_hash h-IsLive, value_of-live (pos 0) "h" with_hash h-IsLive)

handle_hset-Rewrites_example :
    (h' : Fields) × (s' : Server) × (handle_hset
        (λ s. none)
        (pos 0)
        ("HSET" ∷ "h" ∷ words (("town", "x") ∷ ("age", "41") ∷ []))
        with_hash
      ≡ (ok (number (length h')), s'))
    × Rewrites (pos 0) "h" with_hash (hash h') s'
    × ((x : String)
        → lookup x h' ≡ elim (last_value x (("town", "x") ∷ ("age", "41") ∷ [])) [
          | none ↦ lookup x ann
          | some w ↦ some (adapt_type (λ s. none) w)
        ])
unfolding equal_fold
handle_hset-Rewrites_example =
    handle_hset-Rewrites (λ s. none) (pos 0) "HSET" "h" "town" "x" (("age", "41") ∷ []) ann none
      with_hash h-IsLive ann-IsDistinct refl refl

handle_hdel-entry_example :
    (h' : Fields) × (n : ℕ) × ((handle_hdel
        (pos 0)
        ("HDEL" ∷ "h" ∷ "age" ∷ "town" ∷ [])
        with_hash).0
      ≡ (if has_room with_hash then ok (number n) else err max_memory_message))
    × ((db' : ℤ) (key' : String)
        → entry (handle_hdel (pos 0) ("HDEL" ∷ "h" ∷ "age" ∷ "town" ∷ []) with_hash).1 db' key' ≡ (
            if pos 0 == db' && "h" == key'
            then some (record { value = hash h'; expire_at = none })
            else entry with_hash db' key'))
    × (length h' + n ≡ 2)
    × ((x : String)
        → lookup x h' ≡ (
            if contains ("age" ∷ "town" ∷ []) x && not (is_nil (lookup x ann))
            then none
            else lookup x ann))
handle_hdel-entry_example =
    handle_hdel-entry (pos 0) "HDEL" "h" "age" ("town" ∷ []) ann none with_hash h-IsLive
      ann-IsDistinct
