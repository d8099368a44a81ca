-- ===== src/Commands/Strings/Laws.antt =====
-- internal/modules/string/commands.go: APPEND to a key that is missing, and again.
use echo_vault.Base.{
  ◌≡◌, refl, String, true, Option, some, none, [], ◌∷◌, arith, string_eq, int_eq, eq_iff,
  int_beq_iff, size, ℤ,
}
use echo_vault.Keyspace.State.{Server, Value, scalar, integer, ok, err, entry}
use echo_vault.Keyspace.Access.{get_expiry}
use echo_vault.Keyspace.Write.{set_values}
use echo_vault.Keyspace.Writes.{has_room}
use echo_vault.Commands.Numbers.{Number, whole, adapt_type}
use echo_vault.Commands.Exec.{number}
use echo_vault.Commands.Laws.{
  IsLive, Rewrites, key_exists-live, value_of-live, store_values-Rewrites, key_exists-absent,
}
use echo_vault.Commands.Strings.{handle_append, not_a_string}

-- A write to a key that is missing leaves it live, with no expiry time.
IsLive-Rewrites :
    (db : ℤ) (key : String) (v : Value) (s s' : Server)
    → entry s db key ≡ none
    → Rewrites db key s v s'
    → IsLive db key v none s'
unfolding get_expiry
IsLive-Rewrites db key v s s' gone r = record {
  found = ground (arith, r.look db key, int_beq_iff db db, eq_iff key key, gone);
  current = refl;
}

-- APPEND to a key that is missing, with a text that is a whole number, when there is room for a write: the reply
-- is the size of the text, and the key then holds the number. A second APPEND to the key, of any text, is refused,
-- because the value is not a string.
pub handle_append-twice :
    (parse : String → Option Number) (db : ℤ) (word key a b : String) (i : ℤ) (s : Server)
    → entry s db key ≡ none
    → has_room s ≡ true
    → parse a ≡ some (whole i)
    → (s' : Server) × (handle_append parse db (word ∷ key ∷ a ∷ []) s ≡ (ok (number (size a)), s'))
      × (entry s' db key ≡ some (record { value = scalar (integer i); expire_at = none }))
      × ((handle_append parse db (word ∷ key ∷ b ∷ []) s').0
          ≡ err (not_a_string "Value at key " key))
unfolding handle_append
handle_append-twice parse db word key a b i s gone room given =
    let adapted : adapt_type parse a ≡ integer i = rw (given, adapt_type) refl in
    let (done, r) = store_values-Rewrites db key s (scalar (integer i)) room tt in
    let s' = (set_values db ((key, scalar (integer i)) ∷ []) s).0 in
    let live = IsLive-Rewrites db key (scalar (integer i)) s s' gone r in
    (
      s',
      rw (key_exists-absent db key s gone, adapted, done),
      live.found,
      rw (key_exists-live db key s' live, value_of-live db key s' live),
    )
