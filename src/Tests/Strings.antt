-- ===== src/Tests/Strings.antt =====
-- internal/modules/string on a small server.
use echo_vault.Base.{◌≡◌, refl, some, none, [], ◌∷◌, pos, lookup}
use echo_vault.Keyspace.State.{Server, scalar, integer, ok, err, entry}
use echo_vault.Commands.Numbers.{whole}
use echo_vault.Commands.Exec.{number}
use echo_vault.Commands.Strings.{
  handle_append, with_range, overwrite, put_char, not_a_string, reversed_onto,
}
use echo_vault.Commands.Strings.Laws.{handle_append-twice}
use echo_vault.Tests.Keyspace.{server}

with_range_run : with_range (pos 1) "XY" "abcd" ≡ "aXYd"
unfolding with_range overwrite put_char
with_range_run = refl

with_range_over : with_range (pos 3) "XY" "abcd" ≡ "abcXY"
unfolding with_range overwrite put_char
with_range_over = refl

reversed_run : reversed_onto "abc" "" ≡ "cba"
unfolding reversed_onto
reversed_run = refl

handle_append-twice_example :
    (s' : Server) × (handle_append
        (λ t. some (whole (pos 7)))
        (pos 0)
        ("APPEND" ∷ "new" ∷ "7" ∷ [])
        server
      ≡ (ok (number 1), s'))
    × (entry s' (pos 0) "new"
        ≡ some (record { value = scalar (integer (pos 7)); expire_at = none }))
    × ((handle_append (λ t. some (whole (pos 7))) (pos 0) ("APPEND" ∷ "new" ∷ "8" ∷ []) s').0
        ≡ err (not_a_string "Value at key " "new"))
unfolding entry lookup
handle_append-twice_example =
    handle_append-twice (λ t. some (whole (pos 7))) (pos 0) "APPEND" "new" "7" "8" (pos 7) server
      refl refl refl
