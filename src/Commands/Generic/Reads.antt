-- ===== src/Commands/Generic/Reads.antt =====
-- internal/modules/generic/commands.go: what GET, GETEX and TYPE read, and what they leave.
use echo_vault.Base.{
  ◌≡◌, refl, String, true, false, some, List, [], ◌∷◌, arith, inl, inr, Option-cases, if◌then◌else◌,
  ◌==◌, string_eq, ℤ, to_upper,
}
use echo_vault.Keyspace.State.{Server, KeyData, ok, panic, entry, expired}
use echo_vault.Keyspace.Laws.{shows}
use echo_vault.Commands.Numbers.{Formats, print_value}
use echo_vault.Commands.Exec.{simple, null_bulk}
use echo_vault.Commands.Steady.{IsSteady, Leads}
use echo_vault.Commands.Steady.Reads.{read_view, value_of-Leads, Leads-refl}
use echo_vault.Commands.Generic.{handle_get, handle_type}
use echo_vault.Commands.Generic.Expiry.{handle_getex}
use echo_vault.Commands.Generic.Laws.{is_there, key_exists-entry, value_of-live_Leads}

-- GET on a standalone server without caches whose memory is not limited: a key that is not there is answered with a null, any other key with the print
-- of its visible value, which for an expired key is the print of no value; an expired key is then gone, and every other entry is as
-- it was.
pub handle_get-Leads :
    (fmt : Formats) (db : ℤ) (word key : String) (s : Server)
    → IsSteady s
    → (s' : Server) × (handle_get fmt db (word ∷ key ∷ []) s ≡ (
      ok (
          if is_there (entry s db key)
          then simple (print_value fmt s' (shows s db key))
          else null_bulk),
      s',
    ))
      × Leads s (read_view s db key) s'
unfolding handle_get
handle_get-Leads fmt db word key s steady = elim (Option-cases (entry s db key)) [
  | inl gone ↦
      rw (gone, read_view) (s, ground (arith, key_exists-entry db key s, gone), Leads-refl s steady)
  | inr (d, found) ↦
      let (s', seen, step) = value_of-Leads db key s steady in
      (s', ground (arith, key_exists-entry db key s, found, seen), step)
]

-- TYPE of a key that has expired, on a standalone server without caches whose memory is not limited,
-- panics.
pub handle_type_panics :
    (fmt : Formats) (db : ℤ) (word key : String) (d : KeyData) (s : Server)
    → IsSteady s
    → entry s db key ≡ some d
    → expired s.now d ≡ true
    → (handle_type fmt db (word ∷ key ∷ []) s).0 ≡ panic
unfolding handle_type shows
handle_type_panics fmt db word key d s steady found old =
    let (s', seen, step) = value_of-Leads db key s steady in
    ground (arith, key_exists-entry db key s, found, old, seen)

-- GETEX with the option PERSIST, of a key that has not expired, on a standalone server without caches whose
-- memory is not limited: the reply is the print of the value, and every entry is as it was, so that the key keeps
-- its expiry time.
pub handle_getex_keeps :
    (fmt : Formats) (print_command : List String → String) (db : ℤ) (key : String) (d : KeyData)
    (s : Server)
    → IsSteady s
    → entry s db key ≡ some d
    → expired s.now d ≡ false
    → (s' : Server) × (handle_getex fmt print_command db ("GETEX" ∷ key ∷ "PERSIST" ∷ []) s
        ≡ (ok (simple (print_value fmt s' d.value)), s'))
      × Leads s (entry s) s'
unfolding handle_getex
handle_getex_keeps fmt print_command db key d s steady found fresh =
    let (s', seen, step) = value_of-live_Leads db key d s steady found fresh in
    let upper : (to_upper "PERSIST" == "persist") ≡ false = unfold to_upper in refl in
    (s', ground (arith, key_exists-entry db key s, found, seen, upper), step)
