-- ===== src/Acl/Passwords.antt =====
-- internal/modules/acl/acl.go, `AuthenticateConnection`: who gets in, and which connection changes.
use echo_vault.Base.{
  ℕ, ◌≡◌, refl, String, Bool, true, ◌&&◌, ◌||◌, some, List, [], ◌∷◌, arith, inl, inr, Bool-cases,
  if◌then◌else◌, ◌==◌, nat_eq, string_eq, any, insert, lookup, lookup-insert, str_append,
}
use echo_vault.Keyspace.State.{ok, err}
use echo_vault.Acl.User.{User, Password, plain_text, sha256}
use echo_vault.Acl.State.{Acl, find_user, password_fits, authenticate_connection}

-- The user is enabled, and needs no password or has this one, as a text or as its hash.
abbrev pub accepts : (String → String) → User → String → Bool
accepts sha256_hex u password =
    u.enabled
    && (u.no_password
        || any
            (λ p.
              p.password_type == plain_text && p.password_value == password
              || p.password_type == sha256 && p.password_value == sha256_hex password)
            u.passwords)

-- The connection is signed in as the user at `p`.
abbrev pub sign_in : ℕ → ℕ → Acl → Acl
sign_in conn p a = record a {
  connections = insert conn (record { authenticated = true; user = p }) a.connections;
}

abbrev pub auth_error : User → String
auth_error u =
    if u.enabled
    then "could not authenticate user"
    else str_append "user " (str_append u.username " is disabled")

module _ (sha256_hex : String → String) where
  password_fits-any :
      (u : User) (password : String) (ps : List Password)
      → u.enabled ≡ true
      → password_fits sha256_hex u password ps
        ≡ any
            (λ p.
              p.password_type == plain_text && p.password_value == password
              || p.password_type == sha256 && p.password_value == sha256_hex password)
            ps
  unfolding password_fits any
  password_fits-any u password [] h = refl
  password_fits-any u password (p ∷ ps) h = ground (arith, password_fits-any u password ps h)

  -- AUTH with a name and a password, where there is a user with the name: if the user is enabled, and
  -- needs no password or has this one, as a text or as its hash, the connection is signed in as that
  -- user, and nothing else changes; if not there is an error, which tells a disabled user from a wrong
  -- password.
  pub authenticate_connection-accepts :
      (conn p : ℕ) (auth name password : String) (a : Acl)
      → find_user a.cell name a.users ≡ some p
      → (authenticate_connection sha256_hex conn (auth ∷ name ∷ password ∷ []) a ≡ (
          if accepts sha256_hex (a.cell p) password
          then ok (sign_in conn p a)
          else err (auth_error (a.cell p))))
        × ((c : ℕ)
            → lookup c (sign_in conn p a).connections ≡ (
                if conn == c
                then some (record { authenticated = true; user = p })
                else lookup c a.connections))
  unfolding authenticate_connection
  authenticate_connection-accepts conn p auth name password a found = (
    elim (Bool-cases (a.cell p).enabled) [
      | inl on ↦
          let same = password_fits-any (a.cell p) password (a.cell p).passwords on in
          ground (arith, found, on, same)
      | inr off ↦ ground (arith, found, off)
    ],
    λ c. lookup-insert conn (record { authenticated = true; user = p }) a.connections c,
  )
