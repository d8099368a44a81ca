-- ===== src/Tests/Acl.antt =====
-- internal/modules/acl on a server with the default user and one more.
use echo_vault.Base.{
  ℕ, ◌≡◌, refl, String, true, false, ◌||◌, Option, some, none, List, [], ◌∷◌, arith, if◌then◌else◌,
  ◌==◌, nat_eq, string_eq, contains, any, all, equal_fold, lookup, take_text, drop_text,
  delete_func,
}
use echo_vault.Keyspace.State.{Result, ok}
use echo_vault.Commands.Exec.{Keys}
use echo_vault.Acl.User.{User, create_user, update_user, plain_text}
use echo_vault.Acl.State.{Glob, Acl, find_user, set_user, authenticate_connection, user_globs}
use echo_vault.Acl.Authorize.{Command, authorize_connection}
use echo_vault.Acl.Rights.{verdict, permitted, SignedIn, HasGlobs, authorize_connection-permitted}
use echo_vault.Acl.Globs.{AllCompiled, set_user-AllCompiled}
use echo_vault.Acl.Revocation.{set_user-nocommands}
use echo_vault.Acl.Passwords.{sign_in, authenticate_connection-accepts}

-- patterns without wildcards, and `*`
abbrev plain_globs : Glob
plain_globs = record { compiles = λ g. true; matches = λ g x. g == "*" || g == x }

abbrev bob : User
bob = record (create_user "bob") {
  passwords = record { password_type = plain_text; password_value = "pw" } ∷ [];
  included_categories = "*" ∷ [];
  included_commands = "*" ∷ [];
  included_read_keys = "k" ∷ [];
}

abbrev two_users : Acl
two_users = record {
  cell = λ p. if p == 0 then create_user "default" else if p == 1 then bob else create_user "";
  next = 2;
  users = 0 ∷ 1 ∷ [];
  connections = (5, record { authenticated = true; user = 1 }) ∷ [];
  require_pass = true;
  globs = "k" ∷ [];
  closed = [];
}

abbrev get_keys : Keys
get_keys = record { channels = []; read_keys = "k" ∷ []; write_keys = [] }

abbrev get : Command
get = record { name = "get"; categories = "read" ∷ []; key_func = λ cmd. ok get_keys }

signed_in : SignedIn 5 1 two_users
signed_in = record { found = unfold lookup in refl }

two_users-AllCompiled : AllCompiled plain_globs two_users
unfolding user_globs contains
two_users-AllCompiled = record { every = λ p g h. ground arith }

bob-HasGlobs : HasGlobs plain_globs ("k" ∷ []) bob
unfolding contains
bob-HasGlobs = record {
  channels = λ g h. cc;
  hidden_channels = λ g h. cc;
  read_keys = λ g h. h;
  write_keys = λ g h. cc;
}

authorize_connection-permitted_example :
    verdict (authorize_connection plain_globs 5 ("GET" ∷ "k" ∷ []) get none two_users)
    ≡ some (permitted plain_globs bob "get" ("read" ∷ []) get_keys)
unfolding equal_fold
authorize_connection-permitted_example =
    authorize_connection-permitted plain_globs 5 1 ("GET" ∷ "k" ∷ []) get none get_keys get_keys
      two_users refl signed_in bob-HasGlobs refl refl refl

get_allowed : permitted plain_globs bob "get" ("read" ∷ []) get_keys ≡ true
unfolding permitted contains any all
get_allowed = refl

abbrev acl_of : Result Acl → Acl
acl_of (ok a) = a
acl_of _ = two_users

abbrev more_keys : List String
more_keys = "%R~other" ∷ []

abbrev revoked : List String
revoked = "+get" ∷ "NoCommands" ∷ []

set_user-AllCompiled_example :
    AllCompiled plain_globs (acl_of (set_user plain_globs "bob" more_keys two_users))
unfolding set_user find_user update_user equal_fold contains any take_text drop_text delete_func
set_user-AllCompiled_example =
    set_user-AllCompiled plain_globs "bob" more_keys two_users
      (acl_of (set_user plain_globs "bob" more_keys two_users)) two_users-AllCompiled refl

set_user-nocommands_example :
    verdict (
      authorize_connection plain_globs 5
        ("GET" ∷ "k" ∷ [])
        get
        none
        (acl_of (set_user plain_globs "bob" revoked two_users)))
    ≡ some false
unfolding set_user find_user update_user equal_fold contains any take_text drop_text delete_func
set_user-nocommands_example =
    set_user-nocommands plain_globs "bob" revoked two_users
      (acl_of (set_user plain_globs "bob" revoked two_users)) 5 1 ("GET" ∷ "k" ∷ []) get none
      get_keys get_keys two_users-AllCompiled refl refl refl refl signed_in refl refl refl

abbrev user_of : Option User → User
user_of (some u) = u
user_of none = bob

abbrev deleted : List String
deleted = "eve" ∷ "bob" ∷ "bob" ∷ []

authenticate_connection-accepts_example :
    (authenticate_connection (λ s. s) 7 ("AUTH" ∷ "bob" ∷ "pw" ∷ []) two_users
      ≡ ok (sign_in 7 1 two_users))
    × ((c : ℕ)
        → lookup c (sign_in 7 1 two_users).connections ≡ (
            if 7 == c
            then some (record { authenticated = true; user = 1 })
            else lookup c two_users.connections))
unfolding find_user any
authenticate_connection-accepts_example =
    authenticate_connection-accepts (λ s. s) 7 1 "AUTH" "bob" "pw" two_users refl

abbrev all_but_get : List String
all_but_get = "*" ∷ "get" ∷ []

abbrev eve : User
eve = record (create_user "eve") { included_read_keys = "e" ∷ [] }
