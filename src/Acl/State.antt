-- ===== src/Acl/State.antt =====
-- internal/modules/acl/acl.go: the state of the access rules, and the operations that change it; from
-- commands.go, ACL SETUSER, DELUSER and LOAD. A `*User` is an address; a connection is its number.
use echo_vault.Base.{
  ℕ, suc, ◌+◌, String, Bool, true, false, not, ◌&&◌, ◌||◌, Option, none, some, List, [], ◌∷◌, ◌++◌,
  if◌then◌else◌, ◌==◌, nat_eq, string_eq, ltb, length, contains, any, delete_func, equal_fold,
  Assoc, insert, drop, str_append,
}
use echo_vault.Keyspace.State.{Result, ok, err, panic}
use echo_vault.Commands.Exec.{arg, wrong_args}
use echo_vault.Acl.User.{
  User, Password, plain_text, sha256, create_user, get_password_type, normalise, update_user, merge,
  replace,
}

-- github.com/gobwas/glob: the patterns that `MustCompile` accepts, and the texts that one matches.
pub record Glob : Type 0 where
  pub compiles : String → Bool
  pub matches : String → String → Bool

-- `Connection`
pub record Connection : Type 0 where
  pub authenticated : Bool
  pub user : ℕ

-- `ACL`, with the memory of its users. `closed` lists the connections that `DeleteUser` ends, and
-- `globs` the patterns that are compiled.
pub record Acl : Type 0 where
  pub cell : ℕ → User
  pub next : ℕ
  pub users : List ℕ
  pub connections : Assoc ℕ Connection
  pub require_pass : Bool
  pub globs : List String
  pub closed : List ℕ

-- `*p = u`
unfoldable pub put : ℕ → User → Acl → Acl
put p u a = record a { cell = λ q. if q == p then u else a.cell q }

-- `acl.Users = append(acl.Users, &u)`
unfoldable pub append_user : User → Acl → Acl
append_user u a = record a {
  cell = λ q. if q == a.next then u else a.cell q;
  next = a.next + 1;
  users = a.users ++ a.next ∷ [];
}

-- the patterns of a user that `CompileGlobs` collects
unfoldable pub user_globs : User → List String
user_globs u =
    ((u.included_pubsub_channels ++ u.excluded_pubsub_channels) ++ u.included_read_keys)
    ++ u.included_write_keys

unfoldable pub add_globs : List String → List String → List String
add_globs [] all_globs = all_globs
add_globs (g ∷ gs) all_globs =
    add_globs gs (if contains all_globs g then all_globs else all_globs ++ g ∷ [])

unfoldable pub collect_globs : (ℕ → User) → List ℕ → List String → List String
unfolding user_globs add_globs
collect_globs cell [] all_globs = all_globs
collect_globs cell (p ∷ ps) all_globs =
    collect_globs cell ps (add_globs (user_globs (cell p)) all_globs)

module _ (glob : Glob) where
  -- the second loop of `CompileGlobs`; `none` is the panic of `MustCompile`
  unfoldable pub compile_each : List String → List String → Option (List String)
  compile_each [] globs = some globs
  compile_each (g ∷ gs) globs =
      let known = compile_each gs globs in
      let compiled = compile_each gs (globs ++ g ∷ []) in
      if contains globs g then known else if glob.compiles g then compiled else none

  -- `CompileGlobs`
  unfoldable pub compile_globs : Acl → Result Acl
  unfolding compile_each collect_globs
  compile_globs a = elim (compile_each (collect_globs a.cell a.users []) a.globs) [
    | none ↦ panic
    | some globs ↦ ok (record a { globs = globs })
  ]

-- the first user with the name, in the order of the list
unfoldable pub find_user : (ℕ → User) → String → List ℕ → Option ℕ
find_user cell name [] = none
find_user cell name (p ∷ ps) = if (cell p).username == name then some p else find_user cell name ps

-- `RegisterConnection`
unfoldable pub register_connection : ℕ → Acl → Result Acl
register_connection conn a = elim (find_user a.cell "default" a.users) [
  | none ↦ panic
  | some p ↦ ok (record a {
    connections =
        insert conn (record { authenticated = (a.cell p).no_password; user = p }) a.connections;
  })
]

-- the default user of `NewACL`
unfoldable pub default_user : Bool → String → Option User
default_user require_pass password =
    if require_pass
    then elim (get_password_type password) [
      | none ↦ none
      | some kind ↦ some (record (create_user "default") {
        no_password = false;
        passwords = record { password_type = kind; password_value = password } ∷ [];
      })
    ]
    else some (create_user "default")

-- the users of `NewACL`, in normal form, at the addresses from `i` on
unfoldable pub numbered : ℕ → List User → ℕ → User
unfolding normalise
numbered i [] q = create_user ""
numbered i (u ∷ us) q = let rest = numbered (suc i) us q in if q == i then normalise u else rest

unfoldable pub addresses : ℕ → List User → List ℕ
addresses i [] = []
addresses i (u ∷ us) = i ∷ addresses (suc i) us

module _ (glob : Glob) where
  -- `SetUser`, where `cmd` is the name and the rules; an empty text panics
  unfoldable pub set_user : String → List String → Acl → Result Acl
  unfolding compile_globs put append_user
  set_user name rules a = elim (find_user a.cell name a.users) [
    | some p ↦ elim (update_user (name ∷ rules) (a.cell p)) [
      | none ↦ panic
      | some u ↦ compile_globs glob (put p u a)
    ]
    | none ↦ elim (update_user (name ∷ rules) (create_user name)) [
      | none ↦ panic
      | some u ↦ compile_globs glob (append_user (normalise u) a)
    ]
  ]

  -- `NewACL`, with the users that are read from the file
  unfoldable pub new_acl : Bool → String → List User → Result Acl
  unfolding compile_globs default_user numbered addresses
  new_acl require_pass password loaded = elim (default_user require_pass password) [
    | none ↦ panic
    | some d ↦
        let users = if any (λ u. u.username == "default") loaded then loaded else d ∷ loaded in
        compile_globs glob (record {
          cell = numbered 0 users;
          next = length users;
          users = addresses 0 users;
          connections = [];
          require_pass = require_pass;
          globs = [];
          closed = [];
        })
  ]

-- the last user with the name, or `user` where there is none
unfoldable pub last_user : (ℕ → User) → String → List ℕ → Option ℕ → Option ℕ
last_user cell name [] user = user
last_user cell name (p ∷ ps) user =
    last_user cell name ps (if name == (cell p).username then some p else user)

-- the connections that belong to a user of this name
unfoldable pub connected : (ℕ → User) → String → Assoc ℕ Connection → List ℕ
connected cell name [] = []
connected cell name ((conn, c) ∷ rest) =
    let others = connected cell name rest in
    if (cell c.user).username == name then conn ∷ others else others

-- the end of a round of `DeleteUser`
unfoldable pub drop_user : ℕ → Acl → Acl
unfolding connected
drop_user p a =
    let name = (a.cell p).username in
    record a {
      closed = a.closed ++ connected a.cell name a.connections;
      users = delete_func (λ q. (a.cell q).username == name) a.users;
    }

-- the loop of `DeleteUser`; `user` stays from one round to the next
unfoldable pub delete_each : List String → Option ℕ → Acl → Acl
unfolding last_user drop_user
delete_each [] user a = a
delete_each (name ∷ names) user a =
    let skipped = delete_each names user a in
    let found = last_user a.cell name a.users user in
    let done : Acl = elim found [
      | none ↦ delete_each names none a
      | some p ↦ delete_each names (some p) (drop_user p a)
    ] in
    if name == "default" then skipped else done

-- `DeleteUser`
unfoldable pub delete_user : List String → Acl → Acl
delete_user usernames a = delete_each usernames none a

-- a user that AUTH is checked against, and the password
abbrev pub auth_user : List String → Acl → Result (ℕ × String)
auth_user (name ∷ password ∷ []) a = elim (find_user a.cell "default" a.users) [
  | none ↦ panic
  | some p ↦ ok (p, password)
]
auth_user (name ∷ user ∷ password ∷ []) a = elim (find_user a.cell user a.users) [
  | none ↦ err (str_append "no user with username " user)
  | some p ↦ ok (p, password)
]
auth_user cmd a = panic

module _ (sha256_hex : String → String) where
  -- the loops over the passwords of the user and the two forms of the password given
  unfoldable pub password_fits : User → String → List Password → Bool
  password_fits u password [] = false
  password_fits u password (p ∷ ps) =
      (p.password_type == plain_text && p.password_value == password && u.enabled)
      || (p.password_type == sha256 && p.password_value == sha256_hex password && u.enabled)
      || password_fits u password ps

  -- `AuthenticateConnection`
  unfoldable pub authenticate_connection : ℕ → List String → Acl → Result Acl
  unfolding password_fits find_user
  authenticate_connection conn cmd a = elim (auth_user cmd a) [
    | panic ↦ panic
    | err e ↦ err e
    | ok (p, password) ↦
        let u = a.cell p in
        let signed_in = record a {
          connections = insert conn (record { authenticated = true; user = p }) a.connections;
        } in
        if not u.enabled
        then err (str_append "user " (str_append u.username " is disabled"))
        else if u.no_password
        then ok signed_in
        else if password_fits u password u.passwords
        then ok signed_in
        else err "could not authenticate user"
  ]

-- `handleLoad`, after the file is read: one user of the file. No pattern is compiled.
unfoldable pub load_user : Bool → User → Acl → Acl
unfolding put append_user
load_user merging u a =
    let new = normalise u in
    elim (find_user a.cell new.username a.users) [
      | none ↦ append_user new a
      | some p ↦ put p (if merging then merge new (a.cell p) else replace new (a.cell p)) a
    ]

unfoldable pub load_users : Bool → List User → Acl → Acl
unfolding load_user
load_users merging [] a = a
load_users merging (u ∷ us) a = load_users merging us (load_user merging u a)

-- `handleLoad`; `file` is what the decoder gives
unfoldable pub handle_load : List String → Result (List User) → Acl → Result Acl
unfolding load_users
handle_load cmd file a =
    if length cmd == 3
    then elim file [
      | panic ↦ panic
      | err e ↦ err e
      | ok users ↦ ok (load_users (equal_fold (arg cmd 2) "merge") users a)
    ]
    else err wrong_args

-- `handleSetUser`; a command with no name panics
unfoldable pub handle_set_user : Glob → List String → Acl → Result Acl
unfolding set_user
handle_set_user glob cmd a = elim (drop 2 cmd) [
  | [] ↦ panic
  | name ∷ rules ↦ set_user glob name rules a
]

-- `handleDelUser`
unfoldable pub handle_del_user : List String → Acl → Result Acl
handle_del_user cmd a =
    if ltb (length cmd) 3 then err wrong_args else ok (delete_user (drop 2 cmd) a)
