-- ===== src/Acl/Revocation.antt =====
-- internal/modules/acl: what the rules `nocommands`, `nokeys` and `resetpass` of ACL SETUSER take away, also
-- from connections that are open.
use echo_vault.Base.{
  ℕ, ◌≡◌, refl, sym, ◌∙◌, ap, String, Bool, true, false, ◌||◌, Option, some, List, [], ◌∷◌, ◌++◌,
  arith, inl, inr, Bool-cases, Option-cases, ◌==◌, nat_eq, string_eq, contains, any, is_empty,
  equal_fold, lookup,
}
use echo_vault.Keyspace.State.{ok}
use echo_vault.Commands.Exec.{Keys}
use echo_vault.Acl.User.{User, star, apply_rules, apply_nopass, apply_resets, reset, update_user}
use echo_vault.Acl.State.{Glob, Acl, put, find_user, set_user, password_fits}
use echo_vault.Acl.Authorize.{
  Command, SubCommand, is_exempt, full_name, full_categories, sub_keys, authorize_connection,
}
use echo_vault.Acl.Rights.{verdict, permitted, SignedIn, authorize_connection-permitted}
use echo_vault.Acl.Globs.{
  SetsUser, updates, creates, set_user-SetsUser, compile_globs-Compiles, HasGlobs-user_globs,
  AllCompiled, set_user-AllCompiled,
}

-- some rule is the word, in any case
abbrev pub has_rule : String → List String → Bool
has_rule word cmd = any (λ str. equal_fold str word) cmd

-- What the third loop leaves alone once a rule has set it.
excluded_commands-apply_resets :
    (cmd : List String) (u : User)
    → u.excluded_commands ≡ star
    → (apply_resets cmd u).excluded_commands ≡ star
unfolding apply_resets reset
excluded_commands-apply_resets [] u h = h
excluded_commands-apply_resets (str ∷ cmd) u h =
    excluded_commands-apply_resets cmd (reset str u) (ground arith)

apply_resets-nocommands :
    (cmd : List String) (u : User)
    → has_rule "nocommands" cmd ≡ true
    → (apply_resets cmd u).excluded_commands ≡ star
unfolding apply_resets reset any
apply_resets-nocommands [] u h = absurd (cc h)
apply_resets-nocommands (str ∷ cmd) u h = elim (Bool-cases (equal_fold str "nocommands")) [
  | inl now ↦ excluded_commands-apply_resets cmd (reset str u) (ground arith)
  | inr later ↦ apply_resets-nocommands cmd (reset str u) (rw later at h)
]

no_keys-apply_resets :
    (cmd : List String) (u : User) → u.no_keys ≡ true → (apply_resets cmd u).no_keys ≡ true
unfolding apply_resets reset
no_keys-apply_resets [] u h = h
no_keys-apply_resets (str ∷ cmd) u h = no_keys-apply_resets cmd (reset str u) (ground arith)

apply_resets-nokeys :
    (cmd : List String) (u : User)
    → any (λ str. str == "resetkeys" || str == "nokeys") cmd ≡ true
    → (apply_resets cmd u).no_keys ≡ true
unfolding apply_resets reset any
apply_resets-nokeys [] u h = absurd (cc h)
apply_resets-nokeys (str ∷ cmd) u h = elim (Bool-cases (str == "resetkeys" || str == "nokeys")) [
  | inl now ↦ no_keys-apply_resets cmd (reset str u) (ground arith)
  | inr later ↦ apply_resets-nokeys cmd (reset str u) (rw later at h)
]

-- the user has no password, and needs one
record IsLocked (u : User) : Type 0 where
  none_left : u.passwords ≡ []
  needed : u.no_password ≡ false

IsLocked-apply_resets : (cmd : List String) (u : User) → IsLocked u → IsLocked (apply_resets cmd u)
unfolding apply_resets reset
IsLocked-apply_resets [] u h = h
IsLocked-apply_resets (str ∷ cmd) u h =
    IsLocked-apply_resets cmd (reset str u)
      (record { none_left = ground (arith, h.none_left); needed = ground (arith, h.needed) })

apply_resets-resetpass :
    (cmd : List String) (u : User) → has_rule "resetpass" cmd ≡ true → IsLocked (apply_resets cmd u)
unfolding apply_resets reset any
apply_resets-resetpass [] u h = absurd (cc h)
apply_resets-resetpass (str ∷ cmd) u h = elim (Bool-cases (equal_fold str "resetpass")) [
  | inl now ↦
      IsLocked-apply_resets cmd (reset str u)
        (record { none_left = ground arith; needed = ground arith })
  | inr later ↦ apply_resets-resetpass cmd (reset str u) (rw later at h)
]

-- An update that ends is the third loop after something.
update_user-apply_resets :
    (cmd : List String) (u u' : User)
    → update_user cmd u ≡ some u'
    → (v : User) × (u' ≡ apply_resets cmd v)
unfolding update_user
update_user-apply_resets cmd u u' h = elim (Option-cases (apply_rules cmd u)) [
  | inl broken ↦ absurd (ground arith)
  | inr (v, done) ↦ (apply_nopass cmd v, ground arith)
]

-- After an update whose rules include `nocommands`, in any case and at any place, the user has a right to
-- no command at all.
pub update_user-nocommands :
    (glob : Glob) (cmd : List String) (u u' : User) (comm : String) (categories : List String)
    (keys : Keys)
    → update_user cmd u ≡ some u'
    → has_rule "nocommands" cmd ≡ true
    → permitted glob u' comm categories keys ≡ false
unfolding permitted any
update_user-nocommands glob cmd u u' comm categories keys h k =
    let (v, last) = update_user-apply_resets cmd u u' h in
    let out : u'.excluded_commands ≡ star =
      ap (λ w. w.excluded_commands) last ∙ apply_resets-nocommands cmd v k in
    ground (arith, out)

-- After an update whose rules include `nokeys` or `resetkeys`, a command that reads or writes a key, and is
-- not one of publish and subscribe, is not permitted, even if another rule adds a key.
pub update_user-nokeys :
    (glob : Glob) (cmd : List String) (u u' : User) (comm : String) (categories : List String)
    (keys : Keys)
    → update_user cmd u ≡ some u'
    → any (λ str. str == "resetkeys" || str == "nokeys") cmd ≡ true
    → contains categories "pubsub" ≡ false
    → is_empty (keys.read_keys ++ keys.write_keys) ≡ false
    → permitted glob u' comm categories keys ≡ false
unfolding permitted
update_user-nokeys glob cmd u u' comm categories keys h k plain some_key =
    let (v, last) = update_user-apply_resets cmd u u' h in
    let out : u'.no_keys ≡ true = ap (λ w. w.no_keys) last ∙ apply_resets-nokeys cmd v k in
    ground (arith, out)

-- After an update whose rules include `resetpass` no password fits, and one is needed, even if another
-- rule adds a password or is `nopass`.
pub update_user-resetpass :
    (sha256_hex : String → String) (cmd : List String) (u u' : User) (password : String)
    → update_user cmd u ≡ some u'
    → has_rule "resetpass" cmd ≡ true
    → (u'.no_password ≡ false) × (password_fits sha256_hex u' password u'.passwords ≡ false)
unfolding password_fits
update_user-resetpass sha256_hex cmd u u' password h k =
    let (v, last) = update_user-apply_resets cmd u u' h in
    let locked = apply_resets-resetpass cmd v k in
    let empty : u'.passwords ≡ [] = ap (λ w. w.passwords) last ∙ locked.none_left in
    (ap (λ w. w.no_password) last ∙ locked.needed, rw (empty, password_fits))

-- What `SetUser` leaves of a user that is there, and of the connections.
record Updated (name : String) (rules : List String) (a a' : Acl) (p : ℕ) (u : User) : Type 0 where
  ends : update_user (name ∷ rules) (a.cell p) ≡ some u
  stored : a'.cell p ≡ u
  same_pass : a'.require_pass ≡ a.require_pass
  same_connections : a'.connections ≡ a.connections

SetsUser-Updated :
    (name : String) (rules : List String) (a b : Acl) (p : ℕ)
    → SetsUser name rules a b
    → find_user a.cell name a.users ≡ some p
    → (u : User) × Updated name rules a b p u
unfolding put
SetsUser-Updated name rules a b p (creates u absent done) found = absurd (cc (absent, found))
SetsUser-Updated name rules a b p (updates q u here done) found =
    let same : q ≡ p = cc (here, found) in
    (
      u,
      record {
        ends = rw same at done;
        stored = ground arith;
        same_pass = refl;
        same_connections = refl;
      },
    )

set_user-Updated :
    (glob : Glob) (name : String) (rules : List String) (a a' : Acl) (p : ℕ)
    → set_user glob name rules a ≡ ok a'
    → find_user a.cell name a.users ≡ some p
    → (u : User) × Updated name rules a a' p u
set_user-Updated glob name rules a a' p h found =
    let (b, sets, done) = set_user-SetsUser glob name rules a a' h in
    let kept = (compile_globs-Compiles glob b a' done).kept in
    let (u, up) = SetsUser-Updated name rules a b p sets found in
    (
      u,
      record {
        ends = up.ends;
        stored = ap (λ c. c.cell p) kept ∙ up.stored;
        same_pass = ap (λ c. c.require_pass) kept ∙ up.same_pass;
        same_connections = ap (λ c. c.connections) kept ∙ up.same_connections;
      },
    )

any_later :
    (f : String → Bool) (x : String) (xs : List String) → any f xs ≡ true → any f (x ∷ xs) ≡ true
unfolding any
any_later f x xs h = ground arith

-- ACL SETUSER with `nocommands` among its rules, on a user that is there, when every pattern is compiled:
-- afterwards every connection that is signed in as that user, also one from before, is refused every
-- command that not everybody may run and whose keys can be told, where a password is required.
pub set_user-nocommands :
    (glob : Glob) (name : String) (rules : List String) (a a' : Acl) (conn p : ℕ)
    (cmd : List String) (command : Command) (sub : Option SubCommand) (keys other : Keys)
    → AllCompiled glob a
    → find_user a.cell name a.users ≡ some p
    → set_user glob name rules a ≡ ok a'
    → has_rule "nocommands" rules ≡ true
    → a.require_pass ≡ true
    → SignedIn conn p a
    → command.key_func cmd ≡ ok keys
    → sub_keys sub cmd (ok keys) ≡ ok other
    → is_exempt (full_name command sub) ≡ false
    → verdict (authorize_connection glob conn cmd command sub a') ≡ some false
set_user-nocommands glob name rules a a' conn p cmd command sub keys other v found h k pass signed
      key_ok sub_ok common =
    let (u, up) = set_user-Updated glob name rules a a' p h found in
    let signed' : SignedIn conn p a' = record {
      found = ap (λ m. lookup conn m) up.same_connections ∙ signed.found;
    } in
    let globs =
      HasGlobs-user_globs glob a'.globs (a'.cell p)
        ((set_user-AllCompiled glob name rules a a' v h).every p) in
    let stored : update_user (name ∷ rules) (a.cell p) ≡ some (a'.cell p) =
      up.ends ∙ ap some (sym up.stored) in
    authorize_connection-permitted glob conn p cmd command sub keys other a' (up.same_pass ∙ pass)
      signed' globs key_ok sub_ok common
    ∙ ap some (
        update_user-nocommands glob (name ∷ rules) (a.cell p) (a'.cell p) (full_name command sub)
          (full_categories command sub) keys stored
          (any_later (λ str. equal_fold str "nocommands") name rules k))
