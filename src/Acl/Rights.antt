-- ===== src/Acl/Rights.antt =====
-- internal/modules/acl/acl.go: the rights of a user, said without the code's order and notes, and that
-- `AuthorizeConnection` decides them.
use echo_vault.Base.{
  ℕ, ◌≡◌, refl, ap, ◌∙◌, String, Bool, true, false, not, ◌&&◌, ◌||◌, Option, none, some, List, [],
  ◌∷◌, ◌++◌, arith, inl, inr, Bool-cases, if◌then◌else◌, ◌==◌, nat_eq, string_eq, eq_iff, contains,
  any, all, is_empty, lookup, str_append,
}
use echo_vault.Keyspace.State.{ok}
use echo_vault.Commands.Exec.{Keys}
use echo_vault.Acl.User.{User}
use echo_vault.Acl.State.{Glob, Acl}
use echo_vault.Acl.Authorize.{
  Command, SubCommand, Decision, allowed, refused, panics, any_match, check_channels, scan_globs,
  scan_keys, check_write_keys, check_keys, find_excluded, check_user, check_connection, is_exempt,
  full_name, full_categories, sub_keys, authorize_connection, get_unauthorized, count_included,
  zero_counts,
}
use echo_vault.Acl.Categories.{is_empty-get_unauthorized}

-- Whether the command may run; `none` is a panic.
abbrev pub verdict : Decision → Option Bool
verdict allowed = some true
verdict (refused r) = some false
verdict panics = none

-- `*`, or the entry itself, is listed
abbrev pub lists : List String → String → Bool
lists entries x = any (λ e. e == "*" || e == x) entries

module _ (glob : Glob) where
  -- some pattern fits the text
  abbrev pub fits : List String → String → Bool
  fits patterns x = any (λ g. glob.matches g x) patterns

  -- the channels that a user may use
  abbrev pub may_use_channel : User → String → Bool
  may_use_channel u x = fits u.included_pubsub_channels x && not (fits u.excluded_pubsub_channels x)

  -- One key of those read has to fit, and none where the user has no patterns for reading; one key of
  -- those written has to fit.
  abbrev pub may_use_keys : User → List String → List String → Bool
  may_use_keys u read write =
      is_empty (read ++ write)
      || (not u.no_keys
          && (is_empty read
              || is_empty u.included_read_keys
              || any (fits u.included_read_keys) read)
          && (is_empty write || any (fits u.included_write_keys) write))

  -- the rights of a user to a command
  unfoldable pub permitted : User → String → List String → Keys → Bool
  permitted u comm categories keys =
      (contains u.included_categories "*" || all (contains u.included_categories) categories)
      && not (any (lists u.excluded_categories) categories)
      && lists u.included_commands comm
      && not (lists u.excluded_commands comm)
      && (if contains categories "pubsub"
          then all (may_use_channel u) keys.channels
          else may_use_keys u keys.read_keys keys.write_keys)

-- Every entry is among the compiled patterns.
abbrev pub Within : List String → List String → Type 0
Within globs patterns = (g : String) → contains patterns g ≡ true → contains globs g ≡ true

Within-tail :
    (globs : List String) (g : String) (gs : List String) → Within globs (g ∷ gs) → Within globs gs
unfolding contains
Within-tail globs g gs h x k = h x (ground arith)

Within-head :
    (globs : List String) (g : String) (gs : List String)
    → Within globs (g ∷ gs)
    → contains globs g ≡ true
unfolding contains
Within-head globs g gs h = h g (ground (arith, eq_iff g g))

next_noted :
    (xs : List String) (e : String) → is_empty (if contains xs e then xs else xs ++ e ∷ []) ≡ false
unfolding contains
next_noted [] e = refl
next_noted (x ∷ xs) e = ground arith

module _ (glob : Glob) (globs : List String) where
  any_match-fits :
      (x : String) (gs : List String)
      → Within globs gs
      → any_match glob globs x gs ≡ some (fits glob gs x)
  unfolding any_match any
  any_match-fits x [] h = refl
  any_match-fits x (g ∷ gs) h =
      ground (arith, Within-head globs g gs h, any_match-fits x gs (Within-tail globs g gs h))

  check_channels-verdict :
      (u : User) (channels : List String)
      → Within globs u.included_pubsub_channels
      → Within globs u.excluded_pubsub_channels
      → verdict (check_channels glob globs u channels)
        ≡ some (all (may_use_channel glob u) channels)
  unfolding check_channels all
  check_channels-verdict u [] h k = refl
  check_channels-verdict u (c ∷ channels) h k = ground (
    arith,
    any_match-fits c u.included_pubsub_channels h,
    any_match-fits c u.excluded_pubsub_channels k,
    check_channels-verdict u channels h k,
  )

  -- A scan ends with whether a pattern fits; if none does and there is one, something is noted.
  scan_globs-fits :
      (label key : String) (gs noted : List String)
      → Within globs gs
      → (noted' : List String) × (scan_globs glob globs label key gs noted
          ≡ some (fits glob gs key, noted'))
        × (fits glob gs key ≡ false → is_empty noted' ≡ (is_empty gs && is_empty noted))
  unfolding scan_globs any
  scan_globs-fits label key [] noted h = (noted, refl, λ _. refl)
  scan_globs-fits label key (g ∷ gs) noted h = elim (Bool-cases (glob.matches g key)) [
    | inl hit ↦ (noted, ground (arith, Within-head globs g gs h), λ e. ground arith)
    | inr miss ↦
        let entry = str_append label key in
        let next = if contains noted entry then noted else noted ++ entry ∷ [] in
        let (noted', done, said) = scan_globs-fits label key gs next (Within-tail globs g gs h) in
        (
          noted',
          ground (arith, Within-head globs g gs h, done),
          λ e. ground (arith, said, next_noted noted entry),
        )
  ]

  scan_keys-fits :
      (label : String) (gs keys noted : List String)
      → Within globs gs
      → (noted' : List String) × (scan_keys glob globs label gs keys noted
          ≡ some (any (fits glob gs) keys, noted'))
        × (any (fits glob gs) keys ≡ false
            → is_empty noted' ≡ ((is_empty keys || is_empty gs) && is_empty noted))
  unfolding scan_keys any
  scan_keys-fits label gs [] noted h = (noted, refl, λ _. refl)
  scan_keys-fits label gs (k ∷ keys) noted h =
      let (noted1, first, said) = scan_globs-fits label k gs noted h in
      elim (Bool-cases (fits glob gs k)) [
        | inl hit ↦ (noted1, ground (arith, first), λ e. ground arith)
        | inr miss ↦
            let (noted2, done, told) = scan_keys-fits label gs keys noted1 h in
            (noted2, ground (arith, first, done), λ e. ground (arith, said miss, told))
      ]

  check_write_keys-verdict :
      (u : User) (keys noted : List String)
      → Within globs u.included_write_keys
      → verdict (check_write_keys glob globs u keys noted)
        ≡ some (is_empty keys || any (fits glob u.included_write_keys) keys)
  unfolding check_write_keys
  check_write_keys-verdict u keys noted h =
      let (noted', done, said) = scan_keys-fits "%W~" u.included_write_keys keys noted h in
      ground (arith, done)

  check_keys-verdict :
      (u : User) (read write : List String)
      → Within globs u.included_read_keys
      → Within globs u.included_write_keys
      → verdict (check_keys glob globs u read write) ≡ some (may_use_keys glob u read write)
  unfolding check_keys
  check_keys-verdict u read write h k =
      let (noted, done, said) = scan_keys-fits "%R~" u.included_read_keys read [] h in
      let written = check_write_keys-verdict u write noted k in
      elim (Bool-cases (any (fits glob u.included_read_keys) read)) [
        | inl hit ↦ ground (arith, done, written)
        | inr miss ↦ ground (arith, done, written, said miss)
      ]

  find_excluded-lists :
      (categories excluded : List String)
      → (elim (find_excluded categories excluded) [ none ↦ false | some c ↦ true ])
        ≡ any (lists excluded) categories
  unfolding find_excluded any
  find_excluded-lists [] excluded = refl
  find_excluded-lists (c ∷ categories) excluded =
      ground (arith, find_excluded-lists categories excluded)

  -- Every pattern of the user is compiled.
  pub record HasGlobs (u : User) : Type 0 where
    pub channels : Within globs u.included_pubsub_channels
    pub hidden_channels : Within globs u.excluded_pubsub_channels
    pub read_keys : Within globs u.included_read_keys
    pub write_keys : Within globs u.included_write_keys

  check_user-permitted :
      (u : User) (comm : String) (categories : List String) (keys : Keys)
      → HasGlobs u
      → verdict (check_user glob globs u comm categories keys)
        ≡ some (permitted glob u comm categories keys)
  unfolding check_user permitted
  check_user-permitted u comm categories keys h =
      let missing =
        get_unauthorized (count_included u.included_categories (zero_counts categories [])) "@" in
      ground (
        arith,
        is_empty-get_unauthorized u.included_categories categories "@",
        find_excluded-lists categories u.excluded_categories,
        check_channels-verdict u keys.channels h.channels h.hidden_channels,
        check_keys-verdict u keys.read_keys keys.write_keys h.read_keys h.write_keys,
      )

-- The connection is signed in as the user at this address.
pub record SignedIn (conn p : ℕ) (a : Acl) : Type 0 where
  pub found : lookup conn a.connections ≡ some (record { authenticated = true; user = p })

pub authorize_connection-check_user :
    (glob : Glob) (conn p : ℕ) (cmd : List String) (command : Command) (sub : Option SubCommand)
    (keys other : Keys) (a : Acl)
    → a.require_pass ≡ true
    → SignedIn conn p a
    → command.key_func cmd ≡ ok keys
    → sub_keys sub cmd (ok keys) ≡ ok other
    → is_exempt (full_name command sub) ≡ false
    → authorize_connection glob conn cmd command sub a
      ≡ check_user glob a.globs
          (a.cell p)
          (full_name command sub)
          (full_categories command sub)
          keys
unfolding authorize_connection check_connection
authorize_connection-check_user glob conn p cmd command sub keys other a pass signed k l e =
    rw (k, authorize_connection, l, e, check_connection, pass, signed.found)

-- `AuthorizeConnection`, where a password is required, for a connection that is signed in as a user
-- whose patterns are compiled, and for a command that not everybody may run: it does not panic, and it
-- allows the command exactly if the user has the right to it. The keys are those of the command, also
-- where there is a subcommand.
pub authorize_connection-permitted :
    (glob : Glob) (conn p : ℕ) (cmd : List String) (command : Command) (sub : Option SubCommand)
    (keys other : Keys) (a : Acl)
    → a.require_pass ≡ true
    → SignedIn conn p a
    → HasGlobs glob a.globs (a.cell p)
    → command.key_func cmd ≡ ok keys
    → sub_keys sub cmd (ok keys) ≡ ok other
    → is_exempt (full_name command sub) ≡ false
    → verdict (authorize_connection glob conn cmd command sub a)
      ≡ some (permitted glob (a.cell p) (full_name command sub) (full_categories command sub) keys)
authorize_connection-permitted glob conn p cmd command sub keys other a pass signed h k l e =
    ap verdict
      (authorize_connection-check_user glob conn p cmd command sub keys other a pass signed k l e)
    ∙ check_user-permitted glob a.globs (a.cell p) (full_name command sub)
        (full_categories command sub) keys h
