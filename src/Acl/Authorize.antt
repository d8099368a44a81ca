-- ===== src/Acl/Authorize.antt =====
-- internal/modules/acl/acl.go: `AuthorizeConnection`, which decides whether a connection may run a
-- command, with `Command` and `SubCommand` of internal/types.go as far as it reads them.
use echo_vault.Base.{
  ℕ, ◌+◌, String, Bool, true, false, not, ◌&&◌, ◌||◌, Option, none, some, List, [], ◌∷◌, ◌++◌,
  if◌then◌else◌, ◌==◌, nat_eq, string_eq, ltb, contains, any, is_empty, equal_fold, codes, Assoc,
  lookup, insert, str_append,
}
use echo_vault.Keyspace.State.{Result, ok, err, panic}
use echo_vault.Commands.Exec.{Keys}
use echo_vault.Acl.User.{User, sort_stable}
use echo_vault.Acl.State.{Glob, Acl}

-- `SubCommand`; the zero value is no subcommand
pub record SubCommand : Type 0 where
  pub name : String
  pub categories : List String
  pub key_func : List String → Result Keys

-- `Command`
pub record Command : Type 0 where
  pub name : String
  pub categories : List String
  pub key_func : List String → Result Keys

-- The errors of `AuthorizeConnection`, with what their messages name.
pub data Refusal : Type 0 where
  bad_keys : String → Refusal
  not_authenticated : Refusal
  bad_categories : List String → Refusal
  bad_command : String → Refusal
  bad_channel : String → Refusal
  any_key : Refusal
  bad_read_keys : List String → Refusal
  bad_write_keys : List String → Refusal

pub data Decision : Type 0 where
  allowed : Decision
  refused : Refusal → Decision
  panics : Decision

-- `strings.Contains`, on codes
abbrev pub starts_with : List ℕ → List ℕ → Bool
starts_with s [] = true
starts_with [] (c ∷ cs) = false
starts_with (a ∷ s) (c ∷ cs) = a == c && starts_with s cs

abbrev pub has_part : List ℕ → List ℕ → Bool
has_part [] part = is_empty part
has_part (a ∷ s) part = starts_with (a ∷ s) part || has_part s part

-- the loop of `CompareLex`: the first place where the texts differ, `s1` below `s2`
abbrev pub lower_first : List ℕ → List ℕ → Bool
lower_first (a ∷ s1) (b ∷ s2) = if a == b then lower_first s1 s2 else ltb a b
lower_first _ _ = false

-- `CompareLex(s1, s2) < 0` of internal/utils.go
unfoldable pub lex_before : String → String → Bool
lex_before s1 s2 =
    not (s1 == s2)
    && not (has_part (codes s1) (codes s2))
    && (has_part (codes s2) (codes s1) || lower_first (codes s1) (codes s2))

-- `count[category] = 0` for each category
unfoldable pub zero_counts : List String → Assoc String ℕ → Assoc String ℕ
zero_counts [] count = count
zero_counts (c ∷ cs) count = zero_counts cs (insert c 0 count)

-- `if _, ok := count[category]; ok { count[category] += 1 }` for each category of the user
unfoldable pub count_included : List String → Assoc String ℕ → Assoc String ℕ
count_included [] count = count
count_included (c ∷ cs) count =
    count_included cs (elim (lookup c count) [ none ↦ count | some n ↦ insert c (n + 1) count ])

-- the loop of `getUnauthorized`
unfoldable pub zero_keys : Assoc String ℕ → List String
zero_keys [] = []
zero_keys ((member, c) ∷ count) =
    let rest = zero_keys count in if c == 0 then member ∷ rest else rest

abbrev pub prefixed : String → List String → List String
prefixed prefix [] = []
prefixed prefix (x ∷ xs) = str_append prefix x ∷ prefixed prefix xs

-- `getUnauthorized`
unfoldable pub get_unauthorized : Assoc String ℕ → String → List String
unfolding zero_keys sort_stable lex_before
get_unauthorized count prefix = sort_stable lex_before (prefixed prefix (zero_keys count))

-- step 3: the first category that an exclusion fits
unfoldable pub find_excluded : List String → List String → Option String
find_excluded [] excluded = none
find_excluded (c ∷ cs) excluded =
    if any (λ e. e == "*" || e == c) excluded then some c else find_excluded cs excluded

module _ (glob : Glob) (globs : List String) where
  -- `slices.ContainsFunc` over patterns; `none` is the panic at a pattern that is not compiled
  unfoldable pub any_match : String → List String → Option Bool
  any_match x [] = some false
  any_match x (g ∷ gs) =
      let rest = any_match x gs in
      if contains globs g then (if glob.matches g x then some true else rest) else none

  -- step 6
  unfoldable pub check_channels : User → List String → Decision
  unfolding any_match
  check_channels u [] = allowed
  check_channels u (channel ∷ channels) =
      let rest = check_channels u channels in
      elim (any_match channel u.included_pubsub_channels) [
        | none ↦ panics
        | some false ↦ refused (bad_channel channel)
        | some true ↦ elim (any_match channel u.excluded_pubsub_channels) [
          | none ↦ panics
          | some true ↦ refused (bad_channel channel)
          | some false ↦ rest
        ]
      ]

  -- the inner function of the steps 8 and 9: whether a pattern fits the key, and what is noted if not
  unfoldable pub scan_globs :
      String → String → List String → List String → Option (Bool × List String)
  scan_globs label key [] noted = some (false, noted)
  scan_globs label key (g ∷ gs) noted =
      let entry = str_append label key in
      let rest =
        scan_globs label key gs (if contains noted entry then noted else noted ++ entry ∷ []) in
      if contains globs g then (if glob.matches g key then some (true, noted) else rest) else none

  -- the outer one: the scan ends at the first key that a pattern fits
  unfoldable pub scan_keys :
      String → List String → List String → List String → Option (Bool × List String)
  unfolding scan_globs
  scan_keys label patterns [] noted = some (false, noted)
  scan_keys label patterns (key ∷ keys) noted = elim (scan_globs label key patterns noted) [
    | none ↦ none
    | some (true, noted') ↦ some (true, noted')
    | some (false, noted') ↦ scan_keys label patterns keys noted'
  ]

  -- step 9
  unfoldable pub check_write_keys : User → List String → List String → Decision
  unfolding scan_keys
  check_write_keys u keys noted = elim (scan_keys "%W~" u.included_write_keys keys noted) [
    | none ↦ panics
    | some (found, noted') ↦
        if not (is_empty keys) && not found then refused (bad_write_keys noted') else allowed
  ]

  -- steps 7 to 9
  unfoldable pub check_keys : User → List String → List String → Decision
  unfolding check_write_keys scan_keys
  check_keys u read write =
      if is_empty (read ++ write)
      then allowed
      else if u.no_keys
      then refused any_key
      else elim (scan_keys "%R~" u.included_read_keys read []) [
        | none ↦ panics
        | some (found, noted) ↦
            if not (is_empty read) && not found && not (is_empty noted)
            then refused (bad_read_keys noted)
            else check_write_keys u write noted
      ]

  -- steps 2 to 9, for a user, a command's name, its categories and its keys
  unfoldable pub check_user : User → String → List String → Keys → Decision
  unfolding zero_counts count_included get_unauthorized find_excluded check_channels check_keys
  check_user u comm categories keys =
      let missing =
        if contains u.included_categories "*"
        then []
        else get_unauthorized (count_included u.included_categories (zero_counts categories []))
            "@" in
      if not (is_empty missing)
      then refused (bad_categories missing)
      else elim (find_excluded categories u.excluded_categories) [
        | some c ↦ refused (bad_categories (str_append "@" c ∷ []))
        | none ↦
            if not (any (λ c. c == "*" || c == comm) u.included_commands)
            then refused (bad_command comm)
            else if any (λ c. c == "*" || c == comm) u.excluded_commands
            then refused (bad_command comm)
            else if contains categories "pubsub"
            then check_channels u keys.channels
            else check_keys u keys.read_keys keys.write_keys
      ]

-- the commands that everybody may run
abbrev pub is_exempt : String → Bool
is_exempt comm =
    equal_fold comm "ack"
    || (equal_fold comm "ping" || equal_fold comm "echo" || equal_fold comm "hello")
    || equal_fold comm "auth"

-- `connection := acl.Connections[conn]`, from where it is read on; a missing connection is the zero value
unfoldable pub check_connection : Glob → ℕ → String → List String → Keys → Acl → Decision
unfolding check_user
check_connection glob conn comm categories keys a =
    if not a.require_pass then allowed else elim (lookup conn a.connections) [
      | none ↦ refused not_authenticated
      | some c ↦
          if not c.authenticated
          then refused not_authenticated
          else check_user glob a.globs (a.cell c.user) comm categories keys
    ]

-- the name and the categories, with those of a subcommand
abbrev pub full_name : Command → Option SubCommand → String
full_name command none = command.name
full_name command (some sub) = str_append command.name (str_append "|" sub.name)

abbrev pub full_categories : Command → Option SubCommand → List String
full_categories command none = command.categories
full_categories command (some sub) = command.categories ++ sub.categories

-- the error of a subcommand's key function, whose keys are not looked at
abbrev pub sub_keys : Option SubCommand → List String → Result Keys → Result Keys
sub_keys none cmd keys = keys
sub_keys (some sub) cmd keys = sub.key_func cmd

-- `AuthorizeConnection`
unfoldable pub authorize_connection :
    Glob → ℕ → List String → Command → Option SubCommand → Acl → Decision
unfolding check_connection
authorize_connection glob conn cmd command sub a = elim (command.key_func cmd) [
  | panic ↦ panics
  | err e ↦ refused (bad_keys e)
  | ok keys ↦ elim (sub_keys sub cmd (ok keys)) [
    | panic ↦ panics
    | err e ↦ refused (bad_keys e)
    | ok _ ↦
        if is_exempt (full_name command sub)
        then allowed
        else check_connection glob conn (full_name command sub) (full_categories command sub) keys a
  ]
]
