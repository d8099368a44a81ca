-- ===== src/Acl/User.antt =====
-- internal/modules/acl/user.go: a user, the rules of ACL SETUSER, and the normal form of a user.
use echo_vault.Base.{
  ℕ, String, Bool, true, false, not, ◌&&◌, ◌||◌, Option, none, some, List, [], ◌∷◌, ◌++◌,
  if◌then◌else◌, ◌==◌, nat_eq, string_eq, ltb, contains, any, is_empty, delete_func, equal_fold,
  code_at, size, drop_text, take_text, after_first,
}

-- `Password`
pub record Password : Type 0 where
  pub password_type : String
  pub password_value : String

-- `User`
pub record User : Type 0 where
  pub username : String
  pub enabled : Bool
  pub no_password : Bool
  pub no_keys : Bool
  pub passwords : List Password
  pub included_categories : List String
  pub excluded_categories : List String
  pub included_commands : List String
  pub excluded_commands : List String
  pub included_read_keys : List String
  pub included_write_keys : List String
  pub included_pubsub_channels : List String
  pub excluded_pubsub_channels : List String

-- `PasswordPlainText` and `PasswordSHA256`
abbrev pub plain_text : String
plain_text = "plaintext"

abbrev pub sha256 : String
sha256 = "SHA256"

abbrev pub star : List String
star = "*" ∷ []

-- `CreateUser`
abbrev pub create_user : String → User
create_user username = record {
  username = username;
  enabled = true;
  no_password = false;
  no_keys = false;
  passwords = [];
  included_categories = [];
  excluded_categories = [];
  included_commands = [];
  excluded_commands = [];
  included_read_keys = [];
  included_write_keys = [];
  included_pubsub_channels = [];
  excluded_pubsub_channels = [];
}

-- `GetPasswordType`; `none` is the panic on an empty text
abbrev pub get_password_type : String → Option String
get_password_type password = elim (code_at 0 password) [
  | none ↦ none
  | some c ↦ some (if c == b'#' then sha256 else plain_text)
]

-- the first loop of `RemoveDuplicateEntries`: the keys of its map, whose numbers are not read
unfoldable pub entry_keys : List String → String → List String → List String
entry_keys [] all_alias keys = keys
entry_keys (e ∷ es) all_alias keys =
    let key = if e == all_alias then "*" else e in
    entry_keys es all_alias (if contains keys key then keys else keys ++ key ∷ [])

-- the second loop
unfoldable pub without_star : List String → List String
without_star [] = []
without_star (k ∷ ks) = let rest = without_star ks in if k == "*" then rest else k ∷ rest

-- `RemoveDuplicateEntries`
unfoldable pub remove_duplicate_entries : List String → String → List String
unfolding entry_keys without_star
remove_duplicate_entries entries all_alias = elim (entry_keys entries all_alias []) [
  | [] ↦ []
  | k ∷ ks ↦ if k == "*" && is_empty ks then star else without_star (k ∷ ks)
]

-- `slices.SortStableFunc`: `before a b` is a comparison below zero
unfoldable pub insert_stable {ℓ} : {A : Type ℓ} → (A → A → Bool) → A → List A → List A
insert_stable before a [] = a ∷ []
insert_stable before a (b ∷ bs) =
    let later = b ∷ insert_stable before a bs in if before b a then later else a ∷ b ∷ bs

unfoldable pub sort_stable {ℓ} : {A : Type ℓ} → (A → A → Bool) → List A → List A
unfolding insert_stable
sort_stable before [] = []
sort_stable before (a ∷ as_a) = insert_stable before a (sort_stable before as_a)

-- the order of `Normalise` on passwords
abbrev pub type_before : Password → Password → Bool
type_before a b = not (a.password_type == sha256) && b.password_type == sha256

-- `*` where a list of inclusions is empty, nothing where `*` is excluded
abbrev pub included : List String → String → List String → List String
included entries all_alias excluded_entries =
    let kept = remove_duplicate_entries entries all_alias in
    if contains excluded_entries "*" then [] else if is_empty kept then star else kept

abbrev pub included_keys : Bool → List String → List String
included_keys no_keys entries =
    let kept = remove_duplicate_entries entries "allKeys" in
    if is_empty kept && not no_keys then star else kept

-- `Normalise`
unfoldable pub normalise : User → User
unfolding remove_duplicate_entries sort_stable
normalise u =
    let categories = remove_duplicate_entries u.excluded_categories "allCategories" in
    let commands = remove_duplicate_entries u.excluded_commands "allCommands" in
    let channels = remove_duplicate_entries u.excluded_pubsub_channels "allChannels" in
    record u {
      included_categories = included u.included_categories "allCategories" categories;
      excluded_categories = categories;
      included_commands = included u.included_commands "allCommands" commands;
      excluded_commands = commands;
      included_read_keys = included_keys u.no_keys u.included_read_keys;
      included_write_keys = included_keys u.no_keys u.included_write_keys;
      included_pubsub_channels = included u.included_pubsub_channels "allChannels" channels;
      excluded_pubsub_channels = channels;
      passwords = sort_stable type_before u.passwords;
    }

-- The first loop of `UpdateUser`, a round in groups of tests: `none` goes on to the next group.
abbrev pub enabled_rule : String → User → User
enabled_rule str u =
    let u1 = if equal_fold str "on" then record u { enabled = true } else u in
    if equal_fold str "off" then record u1 { enabled = false } else u1

abbrev pub is_password : String → String → Password → Bool
is_password kind value p = equal_fold p.password_type kind && p.password_value == value

-- where `c` is the first character
abbrev pub password_rule : ℕ → String → User → Option User
password_rule c str u =
    if c == b'>' || c == b'#'
    then some (record u {
      passwords =
          u.passwords
          ++ record {
            password_type = if c == b'#' then sha256 else plain_text;
            password_value = drop_text 1 str;
          }
            ∷ [];
      no_password = false;
    })
    else if c == b'<'
    then some (record u {
      passwords = delete_func (is_password plain_text (drop_text 1 str)) u.passwords;
    })
    else if c == b'!'
    then some
        (record u { passwords = delete_func (is_password sha256 (drop_text 1 str)) u.passwords })
    else none

abbrev pub is_second : ℕ → String → Bool
is_second c str = elim (code_at 1 str) [ none ↦ false | some d ↦ d == c ]

abbrev pub category_rule : ℕ → String → User → Option User
category_rule c str u =
    let added = ltb 3 (size str) && is_second b'@' str in
    if equal_fold str "nocommands"
    then some (record u { excluded_categories = star; excluded_commands = star })
    else if equal_fold str "allCategories"
    then some (record u { included_categories = star })
    else if added && c == b'+'
    then some (record u { included_categories = u.included_categories ++ drop_text 2 str ∷ [] })
    else if added && c == b'-'
    then some (record u { excluded_categories = u.excluded_categories ++ drop_text 2 str ∷ [] })
    else none

abbrev pub key_rule : ℕ → String → User → Option User
key_rule c str u =
    let read = u.included_read_keys in
    let write = u.included_write_keys in
    if equal_fold str "allKeys"
    then some (record u { included_read_keys = star; included_write_keys = star; no_keys = false })
    else if ltb 1 (size str) && c == b'~' || ltb 4 (size str) && equal_fold (take_text 4 str) "%RW~"
    then (let key = drop_text (after_first b'~' str) str in
        some (record u {
          included_read_keys = read ++ key ∷ [];
          included_write_keys = write ++ key ∷ [];
          no_keys = false;
        }))
    else if ltb 3 (size str) && equal_fold (take_text 3 str) "%R~"
    then some (record u { included_read_keys = read ++ drop_text 3 str ∷ []; no_keys = false })
    else if ltb 3 (size str) && equal_fold (take_text 3 str) "%W~"
    then some (record u { included_write_keys = write ++ drop_text 3 str ∷ []; no_keys = false })
    else none

abbrev pub channel_rule : ℕ → String → User → Option User
channel_rule c str u =
    let added = ltb 2 (size str) && is_second b'&' str in
    if equal_fold str "allChannels"
    then some (record u { included_pubsub_channels = star })
    else if added && c == b'+'
    then some
        (record u { included_pubsub_channels = u.included_pubsub_channels ++ drop_text 2 str ∷ [] })
    else if added && c == b'-'
    then some
        (record u { excluded_pubsub_channels = u.excluded_pubsub_channels ++ drop_text 2 str ∷ [] })
    else none

abbrev pub command_rule : ℕ → String → User → Option User
command_rule c str u =
    let added = ltb 2 (size str) && not (is_second b'&' str || is_second b'@' str) in
    if equal_fold str "allCommands"
    then some (record u { included_commands = star; excluded_commands = [] })
    else if added && c == b'+'
    then some (record u { included_commands = u.included_commands ++ drop_text 1 str ∷ [] })
    else if added && c == b'-'
    then some (record u { excluded_commands = u.excluded_commands ++ drop_text 1 str ∷ [] })
    else none

-- the first group that takes the rule, in order
abbrev pub first_taken : List (User → Option User) → User → User
first_taken [] u = u
first_taken (rule ∷ rules) u = elim (rule u) [ some u' ↦ u' | none ↦ first_taken rules u ]

-- a round of the first loop; `none` is the panic of `str[0]` on an empty text
unfoldable pub apply_rule : String → User → Option User
apply_rule str u = elim (code_at 0 str) [
  | none ↦ none
  | some c ↦ some (
      first_taken
        (password_rule c str
          ∷ category_rule c str
          ∷ key_rule c str
          ∷ channel_rule c str
          ∷ command_rule c str
          ∷ [])
        (enabled_rule str u))
]

unfoldable pub apply_rules : List String → User → Option User
unfolding apply_rule
apply_rules [] u = some u
apply_rules (str ∷ cmd) u = elim (apply_rule str u) [ none ↦ none | some u' ↦ apply_rules cmd u' ]

-- the second loop
unfoldable pub apply_nopass : List String → User → User
apply_nopass [] u = u
apply_nopass (str ∷ cmd) u =
    apply_nopass cmd
      (if equal_fold str "nopass" then record u { passwords = []; no_password = true } else u)

-- a round of the third loop
abbrev pub reset_password : String → User → User
reset_password str u =
    if equal_fold str "resetpass" then record u { passwords = []; no_password = false } else u

abbrev pub reset_commands : String → User → User
reset_commands str u =
    if equal_fold str "nocommands"
    then record u {
      included_commands = [];
      excluded_commands = star;
      included_categories = [];
      excluded_categories = star;
    }
    else u

abbrev pub reset_keys : String → User → User
reset_keys str u =
    if str == "resetkeys" || str == "nokeys"
    then record u { included_read_keys = []; included_write_keys = []; no_keys = true }
    else u

abbrev pub reset_channels : String → User → User
reset_channels str u =
    if equal_fold str "resetchannels"
    then record u { included_pubsub_channels = []; excluded_pubsub_channels = star }
    else u

unfoldable pub reset : String → User → User
reset str u = reset_channels str (reset_keys str (reset_commands str (reset_password str u)))

unfoldable pub apply_resets : List String → User → User
unfolding reset
apply_resets [] u = u
apply_resets (str ∷ cmd) u = apply_resets cmd (reset str u)

-- `UpdateUser`
unfoldable pub update_user : List String → User → Option User
unfolding apply_rules apply_nopass apply_resets
update_user cmd u = elim (apply_rules cmd u) [
  | none ↦ none
  | some u' ↦ some (apply_resets cmd (apply_nopass cmd u'))
]

abbrev pub same_password : Password → Password → Bool
same_password p q = p.password_type == q.password_type && p.password_value == q.password_value

-- the loop of `Merge` on passwords: each one that is new brings all the new ones
unfoldable pub add_passwords : List Password → List Password → List Password → List Password
add_passwords [] new passwords = passwords
add_passwords (p ∷ ps) new passwords =
    add_passwords ps new
      (if any (λ q. same_password q p) passwords then passwords else passwords ++ new)

-- `Merge`
unfoldable pub merge : User → User → User
unfolding add_passwords normalise
merge new u = normalise (record u {
  enabled = new.enabled;
  no_keys = new.no_keys;
  no_password = new.no_password;
  included_categories = u.included_categories ++ new.included_categories;
  excluded_categories = u.excluded_categories ++ new.excluded_categories;
  included_commands = u.included_commands ++ new.included_commands;
  excluded_commands = u.excluded_commands ++ new.excluded_commands;
  included_read_keys = u.included_read_keys ++ new.included_read_keys;
  included_write_keys = u.included_write_keys ++ new.included_write_keys;
  included_pubsub_channels = u.included_pubsub_channels ++ new.included_pubsub_channels;
  excluded_pubsub_channels = u.excluded_pubsub_channels ++ new.excluded_pubsub_channels;
  passwords = add_passwords new.passwords new.passwords u.passwords;
})

-- `Replace`: all but the name
unfoldable pub replace : User → User → User
replace new u = record new { username = u.username }
