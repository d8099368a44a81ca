-- ===== src/Commands/Generic/Options.antt =====
-- internal/modules/generic/utils.go: the options of SET.
use echo_vault.Base.{
  ℕ, String, Bool, true, false, Option, none, some, List, [], ◌∷◌, if◌then◌else◌, equal_fold, ℤ,
  atoi, str_append, to_upper,
}
use echo_vault.Keyspace.State.{Result, ok, err, panic}
use echo_vault.Commands.Times.{add_duration, seconds, milliseconds, from_unix, from_unix_milli}

-- `options.exists`: the empty text, "NX" or "XX"
pub data Condition : Type 0 where
  always : Condition
  if_new : Condition
  if_there : Condition

-- `SetOptions`
pub record SetOptions : Type 0 where
  pub exists : Condition
  pub get : Bool
  pub expire_at : Option ℕ

abbrev pub no_options : SetOptions
no_options = record { exists = always; get = false; expire_at = none }

abbrev pub is_nx : SetOptions → Bool
is_nx o = elim o.exists [ always ↦ false | if_new ↦ true | if_there ↦ false ]

abbrev pub is_xx : SetOptions → Bool
is_xx o = elim o.exists [ always ↦ false | if_new ↦ false | if_there ↦ true ]

-- the options that take a time
pub data TimeUnit : Type 0 where
  ex : TimeUnit
  px : TimeUnit
  exat : TimeUnit
  pxat : TimeUnit

abbrev pub time_unit : String → Option TimeUnit
time_unit w =
    if equal_fold w "ex"
    then some ex
    else if equal_fold w "px"
    then some px
    else if equal_fold w "exat"
    then some exat
    else if equal_fold w "pxat"
    then some pxat
    else none

abbrev pub unit_word : TimeUnit → String
unit_word ex = "EX"
unit_word px = "PX"
unit_word exat = "EXAT"
unit_word pxat = "PXAT"

abbrev pub unit_name : TimeUnit → String
unit_name ex = "seconds"
unit_name px = "milliseconds"
unit_name exat = "seconds"
unit_name pxat = "milliseconds"

-- the time that an option gives
abbrev pub time_at : ℕ → TimeUnit → ℤ → ℕ
time_at now ex n = add_duration now (seconds n)
time_at now px n = add_duration now (milliseconds n)
time_at now exat n = from_unix n
time_at now pxat n = from_unix_milli n

-- the cases "ex" to "pxat" on the value behind the word
abbrev pub with_time : ℕ → TimeUnit → String → SetOptions → Result SetOptions
with_time now u value o = elim o.expire_at [
  | some t ↦
      err
        (str_append "cannot specify " (str_append (unit_word u) " when expiry time is already set"))
  | none ↦ elim (atoi value) [
    | none ↦ err (str_append (unit_name u) " value should be an integer")
    | some n ↦ ok (record o { expire_at = some (time_at now u n) })
  ]
]

abbrev pub set_twice : String → String → String
set_twice w before =
    str_append "cannot specify "
      (str_append w (str_append " when " (str_append before " is already specified")))

-- the cases "nx" and "xx"
abbrev pub with_condition : String → Condition → SetOptions → Result SetOptions
with_condition w c o = elim o.exists [
  | always ↦ ok (record o { exists = c })
  | if_new ↦ err (set_twice w "NX")
  | if_there ↦ err (set_twice w "XX")
]

-- the cases of one word, and the default
abbrev pub with_word : String → SetOptions → Result SetOptions
with_word w o =
    if equal_fold w "get"
    then ok (record o { get = true })
    else if equal_fold w "nx"
    then with_condition "NX" if_new o
    else if equal_fold w "xx"
    then with_condition "XX" if_there o
    else err (str_append "unknown option " (str_append (to_upper w) " for set command"))

-- `getSetCommandOptions`
unfoldable pub set_options : ℕ → List String → SetOptions → Result SetOptions
set_options now [] o = ok o
set_options now (w ∷ []) o = elim (time_unit w) [
  | none ↦ with_word w o
  | some u ↦ err (str_append (unit_name u) (str_append " value required after " (unit_word u)))
]
set_options now (w ∷ value ∷ cmd) o = elim (time_unit w) [
  | none ↦ elim (with_word w o) [
    | ok o' ↦ set_options now (value ∷ cmd) o'
    | err e ↦ err e
    | panic ↦ panic
  ]
  | some u ↦ elim (with_time now u value o) [
    | ok o' ↦ set_options now cmd o'
    | err e ↦ err e
    | panic ↦ panic
  ]
]
