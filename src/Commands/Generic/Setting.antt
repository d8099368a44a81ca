-- ===== src/Commands/Generic/Setting.antt =====
-- internal/modules/generic/commands.go and utils.go: SET with a condition and an expiry time.
use echo_vault.Base.{
  if◌then◌else◌, ℕ, ◌+◌, ◌*◌, ◌%◌, ◌^◌, ◌≤◌, ◌<◌, ◌≡◌, refl, ◌∙◌, String, Bool, true, false, not,
  Option, some, none, List, [], ◌∷◌, ◌++◌, arith, ℤ, pos, length, equal_fold, equal_fold_same, atoi,
  mul_int64, ap,
}
use echo_vault.Keyspace.State.{Server, scalar, ok, entry}
use echo_vault.Keyspace.Access.{get_expiry}
use echo_vault.Commands.Numbers.{Number, Formats, adapt_type}
use echo_vault.Commands.Exec.{ok_response}
use echo_vault.Commands.Steady.{put_view, IsSteady, Leads}
use echo_vault.Commands.Times.{unix_origin, nanos_per_second, from_unix, from_unix_milli}
use echo_vault.Commands.Generic.{handle_set}
use echo_vault.Commands.Generic.Options.{
  Condition, always, if_new, if_there, SetOptions, no_options, TimeUnit, ex, px, exat, pxat,
  time_at, set_options,
}
use echo_vault.Commands.Generic.Deadlines.{seconds_pos}
use echo_vault.Commands.Generic.Laws.{handle_set-Leads, allowed, is_there, or_before}

-- The word names the condition, in upper or lower case.
abbrev pub is_condition : Condition → String → Bool
is_condition always w = true
is_condition if_new w = equal_fold w "nx"
is_condition if_there w = equal_fold w "xx"

abbrev pub condition_words : Condition → String → List String
condition_words always w = []
condition_words if_new w = w ∷ []
condition_words if_there w = w ∷ []

-- a time: none, or a unit with a number
abbrev pub SetTime : Type 0
SetTime = Option (TimeUnit × ℕ)

abbrev pub is_unit : SetTime → String → Bool
is_unit none w = true
is_unit (some (ex, n)) w = equal_fold w "ex"
is_unit (some (px, n)) w = equal_fold w "px"
is_unit (some (exat, n)) w = equal_fold w "exat"
is_unit (some (pxat, n)) w = equal_fold w "pxat"

abbrev pub IsNumberOf : SetTime → String → Type 0
IsNumberOf none num = Unit
IsNumberOf (some (u, n)) num = atoi num ≡ some (pos n)

abbrev pub time_words : SetTime → String → String → List String
time_words none w num = []
time_words (some (u, n)) w num = w ∷ num ∷ []

-- the nanoseconds of a time, from now on or from 1970 on
abbrev pub nanos : TimeUnit → ℕ → ℕ
nanos ex n = n * 1000000000
nanos px n = n * 1000000
nanos exat n = n * 1000000000
nanos pxat n = n * 1000000

abbrev pub is_relative : TimeUnit → Bool
is_relative ex = true
is_relative px = true
is_relative exat = false
is_relative pxat = false

abbrev pub deadline : ℕ → SetTime → Option ℕ
deadline now none = none
deadline now (some (u, n)) =
    some (if is_relative u then now + nanos u n else unix_origin * nanos_per_second + nanos u n)

-- The duration is an int64 of nanoseconds.
abbrev pub IsNear : SetTime → Type 0
IsNear none = Unit
IsNear (some (u, n)) = nanos u n < 2 ^ 63

abbrev pub may_write : Condition → Bool → Bool
may_write always there = true
may_write if_new there = not there
may_write if_there there = there

fold_other :
    (w a b : String) → equal_fold w a ≡ true → equal_fold a b ≡ false → equal_fold w b ≡ false
fold_other w a b h apart = equal_fold_same w a b h ∙ apart

time_at-deadline :
    (now : ℕ) (u : TimeUnit) (n : ℕ)
    → nanos u n < 2 ^ 63
    → some (time_at now u (pos n)) ≡ deadline now (some (u, n))
unfolding from_unix from_unix_milli mul_int64
time_at-deadline now ex n h = rw (seconds_pos n h)
time_at-deadline now px n h = let small : n % 2 ^ 64 ≡ n = omega arith in rw small (ground arith)
time_at-deadline now exat n h = ap some (omega arith)
time_at-deadline now pxat n h = ap some (omega arith)

abbrev plain : Condition → SetOptions
plain c = record { exists = c; get = false; expire_at = none }

set_options-time :
    (now : ℕ) (c : Condition) (time : SetTime) (w num : String)
    → is_unit time w ≡ true
    → IsNumberOf time num
    → IsNear time
    → set_options now (time_words time w num) (plain c)
      ≡ ok (record { exists = c; get = false; expire_at = deadline now time })
unfolding set_options
set_options-time now c none w num named number near = refl
set_options-time now c (some (ex, n)) w num named number near =
    ground (arith, named, number, time_at-deadline now ex n near)
set_options-time now c (some (px, n)) w num named number near = ground (
  arith,
  named,
  number,
  fold_other w "px" "ex" named (unfold equal_fold in refl),
  time_at-deadline now px n near,
)
set_options-time now c (some (exat, n)) w num named number near = ground (
  arith,
  named,
  number,
  fold_other w "exat" "ex" named (unfold equal_fold in refl),
  fold_other w "exat" "px" named (unfold equal_fold in refl),
  time_at-deadline now exat n near,
)
set_options-time now c (some (pxat, n)) w num named number near = ground (
  arith,
  named,
  number,
  fold_other w "pxat" "ex" named (unfold equal_fold in refl),
  fold_other w "pxat" "px" named (unfold equal_fold in refl),
  fold_other w "pxat" "exat" named (unfold equal_fold in refl),
  time_at-deadline now pxat n near,
)

set_options-condition :
    (now : ℕ) (c : Condition) (w : String) (rest : List String)
    → is_condition c w ≡ true
    → set_options now (condition_words c w ++ rest) no_options ≡ set_options now rest (plain c)
unfolding set_options
set_options-condition now always w rest named = refl
set_options-condition now if_new w [] named = ground (
  arith,
  named,
  fold_other w "nx" "ex" named (unfold equal_fold in refl),
  fold_other w "nx" "px" named (unfold equal_fold in refl),
  fold_other w "nx" "exat" named (unfold equal_fold in refl),
  fold_other w "nx" "pxat" named (unfold equal_fold in refl),
  fold_other w "nx" "get" named (unfold equal_fold in refl),
)
set_options-condition now if_new w (x ∷ rest) named = ground (
  arith,
  named,
  fold_other w "nx" "ex" named (unfold equal_fold in refl),
  fold_other w "nx" "px" named (unfold equal_fold in refl),
  fold_other w "nx" "exat" named (unfold equal_fold in refl),
  fold_other w "nx" "pxat" named (unfold equal_fold in refl),
  fold_other w "nx" "get" named (unfold equal_fold in refl),
)
set_options-condition now if_there w [] named = ground (
  arith,
  named,
  fold_other w "xx" "ex" named (unfold equal_fold in refl),
  fold_other w "xx" "px" named (unfold equal_fold in refl),
  fold_other w "xx" "exat" named (unfold equal_fold in refl),
  fold_other w "xx" "pxat" named (unfold equal_fold in refl),
  fold_other w "xx" "get" named (unfold equal_fold in refl),
  fold_other w "xx" "nx" named (unfold equal_fold in refl),
)
set_options-condition now if_there w (x ∷ rest) named = ground (
  arith,
  named,
  fold_other w "xx" "ex" named (unfold equal_fold in refl),
  fold_other w "xx" "px" named (unfold equal_fold in refl),
  fold_other w "xx" "exat" named (unfold equal_fold in refl),
  fold_other w "xx" "pxat" named (unfold equal_fold in refl),
  fold_other w "xx" "get" named (unfold equal_fold in refl),
  fold_other w "xx" "nx" named (unfold equal_fold in refl),
)

allowed-may_write :
    (c : Condition) (at : Option ℕ) (there : Bool)
    → may_write c there ≡ true
    → allowed (record { exists = c; get = false; expire_at = at }) there ≡ true
allowed-may_write always at there h = refl
allowed-may_write if_new at there h = ground arith
allowed-may_write if_there at there h = ground arith

short_words :
    (c : Condition) (w : String) (time : SetTime) (u num : String)
    → length (condition_words c w ++ time_words time u num) ≤ 4
short_words always w none u num = omega arith
short_words always w (some t) u num = omega arith
short_words if_new w none u num = omega arith
short_words if_new w (some t) u num = omega arith
short_words if_there w none u num = omega arith
short_words if_there w (some t) u num = omega arith

-- SET with no condition, NX or XX, and then no time, EX, PX, EXAT or PXAT with a number of less than 2^63 nanoseconds,
-- each word in upper or lower case, on a standalone server without caches whose memory is not limited, when the key is
-- not there for NX, and there for XX: the reply is OK. The key then holds the value that the text is
-- taken for, and it expires that many seconds or milliseconds after now, or after the start of 1970;
-- without a time, it keeps the expiry time that it had. Every other entry is as it was.
pub handle_set-deadline :
    (fmt : Formats) (parse : String → Option Number) (db : ℤ) (word key t : String) (c : Condition)
    (w : String) (time : SetTime) (u num : String) (s : Server)
    → IsSteady s
    → is_condition c w ≡ true
    → is_unit time u ≡ true
    → IsNumberOf time num
    → IsNear time
    → may_write c (is_there (entry s db key)) ≡ true
    → (s' : Server) × (handle_set fmt db parse
          (word ∷ key ∷ t ∷ condition_words c w ++ time_words time u num)
          s
        ≡ (ok ok_response, s'))
      × Leads s
          (put_view db key
            (record {
              value = scalar (adapt_type parse t);
              expire_at = or_before (deadline s.now time) (get_expiry s db key);
            })
            (entry s))
          s'
handle_set-deadline fmt parse db word key t c w time u num s steady cond unit number near free =
    handle_set-Leads fmt parse db word key t (condition_words c w ++ time_words time u num)
      (record { exists = c; get = false; expire_at = deadline s.now time }) s steady
      (short_words c w time u num)
      (set_options-condition s.now c w (time_words time u num) cond
        ∙ set_options-time s.now c time u num unit number near)
      refl (allowed-may_write c (deadline s.now time) (is_there (entry s db key)) free)
