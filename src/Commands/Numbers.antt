-- ===== src/Commands/Numbers.antt =====
-- internal/utils.go: the types that `AdaptType` gives to texts.
use echo_vault.Base.{String, Option, none, some, ℤ, ℕ, print_int}
use echo_vault.Keyspace.State.{Server, Value, scalar, Scalar, nothing, integer, float, text}

-- a text that `big.ParseFloat` reads: a whole number, as `Int64` gives it, or another, as `Float64`
pub data Number : Type 0 where
  whole : ℤ → Number
  fraction : ℕ → Number

-- `AdaptType`; `parse` is `big.ParseFloat`
abbrev pub adapt_type : (String → Option Number) → String → Scalar
adapt_type parse s = elim (parse s) [
  | none ↦ text s
  | some (whole i) ↦ integer i
  | some (fraction f) ↦ float f
]

-- `AdaptType(s).(int)`
abbrev pub as_int : (String → Option Number) → String → Option ℤ
as_int parse s = elim (adapt_type parse s) [
  | nothing ↦ none
  | integer i ↦ some i
  | float f ↦ none
  | text t ↦ none
]

-- What the handlers use of the numbers and prints of other packages: the floats of `strconv` and of the
-- machine, and `%v` on a value that is no scalar.
pub record Formats : Type 0 where
  pub parse_float : String → Option ℕ
  pub add_float : ℕ → ℕ → ℕ
  pub of_int : ℤ → ℕ
  pub print_float : ℕ → String
  pub print_other : Server → Value → String
  pub print_type : Value → String

-- `fmt.Sprintf("%v", value)`
unfoldable pub print_value : Formats → Server → Value → String
print_value fmt s (scalar nothing) = "<nil>"
print_value fmt s (scalar (integer i)) = print_int i
print_value fmt s (scalar (float f)) = fmt.print_float f
print_value fmt s (scalar (text t)) = t
print_value fmt s v = fmt.print_other s v
