-- ===== src/Base/Decimal.antt =====
-- Decimal prints, `strconv.Itoa` and `%d`, and their reading by `strconv.ParseInt`.
use Prim.Native.Nat.{ℕ, zero, suc, ◌+◌, ◌-◌, ◌/◌, ◌%◌, ◌^◌, ◌≤◌, ◌<◌}
use Prim.Native.Char.{Char, code}
use Prim.Native.String.{String}
use mathlib.Core.Path.{◌≡◌, refl, ◌∙◌}
use mathlib.Core.Bool.{Bool, true, false}
use mathlib.Core.List.{List, ◌∷◌}
use mathlib.Core.Logic.{inl, inr}
use mathlib.Core.Option.{some}
use native.Mathlib.Omega.{arith}
use echo_vault.Base.Tests.{ltb, ◌==◌, nat_eq, if◌then◌else◌, Bool-cases}
use echo_vault.Base.Int.{ℤ, pos, negsuc}
use echo_vault.Base.Text.{codes, digits, magnitude, signed, atoi}

abbrev pub digit : ℕ → Char
digit n =
    if n == 0
    then "0"
    else if n == 1
    then "1"
    else if n == 2
    then "2"
    else if n == 3
    then "3"
    else if n == 4
    then "4"
    else if n == 5
    then "5"
    else if n == 6
    then "6"
    else if n == 7
    then "7"
    else if n == 8
    then "8"
    else "9"

-- the digits of `n` before a text; the fuel is above `n`
unfoldable pub digits_onto : ℕ → ℕ → String → String
digits_onto zero n rest = rest
digits_onto (suc fuel) n rest =
    let more = digits_onto fuel (n / 10) (String.◌∷◌ (digit (n % 10)) rest) in
    if ltb n 10 then String.◌∷◌ (digit n) rest else more

-- `fmt.Sprintf("%d", n)` and `strconv.Itoa`
unfoldable pub print_int : ℤ → String
unfolding digits_onto
print_int (pos n) = digits_onto (n + 1) n String.[]
print_int (negsuc n) = String.◌∷◌ "-" (digits_onto (n + 2) (n + 1) String.[])

code-if : (b : Bool) (x y : Char) → code (if b then x else y) ≡ (if b then code x else code y)
code-if true x y = refl
code-if false x y = refl

code-digit : (n : ℕ) → n < 10 → code (digit n) ≡ b'0' + n
code-digit n h = simp code-if (ground arith)

digits-digits_onto :
    (fuel n : ℕ) (rest : String)
    → n < fuel
    → digits 0 (codes (digits_onto fuel n rest)) ≡ digits n (codes rest)
unfolding digits_onto
digits-digits_onto zero n rest h = absurd (omega arith)
digits-digits_onto (suc fuel) n rest h = elim (Bool-cases (ltb n 10)) [
  | inl small ↦ rw small (rw (code-digit n (ground arith)) (ground arith))
  | inr large ↦ rw large (
      digits-digits_onto fuel (n / 10) (String.◌∷◌ (digit (n % 10)) rest) (ground arith)
      ∙ rw (code-digit (n % 10) (omega arith)) (ground arith))
]

-- A digit that starts a text, and the rest.
record StartsWithDigit (s : String) : Type 0 where
  head : ℕ
  rest : List ℕ
  shape : codes s ≡ head ∷ rest
  least : b'0' ≤ head
  most : head ≤ b'9'

digits_onto-StartsWithDigit :
    (fuel n : ℕ) (rest : String) → n < fuel → StartsWithDigit (digits_onto fuel n rest)
unfolding digits_onto
digits_onto-StartsWithDigit zero n rest h = absurd (omega arith)
digits_onto-StartsWithDigit (suc fuel) n rest h = elim (Bool-cases (ltb n 10)) [
  | inl small ↦ record {
    head = code (digit n);
    rest = codes rest;
    shape = rw small;
    least = rw (code-digit n (ground arith)) (omega arith);
    most = rw (code-digit n (ground arith)) (ground arith);
  }
  | inr large ↦
      let more =
        digits_onto-StartsWithDigit fuel (n / 10) (String.◌∷◌ (digit (n % 10)) rest)
          (ground arith) in
      record {
        head = more.head;
        rest = more.rest;
        shape = rw large more.shape;
        least = more.least;
        most = more.most;
      }
]

magnitude-digits :
    (limit : ℕ) (cs : List ℕ) (c n : ℕ) (rest : List ℕ)
    → cs ≡ c ∷ rest
    → digits 0 cs ≡ some n
    → n ≤ limit
    → magnitude limit cs ≡ some n
magnitude-digits limit cs c n rest shape read h = ground (arith, shape, read)

magnitude-digits_onto :
    (limit n : ℕ) (fuel : ℕ)
    → n < fuel
    → n ≤ limit
    → magnitude limit (codes (digits_onto fuel n String.[])) ≡ some n
magnitude-digits_onto limit n fuel h fits =
    let start = digits_onto-StartsWithDigit fuel n String.[] h in
    magnitude-digits limit _ start.head n start.rest start.shape
      (digits-digits_onto fuel n String.[] h) fits

-- an `int64`
abbrev pub IsInt64 : ℤ → Type 0
IsInt64 (pos n) = n < 2 ^ 63
IsInt64 (negsuc n) = n < 2 ^ 63

signed_unsigned :
    (cs : List ℕ) (c n : ℕ) (rest : List ℕ)
    → cs ≡ c ∷ rest
    → b'0' ≤ c
    → magnitude (2 ^ 63 - 1) cs ≡ some n
    → signed cs ≡ some (pos n)
signed_unsigned cs c n rest shape h read = ground (arith, shape, read)

-- The decimal print of an int64 is read back as the same number.
pub atoi-print_int : (i : ℤ) → IsInt64 i → atoi (print_int i) ≡ some i
unfolding print_int atoi
atoi-print_int (pos n) h =
    let start = digits_onto-StartsWithDigit (n + 1) n String.[] (omega arith) in
    signed_unsigned _ start.head n start.rest start.shape start.least
      (magnitude-digits_onto (2 ^ 63 - 1) n (n + 1) (omega arith) (omega arith))
atoi-print_int (negsuc n) h =
    let next : n + 1 ≡ suc n = omega arith in
    rw (magnitude-digits_onto (2 ^ 63) (n + 1) (n + 2) (omega arith) (omega arith), next)
