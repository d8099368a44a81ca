-- ===== src/Base/Text.antt =====
-- Texts: case-insensitive comparison of ASCII texts, and `strconv.Atoi`.
use Prim.Native.Nat.{ℕ, zero, suc, ◌+◌, ◌-◌, ◌*◌, ◌^◌}
use Prim.Native.Char.{Char, code}
use Prim.Native.String.{String}
use mathlib.Core.Path.{◌≡◌, refl}
use native.Mathlib.Omega.{arith}
use mathlib.Core.Bool.{Bool, true, false, ◌&&◌}
use mathlib.Core.List.{List, [], ◌∷◌}
use mathlib.Core.Option.{Option, none, some}
use echo_vault.Base.Tests.{leb, ◌==◌, nat_eq, if◌then◌else◌}
use echo_vault.Base.Int.{ℤ, pos, negsuc}
use echo_vault.Base.Lists.{length, get_elem?}

-- The code points of a text.
abbrev pub codes : String → List ℕ
codes String.[] = []
codes (String.◌∷◌ c s) = code c ∷ codes s

abbrev pub to_lower : ℕ → ℕ
to_lower c = if leb b'A' c && leb c b'Z' then c + 32 else c

abbrev pub same_codes : List ℕ → List ℕ → Bool
same_codes [] [] = true
same_codes (a ∷ as_a) (b ∷ as_b) = to_lower a == to_lower b && same_codes as_a as_b
same_codes _ _ = false

-- `strings.EqualFold`, and `strings.ToLower(s) == t` for a `t` in lower case
unfoldable pub equal_fold : String → String → Bool
equal_fold s t = same_codes (codes s) (codes t)

same_codes_same :
    (ws as_a as_b : List ℕ) → same_codes ws as_a ≡ true → same_codes ws as_b ≡ same_codes as_a as_b
same_codes_same [] [] as_b h = refl
same_codes_same [] (a ∷ as_a) as_b h = absurd (ground (arith, h))
same_codes_same (w ∷ ws) [] as_b h = absurd (ground (arith, h))
same_codes_same (w ∷ ws) (a ∷ as_a) [] h = refl
same_codes_same (w ∷ ws) (a ∷ as_a) (b ∷ as_b) h = ground (arith, same_codes_same ws as_a as_b)

-- A text that folds to another compares as the other does.
pub equal_fold_same : (w a b : String) → equal_fold w a ≡ true → equal_fold w b ≡ equal_fold a b
unfolding equal_fold
equal_fold_same w a b h = same_codes_same (codes w) (codes a) (codes b) h

abbrev pub digits : ℕ → List ℕ → Option ℕ
digits n [] = some n
digits n (c ∷ rest) = if leb b'0' c && leb c b'9' then digits (n * 10 + (c - b'0')) rest else none

abbrev pub negate : ℕ → ℤ
negate zero = pos 0
negate (suc n) = negsuc n

-- at least one digit, and a value of at most `limit`
abbrev pub magnitude : ℕ → List ℕ → Option ℕ
magnitude limit [] = none
magnitude limit (c ∷ rest) = elim (digits 0 (c ∷ rest)) [
  | none ↦ none
  | some n ↦ if leb n limit then some n else none
]

abbrev pub signed : List ℕ → Option ℤ
signed [] = none
signed (c ∷ rest) =
    if c == b'-'
    then elim (magnitude (2 ^ 63) rest) [ none ↦ none | some n ↦ some (negate n) ]
    else elim (magnitude (2 ^ 63 - 1) (if c == b'+' then rest else c ∷ rest)) [
      | none ↦ none
      | some n ↦ some (pos n)
    ]

-- `strconv.Atoi`; `none` is its error
unfoldable pub atoi : String → Option ℤ
atoi s = signed (codes s)

-- `s[i]`; `none` is out of range
abbrev pub code_at : ℕ → String → Option ℕ
code_at i s = get_elem? (codes s) i

-- `len(s)`
abbrev pub size : String → ℕ
size s = length (codes s)

-- `s[n:]` and `s[:n]`, for an `n` within the text
unfoldable pub drop_text : ℕ → String → String
drop_text zero s = s
drop_text (suc n) String.[] = String.[]
drop_text (suc n) (String.◌∷◌ c s) = drop_text n s

unfoldable pub take_text : ℕ → String → String
take_text zero s = String.[]
take_text (suc n) String.[] = String.[]
take_text (suc n) (String.◌∷◌ c s) = String.◌∷◌ c (take_text n s)

-- the place behind the first `c`, the start where there is none: `strings.Index(s, c) + 1`
abbrev pub after : ℕ → List ℕ → Option ℕ
after c [] = none
after c (d ∷ rest) =
    let later = after c rest in
    if d == c then some 1 else elim later [ none ↦ none | some i ↦ some (i + 1) ]

abbrev pub after_first : ℕ → String → ℕ
after_first c s = elim (after c (codes s)) [ none ↦ 0 | some i ↦ i ]

-- `strings.ToUpper` of an ASCII text: the character at a place of a text, and the text in upper case
abbrev char_at : Char → ℕ → String → Char
char_at c i String.[] = c
char_at c zero (String.◌∷◌ d s) = d
char_at c (suc i) (String.◌∷◌ d s) = char_at c i s

abbrev pub upper_char : Char → Char
upper_char c =
    if leb b'a' (code c) then char_at c (code c - b'a') "ABCDEFGHIJKLMNOPQRSTUVWXYZ" else c

unfoldable pub to_upper : String → String
to_upper String.[] = String.[]
to_upper (String.◌∷◌ c s) = String.◌∷◌ (upper_char c) (to_upper s)
