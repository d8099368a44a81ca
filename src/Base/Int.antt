-- ===== src/Base/Int.antt =====
-- Go's `int` as a signed number over the native numbers (`negsuc n` is -(n + 1)).
use Prim.Native.Nat.{ℕ, suc, ◌+◌, ◌-◌, ◌*◌, ◌%◌, ◌^◌}
use mathlib.Core.Path.{◌≡◌}
use mathlib.Core.Logic.{◌↔◌}
use mathlib.Core.Bool.{Bool, true, false}
use native.Mathlib.Omega.{arith}
use echo_vault.Base.Tests.{Eq, ltb, leb, nat_beq, if◌then◌else◌}

pub data ℤ : Type 0 where
  pos : ℕ → ℤ
  negsuc : ℕ → ℤ

abbrev pub int_beq : ℤ → ℤ → Bool
int_beq (pos a) (pos b) = nat_beq a b
int_beq (negsuc a) (negsuc b) = nat_beq a b
int_beq _ _ = false

pub int_beq_iff : (a b : ℤ) → (int_beq a b ≡ true) ↔ (a ≡ b)
int_beq_iff (pos a) (pos b) = ground arith
int_beq_iff (pos a) (negsuc b) = ground arith
int_beq_iff (negsuc a) (pos b) = ground arith
int_beq_iff (negsuc a) (negsuc b) = ground arith

instance abbrev pub int_eq : Eq ℤ
int_eq = record { beq = int_beq; beq_iff = int_beq_iff }

-- `n < 0`
abbrev pub is_neg : ℤ → Bool
is_neg (pos n) = false
is_neg (negsuc n) = true

-- `AbsInt` of internal/utils.go, as a number of rounds: the least int64 stays negative, which is none.
abbrev pub abs : ℤ → ℕ
abs (pos n) = n
abs (negsuc n) = if nat_beq n (2 ^ 63 - 1) then 0 else suc n

-- Machine integers: the bit pattern of an int64, and the int64 of a bit pattern.
abbrev pub bits : ℤ → ℕ
bits (pos n) = n % 2 ^ 64
bits (negsuc n) = 2 ^ 64 - 1 - n % 2 ^ 64

abbrev pub int64 : ℕ → ℤ
int64 n = if ltb (n % 2 ^ 64) (2 ^ 63) then pos (n % 2 ^ 64) else negsuc (2 ^ 64 - 1 - n % 2 ^ 64)

-- `n + i` for a length `n` and an `int` `i`
abbrev pub offset : ℕ → ℤ → ℤ
offset n (pos i) = pos (n + i)
offset n (negsuc i) = if leb (suc i) n then pos (n - suc i) else negsuc (i - n)

-- `n - i` for a length `n` and an `int` `i`, with the overflow of a far negative `i`
abbrev pub back : ℕ → ℤ → ℤ
back n (pos i) = if leb i n then pos (n - i) else negsuc (i - n - 1)
back n (negsuc i) = if ltb (n + suc i) (2 ^ 63) then pos (n + suc i) else int64 (n + suc i)

-- `a < b`
abbrev pub ltb_ℤ : ℤ → ℤ → Bool
ltb_ℤ (pos a) (pos b) = ltb a b
ltb_ℤ (pos a) (negsuc b) = false
ltb_ℤ (negsuc a) (pos b) = true
ltb_ℤ (negsuc a) (negsuc b) = ltb b a

-- `a + b`, `a - b` and `a * b` on int64
unfoldable pub add_int64 : ℤ → ℤ → ℤ
add_int64 a b = int64 (bits a + bits b)

unfoldable pub sub_int64 : ℤ → ℤ → ℤ
sub_int64 a b = int64 (bits a + (2 ^ 64 - bits b))

unfoldable pub mul_int64 : ℤ → ℤ → ℤ
mul_int64 a b = int64 (bits a * bits b)

-- `a - b`, where nothing overflows
abbrev pub sub_ℕ : ℕ → ℕ → ℤ
sub_ℕ a b = if leb b a then pos (a - b) else negsuc (b - a - 1)
