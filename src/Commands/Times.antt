-- ===== src/Commands/Times.antt =====
-- `time.Time` as the clock of internal/clock and the handlers use it: the nanoseconds since the earliest
-- time that Go represents, 2^63 seconds before the start of year 1. The zero time is `none` where a time
-- may be missing: no clock and no Unix time gives it.
use echo_vault.Base.{ℕ, ◌+◌, ◌-◌, ◌*◌, ◌/◌, ◌%◌, ◌^◌, ℤ, pos, negsuc, suc, bits, int64, mul_int64}

-- seconds from the origin above to 1970
abbrev pub unix_origin : ℕ
unix_origin = 2 ^ 63 + 62135596800

abbrev pub nanos_per_second : ℕ
nanos_per_second = 1000000000

-- `t.Add(d)`, for a `t` that is further than `d` from the ends of the range, where Go stops
abbrev pub add_duration : ℕ → ℤ → ℕ
add_duration t (pos d) = t + d
add_duration t (negsuc d) = t - suc d

-- `time.Duration(n) * time.Second` and `time.Duration(n) * time.Millisecond`, which wrap
abbrev pub seconds : ℤ → ℤ
seconds n = mul_int64 n (pos 1000000000)

abbrev pub milliseconds : ℤ → ℤ
milliseconds n = mul_int64 n (pos 1000000)

-- `time.Unix(n, 0)`
unfoldable pub from_unix : ℤ → ℕ
from_unix n = ((bits n + unix_origin) % 2 ^ 64) * nanos_per_second

-- `a / b` and `a mod b` that round down
abbrev pub floor_div : ℤ → ℕ → ℤ
floor_div (pos n) b = pos (n / b)
floor_div (negsuc n) b = negsuc (n / b)

abbrev pub floor_mod : ℤ → ℕ → ℕ
floor_mod (pos n) b = n % b
floor_mod (negsuc n) b = b - 1 - n % b

-- `time.UnixMilli(n)`
unfoldable pub from_unix_milli : ℤ → ℕ
unfolding from_unix
from_unix_milli n = from_unix (floor_div n 1000) + floor_mod n 1000 * 1000000

-- `t.Unix()` and `t.UnixMilli()`
unfoldable pub to_unix : ℕ → ℤ
to_unix t = int64 (t / nanos_per_second + (2 ^ 64 - unix_origin))

unfoldable pub to_unix_milli : ℕ → ℤ
unfolding to_unix
to_unix_milli t = int64 (bits (mul_int64 (to_unix t) (pos 1000)) + t % nanos_per_second / 1000000)
