-- ===== src/Commands/Generic/Deadlines.antt =====
-- internal/modules/generic/commands.go: EXPIRE and TTL, EXPIREAT and EXPIRETIME.
use echo_vault.Base.{
  ℕ, ◌+◌, ◌-◌, ◌*◌, ◌/◌, ◌%◌, ◌^◌, ◌<◌, ◌≡◌, ap, ◌∙◌, String, true, false, some, [], ◌∷◌, arith, ℤ,
  pos, negsuc, bits, int64, mul_int64, sub_int64, atoi, IsInt64, equal_fold,
}
use echo_vault.Keyspace.State.{Server, KeyData, ok, entry}
use echo_vault.Commands.Exec.{number, signed_number, clock_now, expiry_of}
use echo_vault.Commands.Steady.{put_view, IsSteady, Leads, put_expiry-Leads}
use echo_vault.Commands.Generic.Expiry.{
  handle_expire, handle_expireat, handle_ttl, handle_expiretime, expire_to,
}
use echo_vault.Commands.Generic.Laws.{key_exists-entry, put_view_hit}
use echo_vault.Commands.Generic.Counting.{get_expiry-entry}
use echo_vault.Commands.Times.{
  unix_origin, nanos_per_second, add_duration, seconds, from_unix, to_unix,
}

-- A machine integer is its bit pattern.
bits-int64 : (n : ℕ) → bits (int64 n) ≡ n % 2 ^ 64
bits-int64 n = ground arith

int64-bits : (i : ℤ) → IsInt64 i → int64 (bits i) ≡ i
int64-bits (pos n) h = ground arith
int64-bits (negsuc n) h = ground arith

int64-mod : (m n : ℕ) → m % 2 ^ 64 ≡ n % 2 ^ 64 → int64 m ≡ int64 n
int64-mod m n h = rw h

whole_seconds : (q : ℕ) → q * nanos_per_second / nanos_per_second ≡ q
whole_seconds q = omega arith

later_seconds :
    (now n : ℕ) → (now + n * nanos_per_second) / nanos_per_second ≡ now / nanos_per_second + n
later_seconds now n = omega arith

-- A Unix time of whole seconds is read back, over the whole range of int64.
pub to_unix-from_unix : (i : ℤ) → IsInt64 i → to_unix (from_unix i) ≡ i
unfolding to_unix from_unix
to_unix-from_unix i h = rw whole_seconds (
    int64-mod ((bits i + unix_origin) % 2 ^ 64 + (2 ^ 64 - unix_origin)) (bits i) (omega arith)
    ∙ int64-bits i h)

pub seconds_pos : (n : ℕ) → n * 1000000000 < 2 ^ 63 → seconds (pos n) ≡ pos (n * 1000000000)
unfolding mul_int64
seconds_pos n h = let small : n % 2 ^ 64 ≡ n = omega arith in rw small (ground arith)

sub_int64-int64 :
    (a b : ℕ) → sub_int64 (int64 a) (int64 b) ≡ int64 (a % 2 ^ 64 + (2 ^ 64 - b % 2 ^ 64))
unfolding sub_int64
sub_int64-int64 a b = ap int64 (rw (bits-int64 a, bits-int64 b))

-- The seconds between a time and the same time `n` seconds later.
sub_int64-to_unix :
    (now n : ℕ)
    → n * 1000000000 < 2 ^ 63
    → sub_int64 (to_unix (add_duration now (seconds (pos n)))) (to_unix now) ≡ pos n
unfolding to_unix
sub_int64-to_unix now n h =
    rw (seconds_pos n h, later_seconds now n)
      (sub_int64-int64 (now / nanos_per_second + n + (2 ^ 64 - unix_origin))
          (now / nanos_per_second + (2 ^ 64 - unix_origin))
        ∙ (int64-mod _ (bits (pos n)) (omega arith) ∙ int64-bits (pos n) (omega arith)))

-- EXPIRE of a key that is there, without a condition.
handle_expire-Leads :
    (db : ℤ) (word key t : String) (n : ℤ) (d : KeyData) (s : Server)
    → IsSteady s
    → equal_fold word "pexpire" ≡ false
    → atoi t ≡ some n
    → entry s db key ≡ some d
    → (s' : Server) × (handle_expire db (word ∷ key ∷ t ∷ []) s ≡ (ok (number 1), s'))
      × Leads s
          (put_view db key
            (record { value = d.value; expire_at = some (add_duration s.now (seconds n)) })
            (entry s))
          s'
unfolding handle_expire expire_to clock_now
handle_expire-Leads db word key t n d s steady named read found =
    let (s', set, step) =
      put_expiry-Leads db key (some (add_duration s.now (seconds n))) true d s steady found in
    (s', ground (arith, key_exists-entry db key s, found, read, set), step)

handle_expireat-Leads :
    (db : ℤ) (word key t : String) (n : ℤ) (d : KeyData) (s : Server)
    → IsSteady s
    → equal_fold word "pexpireat" ≡ false
    → atoi t ≡ some n
    → entry s db key ≡ some d
    → (s' : Server) × (handle_expireat db (word ∷ key ∷ t ∷ []) s ≡ (ok (number 1), s'))
      × Leads s
          (put_view db key (record { value = d.value; expire_at = some (from_unix n) }) (entry s))
          s'
unfolding handle_expireat expire_to
handle_expireat-Leads db word key t n d s steady named read found =
    let (s', set, step) = put_expiry-Leads db key (some (from_unix n)) true d s steady found in
    (s', ground (arith, key_exists-entry db key s, found, read, set), step)

-- EXPIRE of a key that is there, for less than 2^63 nanoseconds, and TTL at the same time, on a standalone server
-- without caches whose memory is not limited: EXPIRE replies with 1, and TTL
-- with the number of seconds that EXPIRE was given.
pub handle_ttl-handle_expire :
    (db : ℤ) (expire ttl key t : String) (n : ℕ) (d : KeyData) (s : Server)
    → IsSteady s
    → equal_fold expire "pexpire" ≡ false
    → equal_fold ttl "pttl" ≡ false
    → atoi t ≡ some (pos n)
    → n * 1000000000 < 2 ^ 63
    → entry s db key ≡ some d
    → (s' : Server) × (handle_expire db (expire ∷ key ∷ t ∷ []) s ≡ (ok (number 1), s'))
      × (handle_ttl db (ttl ∷ key ∷ []) s' ≡ (ok (signed_number (pos n)), s'))
unfolding handle_ttl clock_now expiry_of
handle_ttl-handle_expire db expire ttl key t n d s steady expire_named ttl_named read small found =
    let (s', done, step) =
      handle_expire-Leads db expire key t (pos n) d s steady expire_named read found in
    let at = add_duration s.now (seconds (pos n)) in
    let d' : KeyData = record { value = d.value; expire_at = some at } in
    let held : entry s' db key ≡ some d' = step.look db key ∙ put_view_hit db key d' (entry s) in
    let left : sub_int64 (to_unix at) (to_unix s'.now) ≡ pos n =
      ap (λ w. sub_int64 (to_unix at) (to_unix w)) step.clock ∙ sub_int64-to_unix s.now n small in
    (
      s',
      done,
      ground (arith, key_exists-entry db key s', held, get_expiry-entry db key d' s' held, left),
    )

-- EXPIREAT of a key that is there, with any int64 of Unix seconds, and EXPIRETIME, on a standalone server without caches whose
-- memory is not limited: EXPIREAT replies with 1, and EXPIRETIME with the same number of seconds.
pub handle_expiretime-handle_expireat :
    (db : ℤ) (expireat expiretime key t : String) (n : ℤ) (d : KeyData) (s : Server)
    → IsSteady s
    → equal_fold expireat "pexpireat" ≡ false
    → equal_fold expiretime "pexpiretime" ≡ false
    → atoi t ≡ some n
    → IsInt64 n
    → entry s db key ≡ some d
    → (s' : Server) × (handle_expireat db (expireat ∷ key ∷ t ∷ []) s ≡ (ok (number 1), s'))
      × (handle_expiretime db (expiretime ∷ key ∷ []) s' ≡ (ok (signed_number n), s'))
unfolding handle_expiretime expiry_of
handle_expiretime-handle_expireat db expireat expiretime key t n d s steady set_named get_named read
      word found =
    let (s', done, step) =
      handle_expireat-Leads db expireat key t n d s steady set_named read found in
    let d' : KeyData = record { value = d.value; expire_at = some (from_unix n) } in
    let held : entry s' db key ≡ some d' = step.look db key ∙ put_view_hit db key d' (entry s) in
    (
      s',
      done,
      ground (
        arith,
        key_exists-entry db key s',
        held,
        get_expiry-entry db key d' s' held,
        to_unix-from_unix n word,
      ),
    )
