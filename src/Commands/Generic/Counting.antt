-- ===== src/Commands/Generic/Counting.antt =====
-- internal/modules/generic/commands.go: counters under INCR, DECR, INCRBY and DECRBY.
use echo_vault.Base.{
  ℕ, zero, suc, ◌+◌, ◌^◌, ◌<◌, ◌≡◌, refl, ap, ◌∙◌, String, false, Option, some, List, [], ◌∷◌,
  arith, int_beq_iff, eq_iff, ℤ, pos, add_int64, atoi, print_int, atoi-print_int,
}
use echo_vault.Keyspace.State.{Server, KeyData, scalar, text, ok, entry, expired}
use echo_vault.Keyspace.Access.{get_expiry}
use echo_vault.Commands.Exec.{signed_number}
use echo_vault.Commands.Steady.{put_view, IsSteady, Leads, store_values-Leads}
use echo_vault.Commands.Generic.Counters.{count_by, handle_incr}
use echo_vault.Commands.Generic.Laws.{value_of-live_Leads, Leads-trans, put_view_hit}

-- The entry of a counter.
abbrev pub counter : ℤ → Option ℕ → KeyData
counter i t = record { value = scalar (text (print_int i)); expire_at = t }

pub get_expiry-entry :
    (db : ℤ) (key : String) (d : KeyData) (s : Server)
    → entry s db key ≡ some d
    → get_expiry s db key ≡ d.expire_at
unfolding get_expiry
get_expiry-entry db key d s found = rw (found, get_expiry)

-- A step of a counter: the new number in decimal, under the expiry time of before.
pub count_by-Leads :
    (db : ℤ) (initial i : ℤ) (step : ℤ → ℤ) (key t : String) (at : Option ℕ) (s : Server)
    → IsSteady s
    → entry s db key ≡ some (record { value = scalar (text t); expire_at = at })
    → expired s.now (record { value = scalar (text t); expire_at = at }) ≡ false
    → atoi t ≡ some i
    → (s' : Server) × (count_by db initial step key s ≡ (ok (signed_number (step i)), s'))
      × Leads s (put_view db key (counter (step i) at) (entry s)) s'
unfolding count_by get_expiry
count_by-Leads db initial i step key t at s steady found fresh read =
    let d : KeyData = record { value = scalar (text t); expire_at = at } in
    let (s1, seen, first_step) = value_of-live_Leads db key d s steady found fresh in
    let (s2, wrote, second_step) =
      store_values-Leads db key (scalar (text (print_int (step i)))) s1 first_step.steady tt in
    (
      s2,
      ground (arith, seen, read, wrote),
      Leads-trans _ first_step second_step
          (λ db' key'. ground (arith, first_step.look db' key', first_step.look db key)),
    )

-- `n` INCRs one after the other
unfoldable pub incr_each : ℕ → ℤ → List String → Server → Server
incr_each zero db cmd s = s
incr_each (suc n) db cmd s = incr_each n db cmd (handle_incr db cmd s).1

add_int64_one : (n : ℕ) → n + 1 < 2 ^ 63 → add_int64 (pos n) (pos 1) ≡ pos (n + 1)
unfolding add_int64
add_int64_one n h = ground arith

handle_incr-Leads :
    (db : ℤ) (word key : String) (n : ℕ) (t : Option ℕ) (s : Server)
    → IsSteady s
    → entry s db key ≡ some (counter (pos n) t)
    → expired s.now (counter (pos n) t) ≡ false
    → n + 1 < 2 ^ 63
    → (s' : Server) × (handle_incr db (word ∷ key ∷ []) s ≡ (ok (signed_number (pos (n + 1))), s'))
      × Leads s (put_view db key (counter (pos (n + 1)) t) (entry s)) s'
unfolding handle_incr
handle_incr-Leads db word key n t s steady found fresh h =
    let next = add_int64_one n h in
    let (s', done, step) =
      count_by-Leads db (pos 1) (pos n) (λ i. add_int64 i (pos 1)) key (print_int (pos n)) t s
        steady found fresh (atoi-print_int (pos n) (omega arith)) in
    let replied : handle_incr db (word ∷ key ∷ []) s
        ≡ (ok (signed_number (add_int64 (pos n) (pos 1))), s') =
      done in
    (s', (rw next at replied), (rw next at step))

-- A counter that has not expired, with a number `n` of zero or more, under `k` INCRs on a standalone
-- server without caches whose memory is not limited, while the numbers stay below 2^63: the counter then
-- holds `n + k` in decimal, with the expiry time of before, every other entry is as it was, and one more INCR replies with the
-- number that comes next.
pub incr_each-counts :
    (k : ℕ) (db : ℤ) (word key : String) (n : ℕ) (t : Option ℕ) (s : Server)
    → IsSteady s
    → entry s db key ≡ some (counter (pos n) t)
    → expired s.now (counter (pos n) t) ≡ false
    → n + k + 1 < 2 ^ 63
    → Leads s
        (put_view db key (counter (pos (n + k)) t) (entry s))
        (incr_each k db (word ∷ key ∷ []) s)
      × ((handle_incr db (word ∷ key ∷ []) (incr_each k db (word ∷ key ∷ []) s)).0
          ≡ ok (signed_number (pos (n + k + 1))))
unfolding incr_each
incr_each-counts zero db word key n t s steady found fresh h =
    let (s1, done, step) = handle_incr-Leads db word key n t s steady found fresh (omega arith) in
    let same : n + 0 ≡ n = omega arith in
    rw (same, incr_each)
      (
        record {
          steady = steady;
          clock = refl;
          look = λ db' key'. ground (arith, int_beq_iff db db', eq_iff key key');
        },
        rw done,
      )
incr_each-counts (suc k) db word key n t s steady found fresh h =
    let (s1, done, step) = handle_incr-Leads db word key n t s steady found fresh (omega arith) in
    let d = counter (pos (n + 1)) t in
    let held : entry s1 db key ≡ some d = step.look db key ∙ put_view_hit db key d (entry s) in
    let (after, reply) =
      incr_each-counts k db word key (n + 1) t s1 step.steady held
        (ap (λ w. expired w d) step.clock ∙ fresh) (omega arith) in
    let same : n + 1 + k ≡ n + suc k = omega arith in
    rw done (
      Leads-trans _ step (rw same at after) (λ db' key'. ground (arith, step.look db' key')),
      (rw same at reply),
    )
