-- ===== src/Commands/Generic/Usage.antt =====
-- internal/modules/generic/commands.go: RANDOMKEY, TOUCH, OBJECT FREQ and OBJECT IDLETIME, with their key functions.
use echo_vault.Base.{
  ℕ, ◌-◌, ◌*◌, String, Option, none, some, List, if◌then◌else◌, ◌==◌, nat_eq, ltb, length, drop, ℤ,
  pos, print_int,
}
use echo_vault.Sets.{Draws}
use echo_vault.Keyspace.State.{Server, Result, ok, err, panic}
use echo_vault.Keyspace.Evict.{update_keys_in_cache}
use echo_vault.Keyspace.Sampling.{random_key, object_freq, access_time}
use echo_vault.Commands.Exec.{Exec, ◌>>=◌, pure, lift, wrong_args, Keys, Reply, simple}
use echo_vault.Commands.Sets.{first, read_only}

-- `touchKeyFunc`
abbrev pub touch_key_func : List String → Result Keys
touch_key_func cmd = if ltb (length cmd) 2 then err wrong_args else read_only (drop 1 cmd)

-- `objFreqKeyFunc` and `objIdleTimeKeyFunc`
abbrev pub object_key_func : List String → Result Keys
object_key_func cmd = if length cmd == 2 then read_only (drop 1 cmd) else err wrong_args

-- the answer of `params.Touchkey(params.Context, keys)`; `none` is fuel that ran out
abbrev pub touched :
    Option (Result (Server × ℕ × Option String)) → Server → Option (Result Reply × Server)
touched none s = none
touched (some (ok (s', n, none))) s = some (ok (simple (print_int (pos n))), s')
touched (some (ok (s', n, some e))) s = some (err e, s')
touched (some (err e)) s = some (err e, s)
touched (some panic) s = some (panic, s)

module _ (db : ℤ) where
  -- `handleRandomkey`, which does not look at its arguments
  unfoldable pub handle_randomkey : ℕ → List String → Exec Reply
  handle_randomkey draw cmd s = (ok (simple (random_key draw db s)), s)

  -- `handleTouch`
  unfoldable pub handle_touch : Draws → ℕ → List String → Server → Option (Result Reply × Server)
  handle_touch draws fuel cmd s = elim (touch_key_func cmd) [
    | err e ↦ some (err e, s)
    | panic ↦ some (panic, s)
    | ok keys ↦ touched (update_keys_in_cache draws fuel db keys.read_keys s) s
  ]

  -- `handleObjFreq`
  unfoldable pub handle_objfreq : List String → Exec Reply
  handle_objfreq cmd = do
    keys ← lift (object_key_func cmd)
    n ← λ s. (object_freq db (first keys.read_keys) s, s)
    pure (simple (print_int (pos n)))

  -- `handleObjIdleTime`; `print_seconds` prints a number of nanoseconds as seconds
  unfoldable pub handle_objidletime : (ℕ → String) → List String → Exec Reply
  handle_objidletime print_seconds cmd = do
    keys ← lift (object_key_func cmd)
    t ← λ s. (access_time db (first keys.read_keys) s, s)
    λ s. (ok (simple (print_seconds (s.now - t * 1000000))), s)
