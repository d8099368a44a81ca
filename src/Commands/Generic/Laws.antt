-- ===== src/Commands/Generic/Laws.antt =====
-- internal/modules/generic/commands.go: what SET, RENAME and DEL leave in the store.
use echo_vault.Base.{
  ℕ, ◌≤◌, ◌≡◌, refl, ◌∙◌, String, Bool, true, false, not, ◌&&◌, Option, none, some, List, [], ◌∷◌,
  arith, inl, inr, Option-cases, if◌then◌else◌, string_eq, int_eq, eq_iff, int_beq_iff, ℤ, length,
  lookup-insert, insert,
}
use echo_vault.Keyspace.State.{Server, KeyData, scalar, ok, err, entry, expired}
use echo_vault.Keyspace.Access.{get_expiry, keys_exist}
use echo_vault.Keyspace.Laws.{shows}
use echo_vault.Commands.Numbers.{Number, Formats, adapt_type}
use echo_vault.Commands.Exec.{ok_response, key_exists, clock_now, value_of}
use echo_vault.Commands.Steady.{
  View, put_view, drop_view, IsSteady, Leads, store_values-Leads, put_expiry-Leads,
}
use echo_vault.Commands.Steady.Reads.{read_view, remove_key-Leads, value_of-Leads}
use echo_vault.Commands.Generic.{handle_set, handle_rename, is_nil, no_such_key, key_is_there}
use echo_vault.Commands.Generic.Options.{SetOptions, no_options, set_options, is_nx, is_xx}

abbrev pub is_there : Option KeyData → Bool
is_there none = false
is_there (some d) = true

pub key_exists-entry :
    (db : ℤ) (key : String) (s : Server) → key_exists db key s ≡ (ok (is_there (entry s db key)), s)
unfolding key_exists keys_exist insert
key_exists-entry db key s = elim (Option-cases (entry s db key)) [
  | inl gone ↦ rw gone (ground (arith, gone, lookup-insert key false [] key, eq_iff key key))
  | inr (d, found) ↦ rw found (ground (arith, found, lookup-insert key true [] key, eq_iff key key))
]

pub put_view_hit :
    (db : ℤ) (key : String) (d : KeyData) (f : View) → put_view db key d f db key ≡ some d
put_view_hit db key d f = ground (arith, int_beq_iff db db, eq_iff key key)

pub Leads-trans :
    {s s1 s2 : Server} {f g : View} (h : View)
    → Leads s f s1
    → Leads s1 g s2
    → ((db : ℤ) (key : String) → g db key ≡ h db key)
    → Leads s h s2
Leads-trans h a b same = record {
  steady = b.steady;
  clock = b.clock ∙ a.clock;
  look = λ db key. b.look db key ∙ same db key;
}

-- the condition of SET lets a write through
abbrev pub allowed : SetOptions → Bool → Bool
allowed o there = not (is_xx o && not there) && not (is_nx o && there)

abbrev pub or_before : Option ℕ → Option ℕ → Option ℕ
or_before none before = before
or_before (some t) before = some t

-- SET with any options but GET, on a standalone server without caches whose memory is not limited,
-- when the options are read without an error and their condition holds: the reply is OK. The key then holds the
-- value that the text is taken for, and it expires at the time that the options give; where
-- they give none, it keeps the expiry time that it had. Every other entry is as it was.
pub handle_set-Leads :
    (fmt : Formats) (parse : String → Option Number) (db : ℤ) (word key t : String)
    (opts : List String) (o : SetOptions) (s : Server)
    → IsSteady s
    → length opts ≤ 4
    → set_options s.now opts no_options ≡ ok o
    → o.get ≡ false
    → allowed o (is_there (entry s db key)) ≡ true
    → (s' : Server) × (handle_set fmt db parse (word ∷ key ∷ t ∷ opts) s ≡ (ok ok_response, s'))
      × Leads s
          (put_view db key
            (record {
              value = scalar (adapt_type parse t);
              expire_at = or_before o.expire_at (get_expiry s db key);
            })
            (entry s))
          s'
unfolding handle_set clock_now
handle_set-Leads fmt parse db word key t opts o s steady short read quiet let_in =
    let v = scalar (adapt_type parse t) in
    let (s1, wrote, first_step) = store_values-Leads db key v s steady tt in
    let there = key_exists-entry db key s in
    elim (Option-cases o.expire_at) [
      | inl timeless ↦
          (s1, ground (arith, there, read, quiet, wrote, timeless), rw timeless first_step)
      | inr (at, timed) ↦
          let before : KeyData = record { value = v; expire_at = get_expiry s db key } in
          let held : entry s1 db key ≡ some before =
            first_step.look db key ∙ put_view_hit db key before (entry s) in
          let (s2, set, second_step) =
            put_expiry-Leads db key (some at) false before s1 first_step.steady held in
          (
            s2,
            ground (arith, there, read, quiet, wrote, timed, set),
            rw timed (
                Leads-trans _ first_step second_step
                  (λ db' key'. ground (arith, first_step.look db' key'))),
          )
    ]

-- SET with any options that are read without an error, when their condition does not hold: with XX on a
-- key that is not there, or NX on one that is, it fails with a message that names the key, and nothing
-- changes.
pub handle_set_blocked :
    (fmt : Formats) (parse : String → Option Number) (db : ℤ) (word key t : String)
    (opts : List String) (o : SetOptions) (s : Server)
    → length opts ≤ 4
    → set_options s.now opts no_options ≡ ok o
    → o.get ≡ false
    → allowed o (is_there (entry s db key)) ≡ false
    → handle_set fmt db parse (word ∷ key ∷ t ∷ opts) s
      ≡ (err (if is_xx o then no_such_key key else key_is_there key), s)
unfolding handle_set clock_now
handle_set_blocked fmt parse db word key t opts o s short read quiet blocked =
    ground (arith, key_exists-entry db key s, read, quiet)

-- What a reader finds at a key that has not expired.
pub shows-entry :
    (db : ℤ) (key : String) (d : KeyData) (s : Server)
    → entry s db key ≡ some d
    → expired s.now d ≡ false
    → shows s db key ≡ d.value
unfolding shows
shows-entry db key d s found fresh = rw (found, fresh, shows)

-- A read of a key that has not expired leaves every entry.
pub value_of-live_Leads :
    (db : ℤ) (key : String) (d : KeyData) (s : Server)
    → IsSteady s
    → entry s db key ≡ some d
    → expired s.now d ≡ false
    → (s' : Server) × (value_of db key s ≡ (ok d.value, s')) × Leads s (entry s) s'
value_of-live_Leads db key d s steady found fresh =
    let (s', seen, step) = value_of-Leads db key s steady in
    (s', rw (shows-entry db key d s found fresh) at seen, rw (found, fresh, read_view) at step)

-- RENAME of a key with a value that has not expired, on a standalone server without caches whose memory is not
-- limited: the reply is OK. The new key holds the value, with the expiry time that the new key had before and not
-- that of the old key; then the old key is gone, also when the new key is the same; every other entry is as
-- it was.
pub handle_rename-Leads :
    (db : ℤ) (word old new : String) (d : KeyData) (s : Server)
    → IsSteady s
    → entry s db old ≡ some d
    → expired s.now d ≡ false
    → is_nil d.value ≡ false
    → (s' : Server) × (handle_rename db (word ∷ old ∷ new ∷ []) s ≡ (ok ok_response, s'))
      × Leads s
          (drop_view db old (
            put_view db new
              (record { value = d.value; expire_at = get_expiry s db new })
              (entry s)))
          s'
unfolding handle_rename get_expiry
handle_rename-Leads db word old new d s steady found fresh full =
    let (s1, seen, first_step) = value_of-live_Leads db old d s steady found fresh in
    let (s2, wrote, second_step) =
      store_values-Leads db new d.value s1 first_step.steady (steady.known db old d found) in
    let (s3, gone, tried, third_step) = remove_key-Leads db old s2 second_step.steady in
    (
      s3,
      ground (arith, seen, wrote, gone),
      Leads-trans _ first_step (Leads-trans _ second_step third_step (λ db' key'. refl))
          (λ db' key'.
            ground
              (arith, second_step.look db' key', first_step.look db' key', first_step.look db new)),
    )

-- RENAME of a key that is not there, or has expired: it fails, and what the store shows stays.
pub handle_rename_missing :
    (db : ℤ) (word old new : String) (s : Server)
    → IsSteady s
    → is_nil (shows s db old) ≡ true
    → (s' : Server) × (handle_rename db (word ∷ old ∷ new ∷ []) s ≡ (err "no such key", s'))
      × Leads s (read_view s db old) s'
unfolding handle_rename
handle_rename_missing db word old new s steady empty =
    let (s1, seen, step) = value_of-Leads db old s steady in (s1, ground (arith, seen), step)
