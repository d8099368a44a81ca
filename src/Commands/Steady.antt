-- ===== src/Commands/Steady.antt =====
-- The actions of the handlers on a standalone server that keeps no cache and does not limit its memory,
-- seen through the entries of its store.
pub mod Reads
use echo_vault.Base.{
  ◌≡◌, refl, ap, sym, ◌∙◌, String, Bool, true, false, ◌&&◌, Option, none, some, List, [], ◌∷◌, ◌++◌,
  insert, contains, arith, inl, inr, Option-cases, Bool-cases, if◌then◌else◌, ◌==◌, ℕ, string_eq,
  int_eq, eq_iff, ℤ, lookup, lookup-insert, nested,
}
use echo_vault.Keyspace.State.{
  Server, Value, KeyData, nil_value, standalone, ok, volatile_of, is_max_memory_exceeded, refuses,
  entry, expired,
}
use echo_vault.Keyspace.Access.{
  get_expiry, put_entry, delete_key, read_keys, get_values, data_or_zero, expire_key,
}
use echo_vault.Keyspace.Write.{set_each, ensure_database, set_values, set_expiry}
use echo_vault.Keyspace.Laws.{
  HasNoCache, shows, entry-put_entry, entry-remove_key, config-remove_key, now-remove_key,
  uncache_none,
}
use echo_vault.Keyspace.Writes.{
  IsSupported, has_room, set_value_keeps, get_mem_of_supported, set_value_fits,
}
use echo_vault.Keyspace.Access
use echo_vault.Commands.Laws.{store_values-Rewrites, after_read}
use echo_vault.Commands.Exec.{store_values, put_expiry, value_of, values_of, remove_key, try_remove}

-- What the store holds, entry by entry.
abbrev pub View : Type 0
View = ℤ → String → Option KeyData

abbrev pub put_view : ℤ → String → KeyData → View → View
put_view db key d f db' key' = if db == db' && key == key' then some d else f db' key'

abbrev pub drop_view : ℤ → String → View → View
drop_view db key f db' key' = if db == db' && key == key' then none else f db' key'

-- A value of a supported type in every entry.
abbrev pub IsKnown : View → Type 0
IsKnown f = (db : ℤ) (key : String) (d : KeyData) → f db key ≡ some d → IsSupported d.value

pub record IsSteady (s : Server) : Type 0 where
  pub no_caches : HasNoCache s
  pub unlimited : s.config.max_memory ≡ 0
  pub alone : s.config.mode ≡ standalone
  pub known : IsKnown (entry s)

-- A step from one server to another that leaves the given entries, at the same time.
pub record Leads (s : Server) (f : View) (s' : Server) : Type 0 where
  pub steady : IsSteady s'
  pub clock : s'.now ≡ s.now
  pub look : (db : ℤ) (key : String) → entry s' db key ≡ f db key

-- Only the settings and the entries matter.
pub config-IsSteady :
    (s s' : Server) → IsSteady s → s'.config ≡ s.config → IsKnown (entry s') → IsSteady s'
config-IsSteady s s' steady same known = record {
  no_caches = rw same steady.no_caches;
  unlimited = rw same steady.unlimited;
  alone = rw same steady.alone;
  known = known;
}

pub put_view-IsKnown :
    (db : ℤ) (key : String) (d : KeyData) (f : View)
    → IsKnown f
    → IsSupported d.value
    → IsKnown (put_view db key d f)
put_view-IsKnown db key d f known good db' key' d' found =
    elim (Bool-cases (db == db' && key == key')) [
      | inl here ↦ let e : d ≡ d' = ground arith in (rw e at good)
      | inr elsewhere ↦ known db' key' d' (ground arith)
    ]

put-IsKnown :
    (s s' : Server) (db : ℤ) (key : String) (d : KeyData)
    → IsSteady s
    → IsSupported d.value
    → ((db' : ℤ) (key' : String) → entry s' db' key' ≡ put_view db key d (entry s) db' key')
    → IsKnown (entry s')
put-IsKnown s s' db key d steady good look db' key' d' found =
    put_view-IsKnown db key d (entry s) steady.known good db' key' d' (sym (look db' key') ∙ found)

pub drop-IsKnown :
    (s s' : Server) (db : ℤ) (key : String)
    → IsSteady s
    → ((db' : ℤ) (key' : String) → entry s' db' key' ≡ drop_view db key (entry s) db' key')
    → IsKnown (entry s')
drop-IsKnown s s' db key steady look db' key' d' found =
    elim (Bool-cases (db == db' && key == key')) [
      | inl here ↦ absurd (ground (arith, look db' key'))
      | inr elsewhere ↦ steady.known db' key' d' (ground (arith, look db' key'))
    ]

has_room-steady : (s : Server) → IsSteady s → has_room s ≡ true
has_room-steady s steady = ground (arith, steady.unlimited)

ensure_database_keeps :
    (db : ℤ) (s : Server)
    → ((ensure_database db s).config ≡ s.config) × ((ensure_database db s).now ≡ s.now)
unfolding ensure_database Access.create_database
ensure_database_keeps db s = elim (Option-cases (lookup db s.store)) [
  | inl gone ↦ rw (gone, ensure_database) (refl, refl)
  | inr (keys, found) ↦ rw (found, ensure_database) (refl, refl)
]

set_values_keeps :
    (db : ℤ) (key : String) (v : Value) (s : Server)
    → IsSupported v
    → has_room s ≡ true
    → ((set_values db ((key, v) ∷ []) s).0.config ≡ s.config)
      × ((set_values db ((key, v) ∷ []) s).0.now ≡ s.now)
unfolding set_values set_each
set_values_keeps db key v s known room =
    let s0 = ensure_database db s in
    let (mem, fits) = get_mem_of_supported s0.memory v (get_expiry s0 db key) known in
    let done = (set_value_fits db key v s0 mem fits).0 in
    let kept = set_value_keeps db key v s0 in
    let (config, now) = ensure_database_keeps db s in
    let refused : (is_max_memory_exceeded s.mem_used s.config.max_memory && refuses s.config)
        ≡ false =
      ground arith in
    rw (refused, done, done, set_each, set_values) (kept.1 ∙ config, kept.2 ∙ now)

-- A write keeps the expiry time of its key.
pub store_values-Leads :
    (db : ℤ) (key : String) (v : Value) (s : Server)
    → IsSteady s
    → IsSupported v
    → (s' : Server) × (store_values db ((key, v) ∷ []) s ≡ (ok tt, s'))
      × Leads s
          (put_view db key (record { value = v; expire_at = get_expiry s db key }) (entry s))
          s'
store_values-Leads db key v s steady good =
    let room = has_room-steady s steady in
    let s' = (set_values db ((key, v) ∷ []) s).0 in
    let (done, wrote) = store_values-Rewrites db key s v room good in
    let (config, now) = set_values_keeps db key v s good room in
    (
      s',
      done,
      record {
        steady =
            config-IsSteady s s' steady config (put-IsKnown s s' db key _ steady good wrote.look);
        clock = now;
        look = wrote.look;
      },
    )

-- The server after `setExpiry` on a database that is there.
expiry_written :
    (db : ℤ) (key : String) (t : Option ℕ) (touch : Bool) (d : KeyData) (s : Server)
    → entry s db key ≡ some d
    → (s' : Server) × (set_expiry db key t touch s ≡ ok s')
      × (s'.store ≡ (put_entry db key (record { value = d.value; expire_at = t }) s).store)
      × (s'.config ≡ s.config)
      × (s'.now ≡ s.now)
unfolding entry set_expiry put_entry
expiry_written db key t touch d s found = elim (Option-cases (lookup db s.store)) [
  | inl gone ↦ absurd (ground (arith, gone))
  | inr (keys, there) ↦
      let held : lookup key keys ≡ some d = ground (arith, there) in
      let tracked = volatile_of s db in
      let d' : KeyData = record { value = d.value; expire_at = t } in
      (
        record (put_entry db key d' s) {
          volatile =
              if contains tracked key
              then s.volatile
              else insert db (tracked ++ key ∷ []) s.volatile;
          tasks =
              if touch then s.tasks ++ record { database = db; keys = key ∷ [] } ∷ [] else s.tasks;
        },
        rw (there, held, set_expiry),
        refl,
        refl,
        refl,
      )
]

pub put_expiry-Leads :
    (db : ℤ) (key : String) (t : Option ℕ) (touch : Bool) (d : KeyData) (s : Server)
    → IsSteady s
    → entry s db key ≡ some d
    → (s' : Server) × (put_expiry db key t touch s ≡ (ok tt, s'))
      × Leads s (put_view db key (record { value = d.value; expire_at = t }) (entry s)) s'
unfolding put_expiry entry
put_expiry-Leads db key t touch d s steady found =
    let (s', done, stored, config, now) = expiry_written db key t touch d s found in
    let d' : KeyData = record { value = d.value; expire_at = t } in
    let look : (db' : ℤ) (key' : String)
        → entry s' db' key' ≡ put_view db key d' (entry s) db' key' =
      λ db' key'. ap (λ st. nested db' key' st) stored ∙ entry-put_entry db key d' s db' key' in
    (
      s',
      rw done,
      record {
        steady =
            config-IsSteady s s' steady config
              (put-IsKnown s s' db key d' steady (steady.known db key d found) look);
        clock = now;
        look = look;
      },
    )
