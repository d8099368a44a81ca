-- ===== src/Commands/Steady/Reads.antt =====
-- The deletions and reads of the handlers on a steady server.
use echo_vault.Base.{
  ◌≡◌, refl, String, true, Option, none, some, List, [], ◌∷◌, arith, inl, inr, Option-cases,
  Bool-cases, if◌then◌else◌, ℕ, string_eq, int_eq, eq_iff, ℤ, lookup-insert,
}
use echo_vault.Keyspace.State.{Server, KeyData, nil_value, ok, entry, expired}
use echo_vault.Keyspace.Access.{
  get_expiry, put_entry, delete_key, read_keys, get_values, data_or_zero, expire_key,
}
use echo_vault.Keyspace.Laws.{
  shows, entry-remove_key, config-remove_key, now-remove_key, uncache_none,
}
use echo_vault.Keyspace.Writes.{IsSupported, get_mem_of_supported}
use echo_vault.Keyspace.Access
use echo_vault.Commands.Laws.{after_read}
use echo_vault.Commands.Exec.{value_of, values_of, remove_key, try_remove}
use echo_vault.Commands.Steady.{View, drop_view, IsSteady, Leads, drop-IsKnown, config-IsSteady}

zero-IsSupported :
    (o : Option KeyData)
    → ((d : KeyData) → o ≡ some d → IsSupported d.value)
    → IsSupported (data_or_zero o).value
zero-IsSupported none h = tt
zero-IsSupported (some d) h = h d refl

pub delete_key-steady :
    (db : ℤ) (key : String) (s : Server)
    → IsSteady s
    → (mem : ℕ) × (delete_key db key s ≡ ok (Access.remove_key db key mem s))
      × Leads s (drop_view db key (entry s)) (Access.remove_key db key mem s)
unfolding delete_key
delete_key-steady db key s steady =
    let (mem, fits) =
      get_mem_of_supported s.memory (data_or_zero (entry s db key)).value
        (data_or_zero (entry s db key)).expire_at
        (zero-IsSupported (entry s db key) (steady.known db key)) in
    let s' = Access.remove_key db key mem s in
    (
      mem,
      rw (fits, delete_key) (uncache_none db key s' (rw config-remove_key steady.no_caches)),
      record {
        steady =
            config-IsSteady s s' steady (config-remove_key db key mem s)
              (drop-IsKnown s s' db key steady (entry-remove_key db key mem s));
        clock = now-remove_key db key mem s;
        look = entry-remove_key db key mem s;
      },
    )

pub remove_key-Leads :
    (db : ℤ) (key : String) (s : Server)
    → IsSteady s
    → (s' : Server) × (remove_key db key s ≡ (ok tt, s'))
      × (try_remove db key s ≡ (ok true, s'))
      × Leads s (drop_view db key (entry s)) s'
unfolding remove_key try_remove
remove_key-Leads db key s steady =
    let (mem, done, leads) = delete_key-steady db key s steady in
    (Access.remove_key db key mem s, rw done, rw done, leads)

-- What a read leaves: an expired key goes.
abbrev pub read_view : Server → ℤ → String → View
read_view s db key = elim (entry s db key) [
  | none ↦ entry s
  | some d ↦ if expired s.now d then drop_view db key (entry s) else entry s
]

task-Leads :
    (db : ℤ) (keys : List String) (s s' : Server) (f : View)
    → Leads s f s'
    → Leads s f (after_read db keys s')
unfolding entry
task-Leads db keys s s' f leads = record {
  steady =
      config-IsSteady s' (after_read db keys s') leads.steady refl
        (λ db' key' d h. leads.steady.known db' key' d h);
  clock = leads.clock;
  look = leads.look;
}

pub Leads-refl : (s : Server) → IsSteady s → Leads s (entry s) s
Leads-refl s steady = record { steady = steady; clock = refl; look = λ db key. refl }

pub value_of-Leads :
    (db : ℤ) (key : String) (s : Server)
    → IsSteady s
    → (s' : Server) × (value_of db key s ≡ (ok (shows s db key), s'))
      × Leads s (read_view s db key) s'
unfolding value_of values_of get_values read_keys expire_key shows
value_of-Leads db key s steady = elim (Option-cases (entry s db key)) [
  | inl gone ↦
      rw (gone, shows, read_view)
        (
          after_read db (key ∷ []) s,
          ground (arith, gone, lookup-insert key nil_value [] key, eq_iff key key),
          task-Leads db (key ∷ []) s s _ (Leads-refl s steady),
        )
  | inr (d, found) ↦ elim (Bool-cases (expired s.now d)) [
    | inl old ↦
        let (mem, done, leads) = delete_key-steady db key s steady in
        rw (found, old, shows, read_view)
          (
            after_read db (key ∷ []) (Access.remove_key db key mem s),
            ground (
              arith,
              found,
              steady.alone,
              done,
              lookup-insert key nil_value [] key,
              eq_iff key key,
            ),
            task-Leads db (key ∷ []) s _ _ leads,
          )
    | inr fresh ↦
        rw (found, fresh, shows, read_view)
          (
            after_read db (key ∷ []) s,
            ground (arith, found, fresh, lookup-insert key d.value [] key, eq_iff key key),
            task-Leads db (key ∷ []) s s _ (Leads-refl s steady),
          )
  ]
]
