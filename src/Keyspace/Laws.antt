-- ===== src/Keyspace/Laws.antt =====
-- sugardb/keyspace.go: the store entry by entry, and what the deletion of an expired key leaves.
use echo_vault.Base.{
  ℕ, ◌+◌, ◌≡◌, refl, ◌∙◌, String, true, ◌&&◌, none, some, [], ◌∷◌, ◌++◌, arith, inl, inr, ◌⊎◌,
  Option-cases, if◌then◌else◌, ◌==◌, nat_eq, string_eq, int_eq, ℤ, int_beq_iff, eq_iff, lookup,
  nested-insert, nested-without, nested_absent,
}
use echo_vault.Keyspace.State.{
  ok, err, Value, nil_value, KeyData, get_mem, Mode, standalone, follower, Message, forward_delete,
  Server, entry, keys_of, expired, scalar, hash, list, set_at, unsupported, scalar_mem, hash_mem,
  list_mem, set_mem,
}
use echo_vault.Sets.Pointers.{Memory}
use echo_vault.Keyspace.Access.{
  no_cache, cache_of, put_entry, drop_entry, remove_key, uncache, data_or_zero, delete_key,
  expire_key,
}

-- A size is found, or the value has an unsupported type.
pub get_mem-cases :
    (m : Memory) (d : KeyData)
    → ((mem : ℕ) × (get_mem m d ≡ ok mem)) ⊎ ((e : String) × (get_mem m d ≡ err e))
unfolding get_mem
get_mem-cases m d = go d.value refl
  where
    go :
        (v : Value)
        → d.value ≡ v
        → ((mem : ℕ) × (get_mem m d ≡ ok mem)) ⊎ ((e : String) × (get_mem m d ≡ err e))
    go (scalar x) e = inl (24 + scalar_mem x, rw (e, get_mem))
    go (hash x) e = inl (24 + 8 + hash_mem x, rw (e, get_mem))
    go (list x) e = inl (24 + list_mem x, rw (e, get_mem))
    go (set_at x) e = inl (24 + set_mem (m.cell x), rw (e, get_mem))
    go unsupported e =
        inr ("ERROR: type is not supported in method KeyData.GetMem()", rw (e, get_mem))

-- A write shows at its key, and nowhere else.
pub entry-put_entry :
    (db : ℤ) (key : String) (d : KeyData) (s : Server) (db' : ℤ) (key' : String)
    → entry (put_entry db key d s) db' key'
      ≡ (if db == db' && key == key' then some d else entry s db' key')
unfolding entry put_entry keys_of
entry-put_entry db key d s db' key' = nested-insert db key d s.store db' key'

pub entry-drop_entry :
    (db : ℤ) (key : String) (s : Server) (db' : ℤ) (key' : String)
    → entry (drop_entry db key s) db' key'
      ≡ (if db == db' && key == key' then none else entry s db' key')
unfolding entry drop_entry
entry-drop_entry db key s db' key' = elim (Option-cases (lookup db s.store)) [
  | inl gone ↦ rw (gone, drop_entry) (nested_absent db key s.store db' key' gone)
  | inr (keys, found) ↦ rw (found, drop_entry) (nested-without db key s.store keys db' key' found)
]

-- `deleteKey` before its switch takes the key out of the store and out of the tracker.
pub entry-remove_key :
    (db : ℤ) (key : String) (mem : ℕ) (s : Server) (db' : ℤ) (key' : String)
    → entry (remove_key db key mem s) db' key'
      ≡ (if db == db' && key == key' then none else entry s db' key')
unfolding remove_key entry
entry-remove_key db key mem s db' key' = entry-drop_entry db key s db' key'

pub now-remove_key :
    (db : ℤ) (key : String) (mem : ℕ) (s : Server) → (remove_key db key mem s).now ≡ s.now
unfolding remove_key drop_entry
now-remove_key db key mem s = ground arith

pub config-remove_key :
    (db : ℤ) (key : String) (mem : ℕ) (s : Server) → (remove_key db key mem s).config ≡ s.config
unfolding remove_key drop_entry
config-remove_key db key mem s = ground arith

-- What a reader of a key is shown: nothing of a key that is missing or expired.
unfoldable pub shows : Server → ℤ → String → Value
shows s db key = elim (entry s db key) [
  | none ↦ nil_value
  | some d ↦ if expired s.now d then nil_value else d.value
]

-- The policies that keep no cache, so that a deletion cannot meet a broken one.
abbrev pub HasNoCache : Server → Type 0
HasNoCache s = cache_of s.config.policy ≡ no_cache

pub uncache_none : (db : ℤ) (key : String) (s : Server) → HasNoCache s → uncache db key s ≡ ok s
unfolding uncache
uncache_none db key s h = ground arith

-- A deletion takes the key away and shows the same of all others, or fails and changes nothing.
pub deletes :
    (db : ℤ) (key : String) (s : Server)
    → HasNoCache s
    → ((mem : ℕ) × (delete_key db key s ≡ ok (remove_key db key mem s)))
      ⊎ ((e : String) × (delete_key db key s ≡ err e))
unfolding delete_key
deletes db key s h = elim (get_mem-cases s.memory (data_or_zero (entry s db key))) [
  | inl (mem, fits) ↦ inl (
    mem,
    rw (fits, delete_key) (uncache_none db key (remove_key db key mem s) (rw config-remove_key h)),
  )
  | inr (e, fails) ↦ inr (e, rw (fails, delete_key))
]

pub shows-remove_key :
    (db : ℤ) (key : String) (mem : ℕ) (s : Server) (d : KeyData)
    → entry s db key ≡ some d
    → expired s.now d ≡ true
    → (db' : ℤ) (key' : String) → shows (remove_key db key mem s) db' key' ≡ shows s db' key'
unfolding shows
shows-remove_key db key mem s d found old db' key' = ground (
  arith,
  entry-remove_key db key mem s db' key',
  now-remove_key db key mem s,
  int_beq_iff db db',
  eq_iff key key',
)

-- The server that is left shows the same, at the same time and under the same settings.
pub record SameView (s s' : Server) : Type 0 where
  pub view : (db : ℤ) (key : String) → shows s' db key ≡ shows s db key
  pub settings : s'.config ≡ s.config
  pub clock : s'.now ≡ s.now

pub SameView-refl : (s : Server) → SameView s s
SameView-refl s = record { view = λ db key. refl; settings = refl; clock = refl }

pub SameView-trans : {s t u : Server} → SameView s t → SameView t u → SameView s u
SameView-trans a b = record {
  view = λ db key. b.view db key ∙ a.view db key;
  settings = b.settings ∙ a.settings;
  clock = b.clock ∙ a.clock;
}

pub expire_key-SameView :
    (db : ℤ) (key : String) (s : Server) (d : KeyData)
    → HasNoCache s
    → entry s db key ≡ some d
    → expired s.now d ≡ true
    → (s' : Server) × (expire_key db key s ≡ ok s') × SameView s s'
unfolding expire_key
expire_key-SameView db key s d h found old = go s.config.mode refl
  where
    sending : (m : Message) → SameView s (record s { sent = s.sent ++ m ∷ [] })
    sending m = record {
      view = λ db' key'. unfold shows entry in refl;
      settings = refl;
      clock = refl;
    }

    go :
        (m : Mode)
        → s.config.mode ≡ m
        → (s' : Server) × (expire_key db key s ≡ ok s') × SameView s s'
    go standalone e = elim (deletes db key s h) [
      | inl (mem, done) ↦ (
        remove_key db key mem s,
        ground (arith, done),
        record {
          view = shows-remove_key db key mem s d found old;
          settings = config-remove_key db key mem s;
          clock = now-remove_key db key mem s;
        },
      )
      | inr (m, failed) ↦ (s, ground (arith, failed), SameView-refl s)
    ]
    go follower e =
        (record s { sent = s.sent ++ forward_delete db key ∷ [] }, ground arith, sending _)
