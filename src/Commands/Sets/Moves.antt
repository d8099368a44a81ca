-- ===== src/Commands/Sets/Moves.antt =====
-- internal/modules/set/commands.go: SMOVE between two sets that are there, and SADD on a key that is not.
use echo_vault.Base.{
  ℕ, suc, ◌≡◌, refl, ◌∙◌, ap, String, Bool, true, false, not, ◌&&◌, ◌||◌, Option, some, none, List,
  [], ◌∷◌, arith, if◌then◌else◌, ◌==◌, nat_eq, string_eq, int_eq, eq_iff, ltb, length, contains, ℤ,
  insert, lookup,
}
use echo_vault.Sets.{has, new_set}
use echo_vault.Sets.Laws.{IsValid, has-new_set, new_set-IsValid}
use echo_vault.Sets.Pointers.{alloc, move}
use echo_vault.Sets.Pointers.Moving.{move-Moves}
use echo_vault.Keyspace.State.{Server, set_at, ok, entry}
use echo_vault.Keyspace.Pointers.{memory-set_values}
use echo_vault.Keyspace.Access.{get_expiry, keys_exist, read_keys, get_values}
use echo_vault.Keyspace.Write.{set_values}
use echo_vault.Keyspace.Writes.{has_room}
use echo_vault.Commands.Exec.{number, exist_of, values_of}
use echo_vault.Commands.Laws.{IsLive, after_read, store_values-Rewrites, key_exists-absent}
use echo_vault.Commands.Sets.{handle_sadd, handle_smove, bit}

module _ (db : ℤ) (a b : String) (p q : ℕ) (t u : Option ℕ) (s : Server)
    (live_a : IsLive db a (set_at p) t s) (live_b : IsLive db b (set_at q) u s)
    (other : (a == b) ≡ false) where
  pub values_of-two :
      values_of db (a ∷ b ∷ []) s
      ≡ (ok ((a, set_at p) ∷ (b, set_at q) ∷ []), after_read db (a ∷ b ∷ []) s)
  unfolding values_of get_values read_keys insert
  values_of-two =
      ground (arith, live_a.found, live_a.current, live_b.found, live_b.current, eq_iff a b)

  exist_of-two : exist_of db (a ∷ b ∷ []) s ≡ (ok ((b, true) ∷ (a, true) ∷ []), s)
  unfolding exist_of keys_exist insert
  exist_of-two = ground (arith, live_a.found, live_b.found, eq_iff a b, eq_iff b a)

  handle_smove-live :
      (name m : String)
      → handle_smove db (name ∷ a ∷ b ∷ m ∷ []) s ≡ (
        ok (number (move p q m s.memory).1),
        record (after_read db (a ∷ b ∷ []) s) { memory = (move p q m s.memory).0 },
      )
  unfolding handle_smove lookup
  handle_smove-live name m =
      let other' : (b == a) ≡ false = ground (arith, eq_iff a b, eq_iff b a) in
      let self_a : (a == a) ≡ true = ground (arith, eq_iff a a) in
      let self_b : (b == b) ≡ true = ground (arith, eq_iff b b) in
      rw (exist_of-two, other', self_a, values_of-two, other, self_a, self_b)

-- SMOVE between two live sets, at different keys and not the same in memory: the reply is 1 if the source has
-- the member, and 0 if not. Afterwards the source has its members but this one; the destination has its
-- members, and this one if the source had it. No other set and no entry changes.
pub handle_smove-moves :
    (db : ℤ) (a b name m : String) (p q : ℕ) (t u : Option ℕ) (s : Server)
    → IsLive db a (set_at p) t s
    → IsLive db b (set_at q) u s
    → (a == b) ≡ false
    → (p == q) ≡ false
    → (s' : Server) × (handle_smove db (name ∷ a ∷ b ∷ m ∷ []) s
        ≡ (ok (number (bit (has (s.memory.cell p) m))), s'))
      × ((y : String) → has (s'.memory.cell p) y ≡ (has (s.memory.cell p) y && not (m == y)))
      × ((y : String)
          → has (s'.memory.cell q) y
            ≡ (has (s.memory.cell q) y || has (s.memory.cell p) m && m == y))
      × ((r : ℕ)
          → s'.memory.cell r ≡ (
              if r == p
              then s'.memory.cell p
              else if r == q
              then s'.memory.cell q
              else s.memory.cell r))
      × ((db' : ℤ) (key : String) → entry s' db' key ≡ entry s db' key)
unfolding entry
handle_smove-moves db a b name m p q t u s live_a live_b other apart =
    let run = handle_smove-live db a b p q t u s live_a live_b other name m in
    let moved = move-Moves p q m s.memory apart in
    let s' = record (after_read db (a ∷ b ∷ []) s) { memory = (move p q m s.memory).0 } in
    (
      s',
      run ∙ ap (λ n. (ok (number n), s')) (moved.reply ∙ bit_lem (has (s.memory.cell p) m)),
      moved.source,
      moved.destination,
      moved.others,
      λ db' key. refl,
    )
  where
    bit_lem : (c : Bool) → (if c then 1 else 0) ≡ bit c
    bit_lem true = refl
    bit_lem false = refl

-- the server after the new set of SADD is made
abbrev with_new : List String → Server → Server
with_new es s = record s { memory = (alloc (new_set es) s.memory).1 }

handle_sadd_made :
    (db : ℤ) (key name e : String) (es : List String) (s : Server)
    → entry s db key ≡ none
    → has_room s ≡ true
    → handle_sadd db (name ∷ key ∷ e ∷ es) s ≡ (
      ok (number (length (e ∷ es))),
      (set_values db ((key, set_at s.memory.next) ∷ []) (with_new (e ∷ es) s)).0,
    )
unfolding handle_sadd
handle_sadd_made db key name e es s gone room =
    let enough : ltb (suc (suc (suc (length es)))) 3 ≡ false = ground arith in
    let (done, r) =
      store_values-Rewrites db key (with_new (e ∷ es) s) (set_at s.memory.next) room tt in
    rw (enough, key_exists-absent db key s gone, done)

-- SADD on a key that is missing, when there is room for a write: the reply is the number of elements given,
-- those given twice included. The key then holds a new set, at an address that was not in use, with exactly
-- the elements given and their right number; every other entry, and every set in use, is as it was.
pub handle_sadd-new :
    (db : ℤ) (key name e : String) (es : List String) (s : Server)
    → entry s db key ≡ none
    → has_room s ≡ true
    → (s' : Server) × (handle_sadd db (name ∷ key ∷ e ∷ es) s ≡ (ok (number (length (e ∷ es))), s'))
      × ((db' : ℤ) (key' : String)
          → entry s' db' key' ≡ (
              if db == db' && key == key'
              then some (record { value = set_at s.memory.next; expire_at = none })
              else entry s db' key'))
      × ((y : String) → has (s'.memory.cell s.memory.next) y ≡ contains (e ∷ es) y)
      × IsValid (s'.memory.cell s.memory.next)
      × ((q : ℕ)
          → s'.memory.cell q
            ≡ (if q == s.memory.next then s'.memory.cell s.memory.next else s.memory.cell q))
unfolding alloc entry get_expiry
handle_sadd-new db key name e es s gone room =
    let s1 = with_new (e ∷ es) s in
    let (done, r) = store_values-Rewrites db key s1 (set_at s.memory.next) room tt in
    let s' = (set_values db ((key, set_at s.memory.next) ∷ []) s1).0 in
    let same : s'.memory ≡ s1.memory =
      memory-set_values db ((key, set_at s.memory.next) ∷ []) s1 (tt, tt) room in
    let self : (s.memory.next == s.memory.next) ≡ true = ground arith in
    let made : s'.memory.cell s.memory.next ≡ new_set (e ∷ es) =
      ap (λ m. m.cell s.memory.next) same ∙ rw self in
    (
      s',
      handle_sadd_made db key name e es s gone room,
      λ db' key'. ground (arith, r.look db' key', gone),
      λ y. rw made (has-new_set (e ∷ es) y),
      rw made (new_set-IsValid (e ∷ es)),
      λ q. ground (arith, ap (λ m. m.cell q) same, made),
    )
