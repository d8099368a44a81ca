-- ===== src/Commands/Sets/Laws.antt =====
-- internal/modules/set/commands.go: what the handlers of one set do to a set that is there.
use echo_vault.Base.{
  ℕ, suc, ◌+◌, ◌≡◌, refl, ap, String, Bool, true, false, not, ◌&&◌, ◌||◌, Option, some, List, [],
  ◌∷◌, arith, if◌then◌else◌, ◌==◌, nat_eq, nat_beq_iff, string_eq, ltb, length, contains, ℤ, pos,
}
use echo_vault.Sets.{Set, Draws, has, add, remove, pop}
use echo_vault.Sets.Laws.{IsValid, has-add, has-remove, add-IsValid, remove-IsValid}
use echo_vault.Sets.Random.{Drawn, pop-Drawn}
use echo_vault.Sets.Pointers.{store}
use echo_vault.Keyspace.State.{Server, set_at, ok, entry}
use echo_vault.Commands.Numbers.{Number, as_int}
use echo_vault.Commands.Exec.{number}
use echo_vault.Commands.Laws.{IsLive, after_read, key_exists-live, value_of-live}
use echo_vault.Commands.Sets.{elements, handle_sadd, handle_srem, handle_spop}

-- The set at `p` has the members that `member` tells, and its length is right; all other sets and all
-- entries of the store are as they were.
pub record Rewritten (p : ℕ) (member : String → Bool) (s s' : Server) : Type 0 where
  pub members : (y : String) → has (s'.memory.cell p) y ≡ member y
  pub valid : IsValid (s'.memory.cell p)
  pub others : (q : ℕ) → s'.memory.cell q ≡ (if q == p then s'.memory.cell p else s.memory.cell q)
  pub entries : (db : ℤ) (key : String) → entry s' db key ≡ entry s db key

-- A read, and then a write of a set through its pointer.
abbrev after_save : ℤ → String → ℕ → Set → Server → Server
after_save db key p x s = record (after_read db (key ∷ []) s) { memory = store p x s.memory }

Rewritten-after_save :
    (db : ℤ) (key : String) (p : ℕ) (x : Set) (s : Server) (member : String → Bool)
    → ((y : String) → has x y ≡ member y)
    → IsValid x
    → Rewritten p member s (after_save db key p x s)
unfolding store entry
Rewritten-after_save db key p x s member h v =
    let self : (p == p) ≡ true = ground arith in
    record {
      members = λ y. rw self (h y);
      valid = rw self v;
      others = λ q. ground (arith, nat_beq_iff q p);
      entries = λ db' key'. refl;
    }

module _ (db : ℤ) (key : String) (p : ℕ) (t : Option ℕ) (s : Server)
    (live : IsLive db key (set_at p) t s) where
  handle_sadd-live :
      (name e : String) (es : List String)
      → handle_sadd db (name ∷ key ∷ e ∷ es) s ≡ (
        ok (number (add (e ∷ es) (s.memory.cell p)).1),
        after_save db key p (add (e ∷ es) (s.memory.cell p)).0 s,
      )
  unfolding handle_sadd
  handle_sadd-live name e es =
      let enough : ltb (suc (suc (suc (length es)))) 3 ≡ false = ground arith in
      rw (enough, key_exists-live db key s live, value_of-live db key s live)

  handle_srem-live :
      (name e : String) (es : List String)
      → handle_srem db (name ∷ key ∷ e ∷ es) s ≡ (
        ok (number (remove (e ∷ es) (s.memory.cell p)).1),
        after_save db key p (remove (e ∷ es) (s.memory.cell p)).0 s,
      )
  unfolding handle_srem
  handle_srem-live name e es =
      let enough : ltb (suc (suc (suc (length es)))) 3 ≡ false = ground arith in
      rw (enough, key_exists-live db key s live, value_of-live db key s live)

-- SADD on a live set: it has the members of before and those given, the reply is by how much the set has
-- grown, and no other set and no entry changes.
pub handle_sadd-Rewritten :
    (db : ℤ) (key : String) (p : ℕ) (t : Option ℕ) (s : Server)
    → IsLive db key (set_at p) t s
    → IsValid (s.memory.cell p)
    → (name e : String) (es : List String)
    → (n : ℕ) × ((handle_sadd db (name ∷ key ∷ e ∷ es) s).0 ≡ ok (number n))
      × (((handle_sadd db (name ∷ key ∷ e ∷ es) s).1.memory.cell p).length
          ≡ (s.memory.cell p).length + n)
      × Rewritten p
          (λ y. has (s.memory.cell p) y || contains (e ∷ es) y)
          s
          (handle_sadd db (name ∷ key ∷ e ∷ es) s).1
handle_sadd-Rewritten db key p t s live v name e es =
    let x = s.memory.cell p in
    let run = handle_sadd-live db key p t s live name e es in
    let (v', grown) = add-IsValid (e ∷ es) x v in
    let self : (p == p) ≡ true = ground arith in
    (
      (add (e ∷ es) x).1,
      ap (λ r. r.0) run,
      rw run (unfold store in rw self grown),
      rw run (Rewritten-after_save db key p (add (e ∷ es) x).0 s _ (λ y. has-add (e ∷ es) x y) v'),
    )

-- SREM on a live set: it has the members of before that are not given, the reply is by how much the set
-- has shrunk, and no other set and no entry changes.
pub handle_srem-Rewritten :
    (db : ℤ) (key : String) (p : ℕ) (t : Option ℕ) (s : Server)
    → IsLive db key (set_at p) t s
    → IsValid (s.memory.cell p)
    → (name e : String) (es : List String)
    → (n : ℕ) × ((handle_srem db (name ∷ key ∷ e ∷ es) s).0 ≡ ok (number n))
      × (((handle_srem db (name ∷ key ∷ e ∷ es) s).1.memory.cell p).length + n
          ≡ (s.memory.cell p).length)
      × Rewritten p
          (λ y. has (s.memory.cell p) y && not (contains (e ∷ es) y))
          s
          (handle_srem db (name ∷ key ∷ e ∷ es) s).1
handle_srem-Rewritten db key p t s live v name e es =
    let x = s.memory.cell p in
    let run = handle_srem-live db key p t s live name e es in
    let (v', shrunk) = remove-IsValid (e ∷ es) x v in
    let self : (p == p) ≡ true = ground arith in
    (
      (remove (e ∷ es) x).1,
      ap (λ r. r.0) run,
      rw run (unfold store in rw self shrunk),
      rw run (
          Rewritten-after_save db key p (remove (e ∷ es) x).0 s _ (λ y. has-remove (e ∷ es) x y)
            v'),
    )

handle_spop-live :
    (parse : String → Option Number) (draws : Draws) (db : ℤ) (name key count : String) (n p : ℕ)
    (t : Option ℕ) (s : Server) (x : Set) (ks : List String)
    → IsLive db key (set_at p) t s
    → as_int parse count ≡ some (pos n)
    → pop draws (pos n) (s.memory.cell p) ≡ some (x, ks)
    → handle_spop parse draws db (name ∷ key ∷ count ∷ []) s
      ≡ (ok (elements ks), after_save db key p x s)
unfolding handle_spop
handle_spop-live parse draws db name key count n p t s x ks live given done =
    rw (key_exists-live db key s live, given, value_of-live db key s live, done)

-- SPOP on a live set with a count of zero or more, whatever is drawn: the reply is as many distinct members
-- as the count says, or as there are; the set keeps exactly the others, and no other set and no entry
-- changes.
pub handle_spop-Rewritten :
    (parse : String → Option Number) (draws : Draws) (db : ℤ) (name key count : String) (n p : ℕ)
    (t : Option ℕ) (s : Server)
    → IsLive db key (set_at p) t s
    → IsValid (s.memory.cell p)
    → as_int parse count ≡ some (pos n)
    → (ks : List String) × ((handle_spop parse draws db (name ∷ key ∷ count ∷ []) s).0
        ≡ ok (elements ks))
      × Drawn n (s.memory.cell p) ks
      × Rewritten p
          (λ y. has (s.memory.cell p) y && not (contains ks y))
          s
          (handle_spop parse draws db (name ∷ key ∷ count ∷ []) s).1
handle_spop-Rewritten parse draws db name key count n p t s live v given =
    let (x, ks, done, drawn_well, left, v') = pop-Drawn draws n (s.memory.cell p) v in
    let run = handle_spop-live parse draws db name key count n p t s x ks live given done in
    (ks, ap (λ r. r.0) run, drawn_well, rw run (Rewritten-after_save db key p x s _ left v'))
