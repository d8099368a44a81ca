-- ===== src/Commands/Sets/Intersections.antt =====
-- internal/modules/set/commands.go: SINTER of any number of sets that are there.
use echo_vault.Base.{
  ℕ, suc, ◌≤◌, ◌<◌, ◌≡◌, refl, ◌∙◌, ap, String, Bool, true, false, ◌&&◌, Option, some, List, [],
  ◌∷◌, map, arith, inl, inr, Bool-cases, ◌==◌, nat_eq, string_eq, int_eq, eq_iff, contains, all,
  All, length, is_empty, ltb, ℤ, pos, Assoc, insert,
}
use echo_vault.Sets.{has}
use echo_vault.Sets.Pointers.{Memory, intersection}
use echo_vault.Sets.Pointers.Intersection.{all_have, intersection-all_have}
use echo_vault.Keyspace.State.{Server, set_at, ok, entry}
use echo_vault.Keyspace.Access.{keys_exist}
use echo_vault.Commands.Exec.{exist_of}
use echo_vault.Commands.Laws.{IsLive, after_read, value_of-live}
use echo_vault.Commands.Sets.{elements}
use echo_vault.Commands.Sets.Combined.{gather, intersect, handle_sinter}

-- The server after the reads of the keys, one by one.
reads : ℤ → Assoc String Bool → Server → Server
reads db [] s = s
reads db ((k, e) ∷ exist) s = reads db exist (after_read db (k ∷ []) s)

memory-reads :
    (db : ℤ) (exist : Assoc String Bool) (s : Server) → (reads db exist s).memory ≡ s.memory
unfolding reads
memory-reads db [] s = refl
memory-reads db ((k, e) ∷ exist) s = memory-reads db exist (after_read db (k ∷ []) s)

entry-reads :
    (db : ℤ) (exist : Assoc String Bool) (s : Server) (db' : ℤ) (key : String)
    → entry (reads db exist s) db' key ≡ entry s db' key
unfolding reads entry
entry-reads db [] s db' key = refl
entry-reads db ((k, e) ∷ exist) s db' key = entry-reads db exist (after_read db (k ∷ []) s) db' key

-- the address of the set at a key, and its expiry time
module _ (db : ℤ) (f : String → ℕ) (g : String → Option ℕ) where
  abbrev pub LiveSet : Server → String → Type 0
  LiveSet s k = IsLive db k (set_at (f k)) (g k) s

  abbrev Known : Server → String × Bool → Type 0
  Known s e = (e.1 ≡ true) × LiveSet s e.0

  Known-after_read :
      (exist : Assoc String Bool) (keys : List String) (s : Server)
      → All (Known s) exist
      → All (Known (after_read db keys s)) exist
  unfolding entry
  Known-after_read [] keys s h = tt
  Known-after_read ((k, e) ∷ exist) keys s h = (
    (h.0.0, record { found = h.0.1.found; current = h.0.1.current }),
    Known-after_read exist keys s h.1,
  )

  gather-reads :
      (exist : Assoc String Bool) (s : Server)
      → All (Known s) exist
      → gather db exist s ≡ (ok (some (map (λ e. f e.0) exist)), reads db exist s)
  unfolding gather reads
  gather-reads [] s h = refl
  gather-reads ((k, e) ∷ exist) s h =
      let rest =
        gather-reads exist (after_read db (k ∷ []) s) (Known-after_read exist (k ∷ []) s h.1) in
      rw (h.0.0, value_of-live db k s h.0.1, rest)

  Known-insert :
      (k : String) (exist : Assoc String Bool) (s : Server)
      → LiveSet s k
      → All (Known s) exist
      → All (Known s) (insert k true exist)
  unfolding insert
  Known-insert k [] s live h = ((refl, live), tt)
  Known-insert k ((j, e) ∷ exist) s live h = elim (Bool-cases (j == k)) [
    | inl same ↦ rw same ((refl, live), h.1)
    | inr other ↦ rw other (h.0, Known-insert k exist s live h.1)
  ]

  Known-keys_exist :
      (keys : List String) (s : Server)
      → All (LiveSet s) keys
      → All (Known s) (keys_exist s db keys)
  unfolding keys_exist
  Known-keys_exist [] s h = tt
  Known-keys_exist (k ∷ keys) s h =
      rw (h.0.found) (Known-insert k (keys_exist s db keys) s h.0 (Known-keys_exist keys s h.1))

all-insert :
    (p : String → Bool) (k : String) (v : Bool) (m : Assoc String Bool)
    → all (λ e. p e.0) (insert k v m) ≡ (p k && all (λ e. p e.0) m)
unfolding all insert
all-insert p k v [] = refl
all-insert p k v ((j, w) ∷ m) = elim (Bool-cases (j == k)) [
  | inl same ↦ rw (same, (eq_iff j k).0 same) (ground arith)
  | inr other ↦ rw other (ground (arith, all-insert p k v m))
]

all-keys_exist :
    (db : ℤ) (p : String → Bool) (keys : List String) (s : Server)
    → all (λ e. p e.0) (keys_exist s db keys) ≡ all p keys
unfolding all keys_exist
all-keys_exist db p [] s = refl
all-keys_exist db p (k ∷ keys) s =
    all-insert p k _ (keys_exist s db keys) ∙ ap (λ r. p k && r) (all-keys_exist db p keys s)

all_have-map :
    (f : String → ℕ) (m : Memory) (exist : Assoc String Bool) (x : String)
    → all_have m (map (λ e. f e.0) exist) x ≡ all (λ e. has (m.cell (f e.0)) x) exist
unfolding all
all_have-map f m [] x = refl
all_have-map f m (e ∷ exist) x = ap (λ r. has (m.cell (f e.0)) x && r) (all_have-map f m exist x)

module _ (db : ℤ) (f : String → ℕ) (n : ℕ) where
  abbrev Below : String × Bool → Type 0
  Below e = f e.0 < n

  Below-insert :
      (k : String) (v : Bool) (m : Assoc String Bool)
      → f k < n
      → All Below m
      → All Below (insert k v m)
  unfolding insert
  Below-insert k v [] h hs = (h, tt)
  Below-insert k v ((j, w) ∷ m) h hs = elim (Bool-cases (j == k)) [
    | inl same ↦ rw same (h, hs.1)
    | inr other ↦ rw other (hs.0, Below-insert k v m h hs.1)
  ]

  Below-keys_exist :
      (keys : List String) (s : Server) → All (λ k. f k < n) keys → All Below (keys_exist s db keys)
  unfolding keys_exist
  Below-keys_exist [] s h = tt
  Below-keys_exist (k ∷ keys) s h =
      Below-insert k _ (keys_exist s db keys) h.0 (Below-keys_exist keys s h.1)

  Below-map : (m : Assoc String Bool) → All Below m → All (λ p. p < n) (map (λ e. f e.0) m)
  Below-map [] h = tt
  Below-map (e ∷ m) h = (h.0, Below-map m h.1)

length-insert : (k : String) (v : Bool) (m : Assoc String Bool) → 1 ≤ length (insert k v m)
unfolding insert
length-insert k v [] = omega arith
length-insert k v ((j, w) ∷ m) = elim (Bool-cases (j == k)) [
  | inl same ↦ rw same (omega arith)
  | inr other ↦ rw other (omega arith)
]

length-keys_exist :
    (db : ℤ) (k : String) (keys : List String) (s : Server)
    → 1 ≤ length (keys_exist s db (k ∷ keys))
unfolding keys_exist
length-keys_exist db k keys s = length-insert k _ (keys_exist s db keys)

length-map : (f : String → ℕ) (m : Assoc String Bool) → length (map (λ e. f e.0) m) ≡ length m
length-map f [] = refl
length-map f (e ∷ m) = ap suc (length-map f m)

not_empty : (ps : List ℕ) → 1 ≤ length ps → is_empty ps ≡ false
not_empty [] h = absurd (omega arith)
not_empty (p ∷ ps) h = refl

-- The handler, once its sets are gathered and intersected.
handle_sinter_run :
    (db : ℤ) (name k : String) (keys : List String) (s : Server) (ps : List ℕ) (r : ℕ) (m : Memory)
    (s' : Server)
    → gather db (keys_exist s db (k ∷ keys)) s ≡ (ok (some ps), s')
    → 1 ≤ length ps
    → intersection (length ps) (pos 0) ps s'.memory ≡ some (r, false, m)
    → handle_sinter db (name ∷ k ∷ keys) s
      ≡ (ok (elements (m.cell r).members), record s' { memory = m })
unfolding handle_sinter exist_of
handle_sinter_run db name k keys s ps r m s' gathered some_set done =
    let enough : ltb (suc (suc (length keys))) 2 ≡ false = ground arith in
    rw (enough, gathered, not_empty ps some_set, done, intersect)

-- SINTER of any number of live sets, one or more, at addresses in use (`f` gives the address of the set at a
-- key): the reply is the list of exactly the members that all of them have, whatever keys are given twice.
-- No entry changes, and no set `q` in use.
pub handle_sinter-all :
    (db : ℤ) (f : String → ℕ) (g : String → Option ℕ) (name k : String) (keys : List String) (q : ℕ)
    (s : Server)
    → All (LiveSet db f g s) (k ∷ keys)
    → All (λ j. f j < s.memory.next) (k ∷ keys)
    → q < s.memory.next
    → (s' : Server) × (xs : List String) × (handle_sinter db (name ∷ k ∷ keys) s
        ≡ (ok (elements xs), s'))
      × ((x : String) → contains xs x ≡ all (λ j. has (s.memory.cell (f j)) x) (k ∷ keys))
      × ((db' : ℤ) (key : String) → entry s' db' key ≡ entry s db' key)
      × (s'.memory.cell q ≡ s.memory.cell q)
unfolding has entry
handle_sinter-all db f g name k keys q s live inside used =
    let exist = keys_exist s db (k ∷ keys) in
    let ps = map (λ e. f e.0) exist in
    let s1 = reads db exist s in
    let mem = memory-reads db exist s in
    let gathered = gather-reads db f g exist s (Known-keys_exist db f g (k ∷ keys) s live) in
    let some_set : 1 ≤ length ps = rw (length-map f exist) (length-keys_exist db k keys s) in
    let below =
      Below-map db f s.memory.next exist
        (Below-keys_exist db f s.memory.next (k ∷ keys) s inside) in
    let (r, m, done, members, same) =
      intersection-all_have (pos 0) (length ps) ps s.memory q refl some_set (omega arith) below
        used in
    (
      record s1 { memory = m },
      (m.cell r).members,
      handle_sinter_run db name k keys s ps r m s1 gathered some_set (rw mem done),
      λ x.
          members x
          ∙ (all_have-map f s.memory exist x
              ∙ all-keys_exist db (λ j. has (s.memory.cell (f j)) x) (k ∷ keys) s),
      λ db' key. entry-reads db exist s db' key,
      same,
    )
