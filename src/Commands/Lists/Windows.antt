-- ===== src/Commands/Lists/Windows.antt =====
-- internal/modules/list/commands.go: what LRANGE, LTRIM and LSET do to a list that is there.
use echo_vault.Base.{
  ℕ, zero, suc, ◌+◌, ◌-◌, ◌<◌, ◌≤◌, ◌≡◌, refl, String, true, false, Option, some, List, [], ◌∷◌,
  arith, inl, inr, Bool-cases, string_eq, int_eq, nat_eq, ℤ, pos, negsuc, length, take, drop, atoi,
  ltb, leb, ◌^◌,
}
use echo_vault.Keyspace.State.{Server, list, ok, panic}
use echo_vault.Commands.Exec.{array}
use echo_vault.Commands.Laws.{IsLive, after_read, key_exists-live, value_of-live}
use echo_vault.Commands.Lists.{items_from, range_reply, handle_lrange, item_at}

item_from-drop :
    (items : List String) (i : ℕ) (s : Server)
    → i < length items
    → (x : String) × (item_at items (pos i) s ≡ (ok x, s)) × (drop i items ≡ x ∷ drop (suc i) items)
item_from-drop [] i s h = absurd (omega arith)
item_from-drop (x ∷ items) zero s h = (x, refl, refl)
item_from-drop (x ∷ items) (suc i) s h = item_from-drop items i s (omega arith)

item_beyond :
    (items : List String) (i : ℕ) (s : Server)
    → length items ≤ i
    → item_at items (pos i) s ≡ (panic, s)
item_beyond [] i s h = refl
item_beyond (x ∷ items) zero s h = absurd (omega arith)
item_beyond (x ∷ items) (suc i) s h = item_beyond items i s (omega arith)

items_from-drop :
    (db : ℤ) (items : List String) (i n : ℕ) (s : Server)
    → i + n ≤ length items
    → items_from db items (pos i) n s ≡ (ok (take n (drop i items)), s)
unfolding items_from
items_from-drop db items i zero s h = refl
items_from-drop db items i (suc n) s h =
    let (x, found, split) = item_from-drop items i s (omega arith) in
    let next : (1 + i) ≡ suc i = omega arith in
    let rest = items_from-drop db items (suc i) n s (omega arith) in rw (found, split, next, rest)

items_from_beyond :
    (db : ℤ) (items : List String) (i n : ℕ) (s : Server)
    → i ≤ length items
    → length items < i + n
    → items_from db items (pos i) n s ≡ (panic, s)
unfolding items_from
items_from_beyond db items i zero s h k = absurd (omega arith)
items_from_beyond db items i (suc n) s h k = elim (Bool-cases (ltb i (length items))) [
  | inl inside ↦
      let (x, found, split) = item_from-drop items i s (ground arith) in
      let next : (1 + i) ≡ suc i = omega arith in
      let rest = items_from_beyond db items (suc i) n s (ground arith) (omega arith) in
      rw (found, next, rest)
  | inr outside ↦ rw (item_beyond items i s (ground arith))
]

module _ (db : ℤ) (name key a b : String) (items : List String) (t : Option ℕ) (s : Server)
    (live : IsLive db key (list items) t s) where
  handle_lrange-live :
      (i j : ℤ)
      → atoi a ≡ some i
      → atoi b ≡ some j
      → handle_lrange db (name ∷ key ∷ a ∷ b ∷ []) s
        ≡ range_reply db items i j (after_read db (key ∷ []) s)
  unfolding handle_lrange
  handle_lrange-live i j p q = rw (key_exists-live db key s live, value_of-live db key s live, p, q)

  range_reply-window :
      (i j : ℕ) (s' : Server)
      → i ≤ j
      → j < length items
      → range_reply db items (pos i) (pos j) s' ≡ (ok (array (take (suc j - i) (drop i items))), s')
  unfolding range_reply
  range_reply-window i j s' h k =
      let inside : ltb (length items) j ≡ false = ground arith in
      let ordered : ltb j i ≡ false = ground arith in
      let below : ltb (length items) i ≡ false = ground arith in
      rw (inside, ordered, below, items_from-drop db items i (suc j - i) s' (omega arith))

  range_reply_beyond :
      (i : ℕ) (s' : Server)
      → i ≤ length items
      → range_reply db items (pos i) (pos (length items)) s' ≡ (panic, s')
  unfolding range_reply
  range_reply_beyond i s' h =
      let inside : ltb (length items) (length items) ≡ false = ground arith in
      let ordered : ltb (length items) i ≡ false = ground arith in
      rw (inside, ordered, items_from_beyond db items i (suc (length items) - i) s' h (omega arith))

  range_reply_negative :
      (i k : ℕ) (s' : Server)
      → i < length items
      → length items + suc k < 2 ^ 63
      → range_reply db items (pos i) (negsuc k) s'
        ≡ (ok (array (take (length items - i) (drop i items))), s')
  unfolding range_reply
  range_reply_negative i k s' h fits =
      let small : ltb (length items + suc k) (2 ^ 63) ≡ true = ground arith in
      let beyond : ltb (length items) (length items + suc k) ≡ true = ground arith in
      let some_items : leb 1 (length items) ≡ true = ground arith in
      let ordered : ltb (length items - 1) i ≡ false = ground arith in
      let below : ltb (length items) i ≡ false = ground arith in
      let count : suc (length items - 1) - i ≡ length items - i = omega arith in
      rw (
        small,
        beyond,
        some_items,
        ordered,
        below,
        count,
        items_from-drop db items i (length items - i) s' (omega arith),
      )

-- LRANGE on a live list: with 0 ≤ start ≤ end and end an index of the list, the reply is the items
-- from start to end, both included.
pub handle_lrange-window :
    (db : ℤ) (name key a b : String) (items : List String) (t : Option ℕ) (s : Server) (i j : ℕ)
    → IsLive db key (list items) t s
    → atoi a ≡ some (pos i)
    → atoi b ≡ some (pos j)
    → i ≤ j
    → j < length items
    → (handle_lrange db (name ∷ key ∷ a ∷ b ∷ []) s).0
      ≡ ok (array (take (suc j - i) (drop i items)))
handle_lrange-window db name key a b items t s i j live p q h k = rw (
  handle_lrange-live db name key a b items t s live (pos i) (pos j) p q,
  range_reply-window db name key a b items t s live i j (after_read db (key ∷ []) s) h k,
)

-- LRANGE on a live list panics whenever the end is the length of the list and the start is at most
-- that: the check lets the end through, and the loop reads one item too many.
pub handle_lrange_panics :
    (db : ℤ) (name key a b : String) (items : List String) (t : Option ℕ) (s : Server) (i : ℕ)
    → IsLive db key (list items) t s
    → atoi a ≡ some (pos i)
    → atoi b ≡ some (pos (length items))
    → i ≤ length items
    → (handle_lrange db (name ∷ key ∷ a ∷ b ∷ []) s).0 ≡ panic
handle_lrange_panics db name key a b items t s i live p q h = rw (
  handle_lrange-live db name key a b items t s live (pos i) (pos (length items)) p q,
  range_reply_beyond db name key a b items t s live i (after_read db (key ∷ []) s) h,
)

-- LRANGE on a live list with an index of the list as its start and a negative end, so near
-- that the length of the list less the end is an int64, replies with all items from the start on: how far the end is from
-- the end of the list makes no difference.
pub handle_lrange_negative :
    (db : ℤ) (name key a b : String) (items : List String) (t : Option ℕ) (s : Server) (i k : ℕ)
    → IsLive db key (list items) t s
    → atoi a ≡ some (pos i)
    → atoi b ≡ some (negsuc k)
    → i < length items
    → length items + suc k < 2 ^ 63
    → (handle_lrange db (name ∷ key ∷ a ∷ b ∷ []) s).0
      ≡ ok (array (take (length items - i) (drop i items)))
handle_lrange_negative db name key a b items t s i k live p q h fits = rw (
  handle_lrange-live db name key a b items t s live (pos i) (negsuc k) p q,
  range_reply_negative db name key a b items t s live i k (after_read db (key ∷ []) s) h fits,
)
