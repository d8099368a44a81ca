-- ===== src/Commands/Lists/Removal.antt =====
-- internal/modules/list/commands.go: LREM. The loops work on the array behind the slice that the
-- store holds: a list and the items that removals have left behind its end.
use echo_vault.Base.{
  ℕ, zero, suc, ◌-◌, ◌≡◌, refl, sym, ap, ◌∙◌, String, Bool, true, false, not, ◌&&◌, Option, none,
  some, List, [], ◌∷◌, ◌++◌, arith, inl, inr, Bool-cases, if◌then◌else◌, ◌==◌, string_eq, int_eq,
  nat_eq, eq_iff, int_beq_iff, ℤ, pos, negsuc, length, length-append, take, drop, get_elem?, atoi,
}
use mathlib.Core.List.{reverse, append-nil, append_assoc, reverse-cons, reverse-reverse}
use echo_vault.Keyspace.State.{Server, Value, list, ok, entry}
use echo_vault.Keyspace.Access.{put_entry, get_expiry}
use echo_vault.Keyspace.Laws.{entry-put_entry}
use echo_vault.Keyspace.Writes.{has_room}
use echo_vault.Commands.Exec.{
  Exec, Reply, number, ◌>>=◌, ◌>>◌, pure, lift, arg, key_exists, value_of, store_values,
}
use echo_vault.Commands.Laws.{
  IsLive, Rewrites, after_read, key_exists-live, value_of-live, store_values-Rewrites,
  entry-after_read,
}
use echo_vault.Commands.Lists.{first, lrem_key_func, as_list, integer_arg, write_through}

-- `list[i] == value`
unfoldable pub is_at : List String → ℕ → String → Bool
is_at items i value = elim (get_elem? items i) [ none ↦ false | some x ↦ x == value ]

-- `list = append(list[:i], list[i+1:]...)`: the last place keeps what it held
abbrev pub cut : ℕ → List String × List String → List String × List String
cut i (items, stale) = (take i items ++ drop (suc i) items, drop (length items - 1) items ++ stale)

-- The loops from the head: `none` removes all, `some n` at most `n`.
unfoldable pub remove_up :
    ℕ → String → ℕ → Option ℕ → List String × List String → List String × List String
remove_up zero value i left (items, stale) = (items, stale)
remove_up (suc fuel) value i (some zero) (items, stale) = (items, stale)
remove_up (suc fuel) value i (some (suc n)) (items, stale) =
    let found = remove_up fuel value (suc i) (some n) (cut i (items, stale)) in
    let other = remove_up fuel value (suc i) (some (suc n)) (items, stale) in
    if is_at items i value then found else other
remove_up (suc fuel) value i none (items, stale) =
    let found = remove_up fuel value (suc i) none (cut i (items, stale)) in
    let other = remove_up fuel value (suc i) none (items, stale) in
    if is_at items i value then found else other

-- The loop from the tail, which looks at the places below `i`.
unfoldable pub remove_down : String → ℕ → ℕ → List String × List String → List String × List String
remove_down value zero left state = state
remove_down value (suc i) zero state = state
remove_down value (suc i) (suc n) (items, stale) =
    let found = remove_down value i n (cut i (items, stale)) in
    let other = remove_down value i (suc n) (items, stale) in
    if is_at items i value then found else other

-- the switch of `handleLRem`; a round looks at a new place, so the length is fuel enough
abbrev pub remove_count : String → ℤ → List String → List String × List String
remove_count value (pos zero) items = remove_up (length items) value 0 none (items, [])
remove_count value (pos (suc n)) items = remove_up (length items) value 0 (some (suc n)) (items, [])
remove_count value (negsuc n) items = remove_down value (length items) (suc n) (items, [])

-- `handleLRem`
unfoldable pub handle_lrem : ℤ → List String → Exec Reply
handle_lrem db cmd = do
  keys ← lift (lrem_key_func cmd)
  let key = first keys.write_keys
  exists ← key_exists db key
  count ← integer_arg "count must be an integer" (atoi (arg cmd 2))
  if not exists then pure (number 0) else do
    v ← value_of db key
    items ← as_list "LREM command on non-list item" v
    let (kept, stale) = remove_count (arg cmd 3) count items
    write_through db key (kept ++ stale)
    store_values db ((key, list kept) ∷ [])
    pure (number (length items - length kept))

-- What LREM promises from the tail, on a list turned round: the first `n` occurrences go.
unfoldable pub remove_first : String → ℕ → List String → List String
remove_first value zero items = items
remove_first value (suc n) [] = []
remove_first value (suc n) (x ∷ items) =
    if x == value then remove_first value n items else x ∷ remove_first value (suc n) items

at_end : (xs ys : List String) (x : String) → get_elem? (xs ++ x ∷ ys) (length xs) ≡ some x
at_end [] ys x = refl
at_end (y ∷ xs) ys x = at_end xs ys x

take_front : (xs ys : List String) → take (length xs) (xs ++ ys) ≡ xs
take_front [] ys = refl
take_front (x ∷ xs) ys = ap (◌∷◌ x) (take_front xs ys)

drop_front : (xs ys : List String) (x : String) → drop (suc (length xs)) (xs ++ x ∷ ys) ≡ ys
drop_front [] ys x = refl
drop_front (y ∷ xs) ys x = drop_front xs ys x

cut_front :
    (xs ys stale : List String) (x : String) → (cut (length xs) (xs ++ x ∷ ys, stale)).0 ≡ xs ++ ys
cut_front xs ys stale x = rw (take_front xs (x ∷ ys), drop_front xs ys x)

length-reverse_lem : (xs : List String) → length (reverse xs) ≡ length xs
length-reverse_lem [] = refl
length-reverse_lem (x ∷ xs) =
    ap length (reverse-cons x xs)
    ∙ omega (arith, length-append (reverse xs) (x ∷ []), length-reverse_lem xs)

turned :
    (front back : List String) (x : String)
    → reverse (x ∷ front) ++ back ≡ reverse front ++ x ∷ back
turned front back x =
    ap (λ l. l ++ back) (reverse-cons x front) ∙ append_assoc (reverse front) (x ∷ []) back

at_turned :
    (front back : List String) (x : String)
    → get_elem? (reverse front ++ x ∷ back) (length front) ≡ some x
at_turned front back x =
    ap (λ i. get_elem? (reverse front ++ x ∷ back) i) (sym (length-reverse_lem front))
    ∙ at_end (reverse front) back x

cut_turned :
    (front back stale : List String) (x : String)
    → (cut (length front) (reverse front ++ x ∷ back, stale)).0 ≡ reverse front ++ back
cut_turned front back stale x =
    ap (λ i. (cut i (reverse front ++ x ∷ back, stale)).0) (sym (length-reverse_lem front))
    ∙ cut_front (reverse front) back stale x

is_at_lem :
    (items : List String) (i : ℕ) (value x : String)
    → get_elem? items i ≡ some x
    → is_at items i value ≡ (x == value)
unfolding is_at
is_at_lem items i value x e = rw (e, is_at)

remove_down_step :
    (value : String) (items stale : List String) (i n : ℕ)
    → remove_down value (suc i) (suc n) (items, stale) ≡ (
        if is_at items i value
        then remove_down value i n (cut i (items, stale))
        else remove_down value i (suc n) (items, stale))
unfolding remove_down
remove_down_step value items stale i n = refl

-- The places still to look at are those of `reverse front`.
remove_down-front :
    (value : String) (front back items stale : List String) (n : ℕ)
    → items ≡ reverse front ++ back
    → (remove_down value (length front) n (items, stale)).0
      ≡ reverse (remove_first value n front) ++ back
unfolding remove_first
remove_down-front value [] back items stale zero e = unfold remove_down in e
remove_down-front value [] back items stale (suc n) e = unfold remove_down in e
remove_down-front value (x ∷ front) back items stale zero e = unfold remove_down in e
remove_down-front value (x ∷ front) back items stale (suc n) e =
    let split : items ≡ reverse front ++ x ∷ back = e ∙ turned front back x in
    let look = is_at_lem items (length front) value x (rw split (at_turned front back x)) in
    let gone : (cut (length front) (items, stale)).0 ≡ reverse front ++ back =
      rw split (cut_turned front back stale x) in
    elim (Bool-cases (x == value)) [
      | inl found ↦
          rw (remove_down_step value items stale (length front) n, look, found)
            (remove_down-front value front back _ _ n gone)
      | inr other ↦
          rw (remove_down_step value items stale (length front) n, look, other)
            (remove_down-front value front (x ∷ back) items stale (suc n) split
              ∙ sym (turned (remove_first value (suc n) front) back x))
    ]

module _ (db : ℤ) (key : String) (items : List String) (t : Option ℕ) (s : Server)
    (live : IsLive db key (list items) t s) where
  -- the server in which the loops have written through the slice
  mangled : List String → Server
  mangled left =
      put_entry db key (record { value = list left; expire_at = t }) (after_read db (key ∷ []) s)

  entry-mangled :
      (left : List String) (db' : ℤ) (key' : String)
      → entry (mangled left) db' key' ≡ (
          if db == db' && key == key'
          then some (record { value = list left; expire_at = t })
          else entry s db' key')
  unfolding mangled
  entry-mangled left db' key' =
      entry-put_entry db key (record { value = list left; expire_at = t })
        (after_read db (key ∷ []) s) db' key'
      ∙ ground (arith, entry-after_read db (key ∷ []) s db' key')

  expiry-live : get_expiry (after_read db (key ∷ []) s) db key ≡ t
  unfolding get_expiry
  expiry-live = ground (arith, entry-after_read db (key ∷ []) s db key, live.found)

  get_expiry-mangled : (left : List String) → get_expiry (mangled left) db key ≡ get_expiry s db key
  unfolding get_expiry
  get_expiry-mangled left =
      ground (arith, entry-mangled left db key, live.found, int_beq_iff db db, eq_iff key key)

  Rewrites-mangled :
      (left : List String) {v : Value} {s' : Server}
      → Rewrites db key (mangled left) v s'
      → Rewrites db key s v s'
  Rewrites-mangled left r = record {
    look = λ db' key'.
        ground (arith, r.look db' key', get_expiry-mangled left, entry-mangled left db' key');
  }

  handle_lrem-live :
      (name count value : String) (c : ℤ)
      → atoi count ≡ some c
      → handle_lrem db (name ∷ key ∷ count ∷ value ∷ []) s
        ≡ (store_values db ((key, list (remove_count value c items).0) ∷ []) >>= λ _ s'.
              (ok (number (length items - length (remove_count value c items).0)), s'))
            (mangled ((remove_count value c items).0 ++ (remove_count value c items).1))
  unfolding handle_lrem write_through mangled
  handle_lrem-live name count value c p =
      rw (key_exists-live db key s live, p, value_of-live db key s live, expiry-live)

  -- LREM writes what its loops leave.
  handle_lrem-stores :
      (name count value : String) (c : ℤ) (kept : List String)
      → has_room s ≡ true
      → atoi count ≡ some c
      → (remove_count value c items).0 ≡ kept
      → ((handle_lrem db (name ∷ key ∷ count ∷ value ∷ []) s).0
          ≡ ok (number (length items - length kept)))
        × Rewrites db key s (list kept) (handle_lrem db (name ∷ key ∷ count ∷ value ∷ []) s).1
  unfolding put_entry
  handle_lrem-stores name count value c kept room p e =
      let left = kept ++ (remove_count value c items).1 in
      let (done, r) =
        store_values-Rewrites db key (mangled left) (list kept) (unfold mangled in room) tt in
      rw (handle_lrem-live name count value c p, e, done) (refl, Rewrites-mangled left r)

-- LREM with a negative count on a live list, when there is room for a write: the last occurrences of
-- the value go, as many as the count says or as there are, and the other items stay in order; the
-- reply is how much shorter the list is, the expiry time stays, and no other key changes.
pub handle_lrem-Rewrites :
    (db : ℤ) (name key count value : String) (items : List String) (t : Option ℕ) (s : Server)
    (n : ℕ)
    → IsLive db key (list items) t s
    → has_room s ≡ true
    → atoi count ≡ some (negsuc n)
    → ((handle_lrem db (name ∷ key ∷ count ∷ value ∷ []) s).0
        ≡ ok
            (number (length items - length (reverse (remove_first value (suc n) (reverse items))))))
      × Rewrites db key s
          (list (reverse (remove_first value (suc n) (reverse items))))
          (handle_lrem db (name ∷ key ∷ count ∷ value ∷ []) s).1
handle_lrem-Rewrites db name key count value items t s n live room p =
    handle_lrem-stores db key items t s live name count value (negsuc n) _ room p (
      ap (λ l. (remove_down value l (suc n) (items, [])).0) (sym (length-reverse_lem items))
      ∙ remove_down-front value (reverse items) [] items [] (suc n)
          (sym (append-nil (reverse (reverse items)) ∙ reverse-reverse items))
      ∙ append-nil _)
