-- ===== src/Commands/Lists/Laws.antt =====
-- internal/modules/list/commands.go: what the handlers at the ends of a list do to a list that is there.
use echo_vault.Base.{
  suc, ◌+◌, ◌-◌, ◌≡◌, refl, sym, ap, abs, atoi, ◌≢◌, ◌∙◌, String, Bool, true, false, Option, some,
  List, [], ◌∷◌, ◌++◌, arith, if◌then◌else◌, ◌==◌, string_eq, int_eq, nat_eq, ℤ, length,
  length-append, take, get_elem?, ltb, ℕ, equal_fold,
}
use mathlib.Core.List.{reverse, append-nil, append_assoc, reverse-cons}
use echo_vault.Keyspace.State.{Server, list, ok}
use echo_vault.Keyspace.Writes.{has_room}
use echo_vault.Commands.Exec.{number, array}
use echo_vault.Commands.Laws.{
  IsLive, Rewrites, after_read, key_exists-live, value_of-live, store_values-Rewrites,
  Rewrites-after_read,
}
use echo_vault.Commands.Lists.Ends.{
  push_onto, handle_push, handle_lpush, handle_rpush, pop_right, pop_each, pop_items, handle_pop,
}

module _ (db : ℤ) (key : String) (items : List String) (t : Option ℕ) (s : Server)
    (live : IsLive db key (list items) t s) (room : has_room s ≡ true) where
  push_onto-Rewrites :
      (left : Bool) (message : String) (elems : List String)
      → ((push_onto db left message key elems s).0 ≡ ok (number (length items + length elems)))
        × Rewrites db key s
            (list (if left then elems ++ items else items ++ elems))
            (push_onto db left message key elems s).1
  unfolding push_onto
  push_onto-Rewrites left message elems =
      let (done, r) =
        store_values-Rewrites db key (after_read db (key ∷ []) s)
          (list (if left then elems ++ items else items ++ elems)) room tt in
      rw (value_of-live db key s live, done) (refl, Rewrites-after_read db key s (key ∷ []) r)

  push-Rewrites :
      (left : Bool) (only_existing absent message name e : String) (es : List String)
      → ((handle_push db left only_existing absent message (name ∷ key ∷ e ∷ es) s).0
          ≡ ok (number (length items + length (e ∷ es))))
        × Rewrites db key s
            (list (if left then (e ∷ es) ++ items else items ++ e ∷ es))
            (handle_push db left only_existing absent message (name ∷ key ∷ e ∷ es) s).1
  unfolding handle_push
  push-Rewrites left only_existing absent message name e es =
      let enough : ltb (suc (suc (suc (length es)))) 3 ≡ false = ground arith in
      rw (enough, key_exists-live db key s live) (push_onto-Rewrites left message (e ∷ es))

-- LPUSH (and LPUSHX) on a live list, when there is room for a write: the reply is the new length,
-- the elements stand before the old ones in the order given, the expiry time stays, and no other
-- key changes.
pub handle_lpush-Rewrites :
    (db : ℤ) (key : String) (items : List String) (t : Option ℕ) (s : Server)
    → IsLive db key (list items) t s
    → has_room s ≡ true
    → (name e : String) (es : List String)
    → ((handle_lpush db (name ∷ key ∷ e ∷ es) s).0 ≡ ok (number (length items + length (e ∷ es))))
      × Rewrites db key s (list ((e ∷ es) ++ items)) (handle_lpush db (name ∷ key ∷ e ∷ es) s).1
unfolding handle_lpush
handle_lpush-Rewrites db key items t s live room =
    push-Rewrites db key items t s live room true _ _ _

-- RPUSH (and RPUSHX) on a live list, when there is room for a write: the reply is the new length,
-- the elements stand behind the old ones in the order given, the expiry time stays, and no other
-- key changes.
pub handle_rpush-Rewrites :
    (db : ℤ) (key : String) (items : List String) (t : Option ℕ) (s : Server)
    → IsLive db key (list items) t s
    → has_room s ≡ true
    → (name e : String) (es : List String)
    → ((handle_rpush db (name ∷ key ∷ e ∷ es) s).0 ≡ ok (number (length items + length (e ∷ es))))
      × Rewrites db key s (list (items ++ e ∷ es)) (handle_rpush db (name ∷ key ∷ e ∷ es) s).1
unfolding handle_rpush
handle_rpush-Rewrites db key items t s live room =
    push-Rewrites db key items t s live room false _ _ _

place_of_last :
    (zs : List String) (y : String)
    → (get_elem? (zs ++ y ∷ []) (length zs) ≡ some y) × (take (length zs) (zs ++ y ∷ []) ≡ zs)
place_of_last [] y = (refl, refl)
place_of_last (z ∷ zs) y = let (found, before) = place_of_last zs y in (found, ap (◌∷◌ z) before)

length-snoc : (zs : List String) (y : String) → length (zs ++ y ∷ []) - 1 ≡ length zs
length-snoc zs y = omega (arith, length-append zs (y ∷ []))

-- The last item comes off the end of a list.
pop_right-append :
    (zs popped : List String) (y : String) (s : Server)
    → pop_right popped (zs ++ y ∷ []) s ≡ (ok (popped ++ y ∷ [], zs), s)
pop_right-append zs popped y s =
    let (found, before) = place_of_last zs y in
    rw (length-snoc zs y, found, pop_right, length-snoc zs y, before)

pop_each-left :
    (ys xs popped : List String) (s : Server)
    → pop_each true (length ys) popped (ys ++ xs) s ≡ (ok (popped ++ ys, xs), s)
unfolding pop_each
pop_each-left [] xs popped s = rw append-nil
pop_each-left (y ∷ ys) xs popped s = pop_each-left ys xs (popped ++ y ∷ []) s ∙ rw append_assoc

pop_each-right :
    (ys xs popped : List String) (s : Server)
    → pop_each false (length ys) popped (xs ++ reverse ys) s ≡ (ok (popped ++ ys, xs), s)
unfolding pop_each
pop_each-right [] xs popped s = simp append-nil
pop_each-right (y ∷ ys) xs popped s =
    let apart : xs ++ reverse (y ∷ ys) ≡ (xs ++ reverse ys) ++ y ∷ [] =
      ap (λ l. xs ++ l) (reverse-cons y ys) ∙ sym (append_assoc xs (reverse ys) (y ∷ [])) in
    rw apart (
      rw (pop_right-append (xs ++ reverse ys) popped y s)
        (pop_each-right ys xs (popped ++ y ∷ []) s ∙ rw append_assoc))

-- The list on which a pop works: `ys` comes off, and `xs` is left.
abbrev pub popped_from : Bool → List String → List String → List String
popped_from true ys xs = ys ++ xs
popped_from false ys xs = xs ++ reverse ys

pop_each-popped_from :
    (left : Bool) (ys xs : List String) (s : Server)
    → pop_each left (length ys) [] (popped_from left ys xs) s ≡ (ok (ys, xs), s)
pop_each-popped_from true ys xs s = pop_each-left ys xs [] s
pop_each-popped_from false ys xs s = pop_each-right ys xs [] s

not_empty : (xs : List String) → xs ≢ [] → (length xs == 0) ≡ false
not_empty [] h = absurd (h refl)
not_empty (x ∷ xs) h = ground arith

-- LPOP (where the name of the command is that, in any case) and RPOP with a count, on a live list
-- that is not empty, when there is room for a write: with `ys` as many items as the count says
-- without its sign (none for the least int64, whose sign stays), or as there are, the reply is `ys`, in the order in which they come off that end; the rest stays
-- under the key with its expiry time, and no other key changes.
pub handle_pop-Rewrites :
    (db : ℤ) (key name count : String) (i : ℤ) (ys xs : List String) (t : Option ℕ) (s : Server)
    → IsLive db key (list (popped_from (equal_fold name "lpop") ys xs)) t s
    → has_room s ≡ true
    → atoi count ≡ some i
    → popped_from (equal_fold name "lpop") ys xs ≢ []
    → (if ltb (length (popped_from (equal_fold name "lpop") ys xs)) (abs i)
        then length (popped_from (equal_fold name "lpop") ys xs)
        else abs i)
      ≡ length ys
    → ((handle_pop db (name ∷ key ∷ count ∷ []) s).0 ≡ ok (array ys))
      × Rewrites db key s (list xs) (handle_pop db (name ∷ key ∷ count ∷ []) s).1
unfolding handle_pop pop_items
handle_pop-Rewrites db key name count i ys xs t s live room parsed some_items enough =
    let left = equal_fold name "lpop" in
    let s1 = after_read db (key ∷ []) s in
    let (done, r) = store_values-Rewrites db key s1 (list xs) room tt in
    let filled : (length (popped_from left ys xs) == 0) ≡ false =
      not_empty (popped_from left ys xs) some_items in
    rw
      (
        key_exists-live db key s live,
        value_of-live db key s live,
        parsed,
        enough,
        filled,
        pop_each-popped_from left ys xs s1,
        done,
      )
      (refl, Rewrites-after_read db key s (key ∷ []) r)
