-- ===== src/Commands/Lists/Overwrites.antt =====
-- internal/modules/list/commands.go: what LTRIM and LSET do to a list that is there.
use echo_vault.Base.{
  ℕ, zero, suc, ◌+◌, ◌-◌, ◌<◌, ◌≤◌, ◌≡◌, refl, ap, ◌∙◌, sym, String, true, false, ◌&&◌, Option,
  some, List, [], ◌∷◌, arith, inl, inr, Bool-cases, if◌then◌else◌, ◌==◌, string_eq, int_eq, nat_eq,
  eq_iff, int_beq_iff, ℤ, pos, length, length-drop, take, drop, set, atoi, ltb, leb,
}
use echo_vault.Keyspace.State.{Server, Value, list, ok, err, entry}
use echo_vault.Keyspace.Access.{put_entry, get_expiry}
use echo_vault.Keyspace.Write.{max_memory_message}
use echo_vault.Keyspace.Laws.{entry-put_entry}
use echo_vault.Keyspace.Writes.{has_room}
use echo_vault.Commands.Exec.{ok_response, ◌>>=◌, store_values}
use echo_vault.Commands.Laws.{
  IsLive, Rewrites, after_read, key_exists-live, value_of-live, store_values-Rewrites,
  Rewrites-after_read, entry-after_read, store_values-full,
}
use echo_vault.Commands.Lists.{handle_lset, handle_ltrim, trim, write_through}

module _ (db : ℤ) (name key a b : String) (items : List String) (t : Option ℕ) (s : Server)
    (live : IsLive db key (list items) t s) where
  -- the server in which LSET has written through the slice
  overwritten : ℕ → Server
  overwritten i =
      put_entry db key (record { value = list (set items i b); expire_at = t })
        (after_read db (key ∷ []) s)

  expiry-live : get_expiry (after_read db (key ∷ []) s) db key ≡ t
  unfolding get_expiry
  expiry-live = ground (arith, entry-after_read db (key ∷ []) s db key, live.found)

  lset_live :
      (i : ℕ)
      → atoi a ≡ some (pos i)
      → i < length items
      → handle_lset db (name ∷ key ∷ a ∷ b ∷ []) s
        ≡ (store_values db ((key, list (set items i b)) ∷ []) >>= λ _ s'. (ok ok_response, s'))
            (overwritten i)
  unfolding handle_lset write_through overwritten
  lset_live i p h =
      let inside : ltb i (length items) ≡ true = ground arith in
      rw (key_exists-live db key s live, p, value_of-live db key s live, inside, expiry-live)

  entry-overwritten :
      (i : ℕ) (db' : ℤ) (key' : String)
      → entry (overwritten i) db' key' ≡ (
          if db == db' && key == key'
          then some (record { value = list (set items i b); expire_at = t })
          else entry s db' key')
  unfolding overwritten
  entry-overwritten i db' key' =
      entry-put_entry db key (record { value = list (set items i b); expire_at = t })
        (after_read db (key ∷ []) s) db' key'
      ∙ ground (arith, entry-after_read db (key ∷ []) s db' key')

  get_expiry-overwritten : (i : ℕ) → get_expiry (overwritten i) db key ≡ t
  unfolding get_expiry
  get_expiry-overwritten i =
      ground (arith, entry-overwritten i db key, int_beq_iff db db, eq_iff key key)

-- LSET on a live list with an index of the list, counted from 0: with room for a write the reply is
-- OK and the item at the index, and no other item and no other key, is the new one; without room
-- the reply is the error of a full memory, and the item has changed all the same.
pub handle_lset-entry :
    (db : ℤ) (name key a b : String) (items : List String) (t : Option ℕ) (s : Server) (i : ℕ)
    → IsLive db key (list items) t s
    → atoi a ≡ some (pos i)
    → i < length items
    → ((handle_lset db (name ∷ key ∷ a ∷ b ∷ []) s).0
        ≡ (if has_room s then ok ok_response else err max_memory_message))
      × ((db' : ℤ) (key' : String)
          → entry (handle_lset db (name ∷ key ∷ a ∷ b ∷ []) s).1 db' key' ≡ (
              if db == db' && key == key'
              then some (record { value = list (set items i b); expire_at = t })
              else entry s db' key'))
unfolding put_entry
handle_lset-entry db name key a b items t s i live p h = elim (Bool-cases (has_room s)) [
  | inl room ↦
      let (done, r) = store_values-Rewrites db key s1 v (unfold overwritten in room) tt in
      rw (lset, room, done)
        (
          refl,
          λ db' key'. ground (
            arith,
            look db' key',
            r.look db' key',
            int_beq_iff db db',
            eq_iff key key',
            get_expiry-overwritten db name key a b items t s live i,
          ),
        )
  | inr full ↦
      let refused = store_values-full db key v s1 tt (unfold overwritten in full) in
      rw (lset, full, refused) (refl, look)
]
  where
    s1 : Server
    s1 = overwritten db name key a b items t s live i

    v : Value
    v = list (set items i b)

    look :
        (db' : ℤ) (key' : String)
        → entry s1 db' key' ≡ (
            if db == db' && key == key'
            then some (record { value = v; expire_at = t })
            else entry s db' key')
    look = entry-overwritten db name key a b items t s live i

    lset :
        handle_lset db (name ∷ key ∷ a ∷ b ∷ []) s
        ≡ (store_values db ((key, v) ∷ []) >>= λ _ s'. (ok ok_response, s')) s1
    lset = lset_live db name key a b items t s live i p h

take_beyond {ℓ} : {A : Type ℓ} (n : ℕ) (xs : List A) → length xs ≤ n → take n xs ≡ xs
take_beyond zero [] h = refl
take_beyond zero (x ∷ xs) h = absurd (omega arith)
take_beyond (suc n) [] h = refl
take_beyond (suc n) (x ∷ xs) h = ap (◌∷◌ x) (take_beyond n xs (omega arith))

-- LTRIM once the list is read: the window that it writes back.
trim-window :
    (db : ℤ) (key : String) (items : List String) (i j : ℕ) (s : Server)
    → i ≤ j
    → i < length items
    → trim db key items (pos i) (pos j) s
      ≡ (store_values db ((key, list (take (suc j - i) (drop i items))) ∷ []) >>= λ _ s'.
            (ok ok_response, s'))
          s
unfolding trim
trim-window db key items i j s h k =
    let ordered : ltb j i ≡ false = ground arith in
    let inside : ltb i (length items) ≡ true = ground arith in
    elim (Bool-cases (ltb j (length items))) [
      | inl short ↦
          let within : ltb (length items) j ≡ false = ground arith in
          let low : leb i (1 + j) ≡ true = ground arith in
          let high : leb (1 + j) (length items) ≡ true = ground arith in
          let count : 1 + j - i ≡ suc j - i = omega arith in
          rw (ordered, inside, within, short, low, high, count)
      | inr long ↦
          let all_kept : take (length items - i) (drop i items) ≡ take (suc j - i) (drop i items) =
            take_beyond (length items - i) (drop i items) (omega (arith, length-drop i items))
            ∙ sym (take_beyond (suc j - i) (drop i items) (ground (arith, length-drop i items))) in
          let low : leb i (length items) ≡ true = ground arith in
          let high : leb (length items) (length items) ≡ true = ground arith in
          let not_below : ltb (length items) (length items) ≡ false = ground arith in
          elim (Bool-cases (ltb (length items) j)) [
            | inl over ↦ rw (ordered, inside, over, not_below, low, high, all_kept)
            | inr exact ↦
                let from : leb i j ≡ true = ground arith in
                let to : leb j (length items) ≡ true = ground arith in
                let all : take (j - i) (drop i items) ≡ take (suc j - i) (drop i items) =
                  take_beyond (j - i) (drop i items) (ground (arith, length-drop i items))
                  ∙ sym (
                      take_beyond (suc j - i) (drop i items)
                        (ground (arith, length-drop i items))) in
                rw (ordered, inside, exact, long, from, to, all)
          ]
    ]

-- LTRIM on a live list, with both indices counted from 0, the start inside the list and not past
-- the end, when there is room for a write: the reply is OK, the key holds the items from the start
-- to the end, or to the last one, under the expiry time of before, and no other key changes.
pub handle_ltrim-Rewrites :
    (db : ℤ) (name key a b : String) (items : List String) (t : Option ℕ) (s : Server) (i j : ℕ)
    → IsLive db key (list items) t s
    → has_room s ≡ true
    → atoi a ≡ some (pos i)
    → atoi b ≡ some (pos j)
    → i ≤ j
    → i < length items
    → ((handle_ltrim db (name ∷ key ∷ a ∷ b ∷ []) s).0 ≡ ok ok_response)
      × Rewrites db key s
          (list (take (suc j - i) (drop i items)))
          (handle_ltrim db (name ∷ key ∷ a ∷ b ∷ []) s).1
unfolding handle_ltrim
handle_ltrim-Rewrites db name key a b items t s i j live room p q h k =
    let s1 = after_read db (key ∷ []) s in
    let (done, r) =
      store_values-Rewrites db key s1 (list (take (suc j - i) (drop i items))) room tt in
    rw
      (
        key_exists-live db key s live,
        p,
        q,
        value_of-live db key s live,
        trim-window db key items i j s1 h k,
        done,
      )
      (refl, Rewrites-after_read db key s (key ∷ []) r)
