-- ===== src/Commands/Sets/Aliases.antt =====
-- internal/modules/set/commands.go: SUNIONSTORE of two sets that are there, which stores one of them.
use echo_vault.Base.{
  refl, inl, inr, ◌⊎◌, Assoc, ℕ, ◌≡◌, ◌∙◌, ap, String, true, false, ◌&&◌, ◌||◌, Option, some, [],
  ◌∷◌, arith, if◌then◌else◌, ◌==◌, nat_eq, string_eq, int_eq, ℤ,
}
use echo_vault.Sets.{Set, has, add}
use echo_vault.Sets.Laws.{has-add}
use echo_vault.Sets.Pointers.{store}
use echo_vault.Keyspace.State.{Server, Value, set_at, ok, entry}
use echo_vault.Keyspace.Access.{get_expiry}
use echo_vault.Keyspace.Write.{set_values}
use echo_vault.Keyspace.Writes.{has_room}
use echo_vault.Keyspace.Pointers.{memory-set_values}
use echo_vault.Commands.Exec.{number}
use echo_vault.Commands.Laws.{IsLive, after_read, store_values-Rewrites}
use echo_vault.Commands.Sets.Combined.{all_sets, unite, handle_sunionstore}
use echo_vault.Commands.Sets.Moves.{values_of-two}

-- the union of the sets at two addresses, as `Union` makes it in the first
abbrev united : ℕ → ℕ → Server → Set
united p q s = (add (s.memory.cell q).members (s.memory.cell p)).0

-- the server before the store of SUNIONSTORE
abbrev pub after_union : ℤ → String → String → ℕ → ℕ → Server → Server
after_union db a b k j s = record (after_read db (a ∷ b ∷ []) s) {
  memory = store k (united k j s) s.memory;
}

-- What SUNIONSTORE leaves where the set at one address is stored, with the members of the set at another.
pub record Shares (db : ℤ) (dest : String) (k j : ℕ) (s s' : Server) : Type 0 where
  pub look :
      (db' : ℤ) (key : String)
      → entry s' db' key ≡ (
          if db == db' && dest == key
          then some (record { value = set_at k; expire_at = get_expiry s db dest })
          else entry s db' key)
  pub joined :
      (y : String) → has (s'.memory.cell k) y ≡ (has (s.memory.cell k) y || has (s.memory.cell j) y)
  pub others : (r : ℕ) → s'.memory.cell r ≡ (if r == k then s'.memory.cell k else s.memory.cell r)

-- Go ranges over a map of two entries in one of the two orders.
abbrev pub RangesOver :
    (Assoc String Value → Assoc String Value) → String × Value → String × Value → Type 0
RangesOver order x y = (order (x ∷ y ∷ []) ≡ x ∷ y ∷ []) ⊎ (order (x ∷ y ∷ []) ≡ y ∷ x ∷ [])

module _ (order : Assoc String Value → Assoc String Value) (db : ℤ) (a b dest name : String)
    (p q : ℕ) (t u : Option ℕ) (s : Server) (live_a : IsLive db a (set_at p) t s)
    (live_b : IsLive db b (set_at q) u s) (other : (a == b) ≡ false)
    (room : has_room s ≡ true) where
  -- with the set at `k` first and that at `j` second
  module _ (x y : String) (k j : ℕ)
      (ranged : order ((a, set_at p) ∷ (b, set_at q) ∷ [])
        ≡ (x, set_at k) ∷ (y, set_at j) ∷ []) where
    stored : Server
    stored = (set_values db ((dest, set_at k) ∷ []) (after_union db a b k j s)).0

    same_memory : stored.memory ≡ (after_union db a b k j s).memory
    unfolding stored
    same_memory =
        memory-set_values db ((dest, set_at k) ∷ []) (after_union db a b k j s) (tt, tt) room

    made : stored.memory.cell k ≡ united k j s
    unfolding store
    made = let self : (k == k) ≡ true = ground arith in ap (λ m. m.cell k) same_memory ∙ rw self

    handle_sunionstore-live :
        handle_sunionstore db order (name ∷ dest ∷ a ∷ b ∷ []) s
        ≡ (ok (number (stored.memory.cell k).length), stored)
    unfolding handle_sunionstore all_sets unite stored
    handle_sunionstore-live =
        let (done, r) =
          store_values-Rewrites db dest (after_union db a b k j s) (set_at k) room tt in
        rw (values_of-two db a b p q t u s live_a live_b other, ranged, done)

    stored-Shares : Shares db dest k j s stored
    unfolding store entry get_expiry stored
    stored-Shares =
        let (done, r) =
          store_values-Rewrites db dest (after_union db a b k j s) (set_at k) room tt in
        record {
          look = r.look;
          joined =
              λ v. rw made (unfold has in has-add (s.memory.cell j).members (s.memory.cell k) v);
          others = λ i. ground (arith, ap (λ m. m.cell i) same_memory, made);
        }

-- SUNIONSTORE of two live sets at different keys, when there is room for a write, in whichever order Go ranges over the
-- map of the two values: the destination holds the very set of one of the two keys, with the expiry time that the
-- destination had; that set now has the members of both, so its key has them too, and shares all later changes
-- with the destination. The other entries and the other sets are as they were. The reply is the recorded length of the
-- shared set.
pub handle_sunionstore-Shares :
    (order : Assoc String Value → Assoc String Value) (db : ℤ) (a b dest name : String) (p q : ℕ)
    (t u : Option ℕ) (s : Server)
    → RangesOver order (a, set_at p) (b, set_at q)
    → IsLive db a (set_at p) t s
    → IsLive db b (set_at q) u s
    → (a == b) ≡ false
    → has_room s ≡ true
    → (k : ℕ) × (j : ℕ) × (s' : Server) × (((k ≡ p) × (j ≡ q)) ⊎ ((k ≡ q) × (j ≡ p)))
      × (handle_sunionstore db order (name ∷ dest ∷ a ∷ b ∷ []) s
          ≡ (ok (number (s'.memory.cell k).length), s'))
      × Shares db dest k j s s'
handle_sunionstore-Shares order db a b dest name p q t u s ranges live_a live_b other room =
    elim ranges [
      | inl first ↦ (
        p,
        q,
        stored order db a b dest name p q t u s live_a live_b other room a b p q first,
        inl (refl, refl),
        handle_sunionstore-live order db a b dest name p q t u s live_a live_b other room a b p q
            first,
        stored-Shares order db a b dest name p q t u s live_a live_b other room a b p q first,
      )
      | inr second ↦ (
        q,
        p,
        stored order db a b dest name p q t u s live_a live_b other room b a q p second,
        inr (refl, refl),
        handle_sunionstore-live order db a b dest name p q t u s live_a live_b other room b a q p
            second,
        stored-Shares order db a b dest name p q t u s live_a live_b other room b a q p second,
      )
    ]
