-- ===== src/Sets/Pointers/Moving.antt =====
-- internal/modules/set/set.go, `Move`: what it does to the members of the two sets.
use echo_vault.Base.{
  ℕ, ◌≡◌, String, true, false, not, ◌&&◌, ◌||◌, [], ◌∷◌, arith, inl, inr, Bool-cases, if◌then◌else◌,
  ◌==◌, nat_eq, nat_beq_iff, string_eq, eq_iff, contains,
}
use echo_vault.Sets.{has}
use echo_vault.Sets.Laws.{has-add, has-remove}
use echo_vault.Sets.Pointers.{Memory, store, move}

contains-one : (e y : String) → contains (e ∷ []) y ≡ (e == y)
unfolding contains
contains-one e y = ground arith

-- What a move of a member between two sets does.
pub record Moves (p q : ℕ) (e : String) (m : Memory) : Type 0 where
  pub reply : (move p q e m).1 ≡ (if has (m.cell p) e then 1 else 0)
  pub source : (y : String) → has ((move p q e m).0.cell p) y ≡ (has (m.cell p) y && not (e == y))
  pub destination :
      (y : String)
      → has ((move p q e m).0.cell q) y ≡ (has (m.cell q) y || has (m.cell p) e && e == y)
  pub others :
      (r : ℕ)
      → (move p q e m).0.cell r ≡ (
          if r == p
          then (move p q e m).0.cell p
          else if r == q
          then (move p q e m).0.cell q
          else m.cell r)

pub move-Moves : (p q : ℕ) (e : String) (m : Memory) → (p == q) ≡ false → Moves p q e m
unfolding move store
move-Moves p q e m apart = elim (Bool-cases (has (m.cell p) e)) [
  | inr missing ↦ record {
    reply = rw (missing, move);
    source = λ y. rw (missing, move) (ground (arith, missing, eq_iff e y));
    destination = λ y. rw (missing, move) (ground arith);
    others = λ r. rw (missing, move) (ground (arith, nat_beq_iff r p, nat_beq_iff r q));
  }
  | inl there ↦
      let self_p : (p == p) ≡ true = ground arith in
      let self_q : (q == q) ≡ true = ground arith in
      let apart' : (q == p) ≡ false = ground arith in
      record {
        reply = rw (there, move);
        source = λ y.
            rw (there, move, apart, self_p)
              (ground (arith, has-remove (e ∷ []) (m.cell p) y, contains-one e y));
        destination = λ y.
            rw (there, move, self_q, apart')
              (ground (arith, there, has-add (e ∷ []) (m.cell q) y, contains-one e y));
        others = λ r. rw (there, move) (ground arith);
      }
]
