-- ===== src/SortedSets/Order.antt =====
-- internal/modules/sorted_set/sorted_set.go: the sorted list that `Pop` takes its members from.
use echo_vault.Base.{
  ℕ, zero, suc, ◌≡◌, refl, sym, ap, ◌∙◌, String, Bool, true, false, none, some, List, [], ◌∷◌,
  arith, inl, inr, Bool-cases, if◌then◌else◌, ◌==◌, string_eq, nat_eq, eq_iff, All, All-drop, take,
  drop, lookup,
}
use echo_vault.SortedSets.{SortedSet, place, sorted}
use echo_vault.SortedSets.Arithmetic.{Scores}
use echo_vault.SortedSets.Joins.{IsMap}

-- A strict order with ties.
pub record IsOrder (before : ℕ → ℕ → Bool) : Type 0 where
  pub asym : (a b : ℕ) → before a b ≡ true → before b a ≡ false
  pub through : (a b c : ℕ) → before a b ≡ false → before b c ≡ false → before a c ≡ false

pub flip-IsOrder : (before : ℕ → ℕ → Bool) → IsOrder before → IsOrder (λ a b. before b a)
flip-IsOrder before h = record {
  asym = λ a b e. h.asym b a e;
  through = λ a b c e f. h.through c b a f e;
}

module _ (ops : Scores) (before : ℕ → ℕ → Bool) where
  lookup-place :
      (v : String) (x : ℕ) (l : List (String × ℕ)) (u : String)
      → lookup v l ≡ none
      → lookup u (place ops before (v, x) l) ≡ (if v == u then some x else lookup u l)
  unfolding place lookup
  lookup-place v x [] u h = ground arith
  lookup-place v x ((w, y) ∷ l) u h =
      ground (arith, lookup-place v x l u, eq_iff v u, eq_iff w u, eq_iff w v)

  place-IsMap :
      (v : String) (x : ℕ) (l : List (String × ℕ))
      → lookup v l ≡ none
      → IsMap l
      → IsMap (place ops before (v, x) l)
  unfolding place IsMap lookup
  place-IsMap v x [] h m = (refl, tt)
  place-IsMap v x ((w, y) ∷ l) h m = elim (Bool-cases (before y x)) [
    | inl later ↦ rw later (
      ground (arith, lookup-place v x l w, m.0, eq_iff v w, eq_iff w v),
      place-IsMap v x l (ground (arith, eq_iff w v)) m.1,
    )
    | inr here ↦ rw here (h, m)
  ]

  pub lookup-sorted :
      (s : SortedSet)
      → IsMap s
      → IsMap (sorted ops before s) × ((u : String) → lookup u (sorted ops before s) ≡ lookup u s)
  unfolding sorted IsMap lookup
  lookup-sorted [] h = (tt, λ u. refl)
  lookup-sorted ((v, x) ∷ s) h =
      let (valid, same) = lookup-sorted s h.1 in
      let new : lookup v (sorted ops before s) ≡ none = same v ∙ h.0 in
      (
        place-IsMap v x (sorted ops before s) new valid,
        λ u. ground (arith, lookup-place v x (sorted ops before s) u new, same u),
      )

  -- No later score comes before an earlier one.
  unfoldable pub IsOrdered : List (String × ℕ) → Type 0
  IsOrdered [] = Unit
  IsOrdered ((v, x) ∷ l) = All (λ m. before m.1 x ≡ false) l × IsOrdered l

  All-place :
      (a : ℕ) (m : String × ℕ) (l : List (String × ℕ))
      → before m.1 a ≡ false
      → All (λ k. before k.1 a ≡ false) l
      → All (λ k. before k.1 a ≡ false) (place ops before m l)
  unfolding place
  All-place a m [] h all = (h, tt)
  All-place a m ((w, y) ∷ l) h all = elim (Bool-cases (before y m.1)) [
    | inl later ↦ rw later (all.0, All-place a m l h all.1)
    | inr here ↦ rw here (h, all)
  ]

  All-through :
      (a b : ℕ) (l : List (String × ℕ))
      → IsOrder before
      → before b a ≡ false
      → All (λ k. before k.1 b ≡ false) l
      → All (λ k. before k.1 a ≡ false) l
  All-through a b [] o h all = tt
  All-through a b ((w, y) ∷ l) o h all = (o.through y b a all.0 h, All-through a b l o h all.1)

  place-IsOrdered :
      (m : String × ℕ) (l : List (String × ℕ))
      → IsOrder before
      → IsOrdered l
      → IsOrdered (place ops before m l)
  unfolding place IsOrdered
  place-IsOrdered m [] o h = (tt, tt)
  place-IsOrdered m ((w, y) ∷ l) o h = elim (Bool-cases (before y m.1)) [
    | inl later ↦ rw later (All-place y m l (o.asym y m.1 later) h.0, place-IsOrdered m l o h.1)
    | inr here ↦ rw here ((here, All-through m.1 y l o here h.0), h)
  ]

  pub sorted-IsOrdered : (s : SortedSet) → IsOrder before → IsOrdered (sorted ops before s)
  unfolding sorted IsOrdered
  sorted-IsOrdered [] o = tt
  sorted-IsOrdered (m ∷ s) o = place-IsOrdered m (sorted ops before s) o (sorted-IsOrdered s o)

  ordered_at :
      (a z : ℕ) (y : String) (l : List (String × ℕ))
      → All (λ k. before k.1 a ≡ false) l
      → lookup y l ≡ some z
      → before z a ≡ false
  unfolding lookup
  ordered_at a z y [] all found = absurd (ground arith)
  ordered_at a z y ((w, x) ∷ l) all found = elim (Bool-cases (w == y)) [
    | inl here ↦ ground (arith, all.0)
    | inr later ↦ ordered_at a z y l all.1 (ground arith)
  ]

  pub ordered_split :
      (n : ℕ) (l : List (String × ℕ)) (v y : String) (x z : ℕ)
      → IsOrdered l
      → lookup v (take n l) ≡ some x
      → lookup y (drop n l) ≡ some z
      → before z x ≡ false
  unfolding lookup IsOrdered
  ordered_split zero l v y x z o found rest = absurd (ground arith)
  ordered_split (suc n) [] v y x z o found rest = absurd (ground arith)
  ordered_split (suc n) ((w, a) ∷ l) v y x z o found rest = elim (Bool-cases (w == v)) [
    | inl here ↦
        let same : a ≡ x = ground arith in
        ap (λ b. before z b) (sym same) ∙ ordered_at a z y (drop n l) (All-drop _ n l o.0) rest
    | inr later ↦ ordered_split n l v y x z o.1 (ground arith) rest
  ]
