-- ===== src/SortedSets/Popped.antt =====
-- internal/modules/sorted_set/sorted_set.go: what `Pop` takes and what it leaves.
use echo_vault.Base.{
  ℕ, zero, suc, ◌+◌, ◌≡◌, refl, ap, ◌∙◌, String, Bool, true, false, ◌||◌, none, some, List, [], ◌∷◌,
  arith, inl, inr, Bool-cases, if◌then◌else◌, ◌==◌, string_eq, nat_eq, eq_iff, pos, equal_fold, leb,
  length, take, drop, lookup, insert, lookup-insert, lookup-without, lookup-nil,
}
use echo_vault.Keyspace.State.{ok}
use echo_vault.SortedSets.{
  SortedSet, has_member, remove_member, add_or_update, update_each, update_one, place, sorted,
  pop_each, pop_scores,
}
use echo_vault.SortedSets.Arithmetic.{Scores, compare_scores}
use echo_vault.SortedSets.Joins.{IsMap}
use echo_vault.SortedSets.Order.{
  IsOrder, flip-IsOrder, lookup-sorted, sorted-IsOrdered, ordered_split,
}

-- the smaller of two numbers
abbrev pub most : ℕ → ℕ → ℕ
most n m = if leb n m then n else m

length-take_most : (n : ℕ) (l : List (String × ℕ)) → length (take n l) ≡ most n (length l)
length-take_most zero l = ground arith
length-take_most (suc n) [] = ground arith
length-take_most (suc n) (m ∷ l) = ground (arith, length-take_most n l)

length-place :
    (ops : Scores) (before : ℕ → ℕ → Bool) (m : String × ℕ) (l : List (String × ℕ))
    → length (place ops before m l) ≡ length l + 1
unfolding place
length-place ops before m [] = refl
length-place ops before m ((w, y) ∷ l) = ground (arith, length-place ops before m l)

length-sorted :
    (ops : Scores) (before : ℕ → ℕ → Bool) (s : SortedSet) → length (sorted ops before s) ≡ length s
unfolding sorted
length-sorted ops before [] = refl
length-sorted ops before (m ∷ s) =
    omega (arith, length-place ops before m (sorted ops before s), length-sorted ops before s)

-- a list in two parts
lookup_split :
    (v : String) (n : ℕ) (l : List (String × ℕ))
    → lookup v l ≡ elim (lookup v (take n l)) [ none ↦ lookup v (drop n l) | some x ↦ some x ]
unfolding lookup
lookup_split v zero l = refl
lookup_split v (suc n) [] = refl
lookup_split v (suc n) ((w, x) ∷ l) = ground (arith, lookup_split v n l)

take-IsMap : (n : ℕ) (l : List (String × ℕ)) → IsMap l → IsMap (take n l)
unfolding IsMap
take-IsMap zero l h = tt
take-IsMap (suc n) [] h = tt
take-IsMap (suc n) ((v, x) ∷ l) h = (ground (arith, lookup_split v n l, h.0), take-IsMap n l h.1)

split_apart :
    (v : String) (n : ℕ) (l : List (String × ℕ))
    → IsMap l
    → has_member (take n l) v ≡ true
    → lookup v (drop n l) ≡ none
unfolding IsMap lookup
split_apart v zero l h there = absurd (ground arith)
split_apart v (suc n) [] h there = absurd (ground arith)
split_apart v (suc n) ((w, x) ∷ l) h there = elim (Bool-cases (w == v)) [
  | inl here ↦ ground (arith, h.0, lookup_split v n l, eq_iff w v)
  | inr later ↦ split_apart v n l h.1 (ground arith)
]

length-insert :
    (v : String) (x : ℕ) (s : SortedSet) → lookup v s ≡ none → length (insert v x s) ≡ length s + 1
unfolding insert lookup
length-insert v x [] h = refl
length-insert v x ((w, y) ∷ s) h = ground (arith, length-insert v x s)

lookup-remove_member :
    (v : String) (s : SortedSet) (u : String)
    → lookup u (remove_member v s).0 ≡ (if v == u then none else lookup u s)
unfolding remove_member
lookup-remove_member v s u = ground (arith, lookup-without v s u, eq_iff v u)

module _ (ops : Scores) where
  add_or_update-one :
      (v : String) (x : ℕ) (s : SortedSet)
      → (add_or_update ops ((v, x) ∷ []) none none none none s).1 ≡ insert v x s
  unfolding add_or_update update_each update_one compare_scores equal_fold
  add_or_update-one v x s = refl

  -- What the loop of `Pop` makes of the two sets.
  record Pops (ks : List (String × ℕ)) (popped s : SortedSet) (r : SortedSet × SortedSet)
      : Type 0 where
    taken :
        (v : String)
        → lookup v r.0 ≡ elim (lookup v ks) [ none ↦ lookup v popped | some x ↦ some x ]
    left : (v : String) → lookup v r.1 ≡ (if has_member ks v then none else lookup v s)
    counted : length r.0 ≡ length popped + length ks

  pop_each-Pops :
      (ks : List (String × ℕ)) (popped s : SortedSet)
      → IsMap ks
      → ((v : String) → has_member ks v ≡ true → lookup v popped ≡ none)
      → Pops ks popped s (pop_each ops ks popped s)
  unfolding pop_each IsMap lookup remove_member
  pop_each-Pops [] popped s h apart = record {
    taken = λ v. refl;
    left = λ v. refl;
    counted = ground arith;
  }
  pop_each-Pops ((v, x) ∷ ks) popped s h apart =
      let fresh : lookup v popped ≡ none = apart v (ground (arith, eq_iff v v)) in
      let rest =
        pop_each-Pops ks (insert v x popped) (remove_member v s).0 h.1
          (λ u there. ground (arith, lookup-insert v x popped u, apart u, h.0, eq_iff v u)) in
      rw (add_or_update-one v x popped) (record {
        taken = λ u. ground (arith, rest.taken u, lookup-insert v x popped u, h.0, eq_iff v u);
        left = λ u. ground (arith, rest.left u, lookup-remove_member v s u, eq_iff v u);
        counted = ground (arith, rest.counted, length-insert v x popped);
      })

  pop_each-sorted :
      (before : ℕ → ℕ → Bool) (n : ℕ) (s : SortedSet)
      → IsMap s
      → Pops (take n (sorted ops before s)) [] s (pop_each ops (take n (sorted ops before s)) [] s)
  pop_each-sorted before n s h =
      pop_each-Pops (take n (sorted ops before s)) [] s
        (take-IsMap n (sorted ops before s) (lookup-sorted ops before s h).0)
        (λ v there. lookup-nil {V = ℕ} v)

  -- the set in two parts: every member stands in one of them, with its score
  pub record Splits (s popped rest : SortedSet) : Type 0 where
    pub whole :
        (v : String)
        → lookup v s ≡ elim (lookup v popped) [ none ↦ lookup v rest | some x ↦ some x ]
    pub apart : (v : String) → has_member popped v ≡ true → lookup v rest ≡ none

  unfoldable pub order_of : String → ℕ → ℕ → Bool
  order_of policy = if equal_fold policy "min" then ops.before else λ a b. ops.before b a

  order_of-IsOrder : (policy : String) → IsOrder ops.before → IsOrder (order_of policy)
  unfolding order_of
  order_of-IsOrder policy o = elim (Bool-cases (equal_fold policy "min")) [
    | inl least ↦ rw (least, order_of) o
    | inr most ↦ rw (most, order_of) (flip-IsOrder ops.before o)
  ]

  -- `Pop` with a count of zero or more and the policy MIN or MAX, on a map, when the comparison of scores is a strict order with ties: it
  -- takes as many members as the count says, or as there are. Every member of the set is then in
  -- exactly one of what comes off and what stays, with its score, and no score that stays comes before one that comes off,
  -- from below for MIN and from above for MAX.
  pub pop_scores-Splits :
      (policy : String) (n : ℕ) (s : SortedSet)
      → IsMap s
      → IsOrder ops.before
      → (equal_fold policy "min" || equal_fold policy "max") ≡ true
      → (popped : SortedSet) × (rest : SortedSet) × (pop_scores ops (pos n) policy s
          ≡ (ok popped, rest))
        × Splits s popped rest
        × (length popped ≡ most n (length s))
        × ((v y : String) (x z : ℕ)
            → lookup v popped ≡ some x
            → lookup y rest ≡ some z
            → order_of policy z x ≡ false)
  unfolding pop_scores order_of
  pop_scores-Splits policy n s h o named =
      let before = order_of policy in
      let l = sorted ops before s in
      let (valid, same) = lookup-sorted ops before s h in
      let r = pop_each ops (take n l) [] s in
      let p = pop_each-sorted before n s h in
      let total : length (take n l) ≡ most n (length s) =
        length-take_most n l ∙ ap (most n) (length-sorted ops before s) in
      (
        r.0,
        r.1,
        ground (arith, named),
        record {
          whole = λ v.
              ground (arith, p.taken v, p.left v, lookup-nil {V = ℕ} v, same v, lookup_split v n l);
          apart = λ v there. ground (arith, p.taken v, p.left v, lookup-nil {V = ℕ} v);
        },
        omega (arith, p.counted, total),
        λ v y x z found stays.
            ordered_split ops before n l v y x z
              (sorted-IsOrdered ops before s (order_of-IsOrder policy o))
              (ground (arith, p.taken v, lookup-nil {V = ℕ} v))
              (ground (arith, p.left y, same y, lookup_split y n l)),
      )
