-- ===== src/SortedSets/Extremes.antt =====
-- internal/modules/sorted_set/sorted_set.go: what MIN and MAX make of scores that are numbers.
use echo_vault.Base.{
  string_eq, not, subst, refl, ℕ, ◌≤◌, ◌<◌, ◌≡◌, String, Bool, true, false, ◌&&◌, some, List, [],
  ◌∷◌, ◌++◌, arith, inl, inr, Bool-cases, if◌then◌else◌, ◌==◌, nat_eq, any, any-append, length,
  lookup,
}
use echo_vault.SortedSets.{SortedSet}
use echo_vault.SortedSets.Arithmetic.{Scores}
use echo_vault.SortedSets.Aggregates.{SortedSetParam, union_scores}
use echo_vault.SortedSets.Folds.{
  Bracketed, leaf, node, present, IsUnion, weighted_scores, Aggregate, least, greatest,
  aggregate_word, join_scores,
}
use echo_vault.SortedSets.Unions.{AreMaps, union_scores-IsUnion}

-- The order of float64: `<`, where only a number lies between two others.
pub record IsLess (less : ℕ → ℕ → Bool) (is_number : ℕ → Bool) : Type 0 where
  pub asym : (a b : ℕ) → less a b ≡ true → less b a ≡ false
  pub through :
      (a b c : ℕ) → is_number b ≡ true → less a b ≡ false → less b c ≡ false → less a c ≡ false

abbrev pub all_hold : (ℕ → Bool) → List ℕ → Bool
all_hold p [] = true
all_hold p (x ∷ xs) = p x && all_hold p xs

all_hold-append :
    (p : ℕ → Bool) (xs ys : List ℕ) → all_hold p (xs ++ ys) ≡ (all_hold p xs && all_hold p ys)
all_hold-append p [] ys = ground arith
all_hold-append p (x ∷ xs) ys = ground (arith, all_hold-append p xs ys)

-- The number is one of the list, and none of the list is less.
abbrev pub IsExtreme : (ℕ → ℕ → Bool) → List ℕ → ℕ → Type 0
IsExtreme less xs x = (any (λ y. y == x) xs ≡ true) × (all_hold (λ y. not (less y x)) xs ≡ true)

all_hold_member :
    (p : ℕ → Bool) (xs : List ℕ) (x : ℕ)
    → all_hold p xs ≡ true
    → any (λ y. y == x) xs ≡ true
    → p x ≡ true
unfolding any
all_hold_member p [] x all there = absurd (ground arith)
all_hold_member p (y ∷ xs) x all there = elim (Bool-cases (y == x)) [
  | inl same ↦ let e : y ≡ x = ground arith in subst (λ z. p z ≡ true) e (ground (arith, all))
  | inr other ↦ all_hold_member p xs x (ground (arith, all)) (ground (arith, other))
]

all_hold_through :
    (less : ℕ → ℕ → Bool) (is_number : ℕ → Bool) (xs : List ℕ) (a b : ℕ)
    → IsLess less is_number
    → is_number a ≡ true
    → less a b ≡ false
    → all_hold (λ y. not (less y a)) xs ≡ true
    → all_hold (λ y. not (less y b)) xs ≡ true
all_hold_through less is_number [] a b o real h all = refl
all_hold_through less is_number (y ∷ xs) a b o real h all =
    ground (arith, all_hold_through less is_number xs a b o real h, o.through y a b real)

-- One of two numbers that is extreme in its list is extreme in both lists.
IsExtreme-left :
    (less : ℕ → ℕ → Bool) (is_number : ℕ → Bool) (xs ys : List ℕ) (a b : ℕ)
    → IsLess less is_number
    → is_number b ≡ true
    → less b a ≡ false
    → IsExtreme less xs a
    → IsExtreme less ys b
    → IsExtreme less (xs ++ ys) a
IsExtreme-left less is_number xs ys a b o real first h k = (
  ground (arith, any-append (λ y. y == a) xs ys, h.0),
  ground (
    arith,
    all_hold-append (λ y. not (less y a)) xs ys,
    h.1,
    all_hold_through less is_number ys b a o real first k.1,
  ),
)

IsExtreme-right :
    (less : ℕ → ℕ → Bool) (is_number : ℕ → Bool) (xs ys : List ℕ) (a b : ℕ)
    → IsLess less is_number
    → is_number a ≡ true
    → less b a ≡ true
    → IsExtreme less xs a
    → IsExtreme less ys b
    → IsExtreme less (xs ++ ys) b
IsExtreme-right less is_number xs ys a b o real before h k = (
  ground (arith, any-append (λ y. y == b) xs ys, k.0),
  ground (
    arith,
    all_hold-append (λ y. not (less y b)) xs ys,
    k.1,
    all_hold_through less is_number xs a b o real (o.asym b a before) h.1,
  ),
)

-- the choice of one of two numbers that MIN and MAX make
abbrev pub chosen : (ℕ → ℕ → Bool) → ℕ → ℕ → ℕ
chosen less a b = if less b a then b else a

Bracketed-IsExtreme :
    (less : ℕ → ℕ → Bool) (is_number : ℕ → Bool) (xs : List ℕ) (x : ℕ)
    → IsLess less is_number
    → Bracketed (chosen less) xs x
    → all_hold is_number xs ≡ true
    → IsExtreme less xs x
unfolding any
Bracketed-IsExtreme less is_number _ _ o (leaf x) real = elim (Bool-cases (less x x)) [
  | inl before ↦ absurd (ground (arith, before, o.asym x x before))
  | inr tied ↦ (ground arith, ground (arith, tied))
]
Bracketed-IsExtreme less is_number _ _ o (node xs ys a b left right) real =
    let real_xs : all_hold is_number xs ≡ true = ground (arith, all_hold-append is_number xs ys) in
    let real_ys : all_hold is_number ys ≡ true = ground (arith, all_hold-append is_number xs ys) in
    let h = Bracketed-IsExtreme less is_number xs a o left real_xs in
    let k = Bracketed-IsExtreme less is_number ys b o right real_ys in
    elim (Bool-cases (less b a)) [
      | inl before ↦ rw before (
          IsExtreme-right less is_number xs ys a b o (all_hold_member is_number xs a real_xs h.0)
            before h k)
      | inr later ↦ rw later (
          IsExtreme-left less is_number xs ys a b o (all_hold_member is_number ys b real_ys k.0)
            later h k)
    ]

-- the order under which an aggregate chooses
abbrev pub order_by : Scores → Bool → ℕ → ℕ → Bool
order_by ops to_max a b = if to_max then ops.less b a else ops.less a b

abbrev pub extreme_word : Bool → Aggregate
extreme_word to_max = if to_max then greatest else least

-- `Union` under MIN or MAX, with as much fuel as there are sets, and at least 1, where all weighted scores of a member
-- are numbers, and the comparison of scores orders numbers: a call ends. If the member has a score in the
-- result, that is one of its weighted scores, and none of them is less, for MAX greater.
pub union_scores-IsExtreme :
    (ops : Scores) (is_number : ℕ → Bool) (to_max : Bool) (fuel : ℕ) (ps : List SortedSetParam)
    (v : String)
    → IsLess (order_by ops to_max) is_number
    → AreMaps ps
    → length ps ≤ fuel
    → 0 < fuel
    → all_hold is_number (present (weighted_scores ops v ps)) ≡ true
    → (r : SortedSet) × (union_scores ops fuel (aggregate_word (extreme_word to_max)) ps ≡ some r)
      × ((x : ℕ)
          → lookup v r ≡ some x
          → IsExtreme (order_by ops to_max) (present (weighted_scores ops v ps)) x)
unfolding IsUnion
union_scores-IsExtreme ops is_number to_max fuel ps v o maps enough more real =
    let (r, ends, joins) =
      union_scores-IsUnion ops (extreme_word to_max) fuel ps maps enough more in
    (
      r,
      ends,
      λ x found. by to_max o (
          subst (IsUnion (join_scores ops (extreme_word to_max)) (weighted_scores ops v ps)) found
            (joins v)),
    )
  where
    by :
        (m : Bool) {x : ℕ}
        → IsLess (order_by ops m) is_number
        → Bracketed (join_scores ops (extreme_word m)) (present (weighted_scores ops v ps)) x
        → IsExtreme (order_by ops m) (present (weighted_scores ops v ps)) x
    by true o' b = Bracketed-IsExtreme (order_by ops true) is_number _ _ o' b real
    by false o' b = Bracketed-IsExtreme (order_by ops false) is_number _ _ o' b real
