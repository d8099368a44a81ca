-- ===== src/Sets/Pointers/Intersection.antt =====
-- internal/modules/set/set.go, `Intersection`: the exact result without a limit, and what a limit does.
use echo_vault.Base.{
  All-take, All-drop, ℕ, zero, suc, ◌+◌, ◌/◌, ◌≤◌, ◌<◌, ◌≡◌, refl, sym, ap, ◌∙◌, String, Bool, true,
  false, not, ◌&&◌, ◌||◌, some, List, [], ◌∷◌, ◌++◌, arith, inl, inr, Bool-cases, ◌==◌, nat_eq,
  string_eq, eq_iff, length, take, drop, all, All, contains, take-append-drop, length-take,
  length-drop, ℤ, pos, ltb_ℤ, ltb, ltb→lt, lt→ltb,
}
use echo_vault.Sets.{Set, has, add, add_each, new_set, cardinality}
use echo_vault.Sets.Laws.{IsValid, has-add, add-IsValid, has-new_set}
use echo_vault.Sets.Pointers.{Memory, alloc, intersect_each, intersection}

-- Every set at the addresses has the member.
abbrev pub all_have : Memory → List ℕ → String → Bool
all_have m ps x = all (λ p. has (m.cell p) x) ps

all-append {ℓ} :
    {A : Type ℓ} (p : A → Bool) (xs ys : List A) → all p (xs ++ ys) ≡ (all p xs && all p ys)
unfolding all
all-append p [] ys = refl
all-append p (x ∷ xs) ys = ground (arith, all-append p xs ys)

all_have_split :
    (m : Memory) (n : ℕ) (ps : List ℕ) (x : String)
    → all_have m ps x ≡ (all_have m (take n ps) x && all_have m (drop n ps) x)
all_have_split m n ps x =
    ap (λ l. all_have m l x) (sym (take-append-drop n ps)) ∙ all-append _ (take n ps) (drop n ps)

All-mono : (a b : ℕ) (xs : List ℕ) → a ≤ b → All (λ p. p < a) xs → All (λ p. p < b) xs
All-mono a b [] h k = tt
All-mono a b (x ∷ xs) h k = (omega arith, All-mono a b xs h k.1)

-- Without a limit the loop goes through all members.
intersect_each_all :
    (limit : ℤ) (ks : List String) (other acc : Set) (x : String)
    → ltb_ℤ (pos 0) limit ≡ false
    → ((intersect_each limit ks other acc).1 ≡ false)
      × (has (intersect_each limit ks other acc).0 x ≡ (has acc x || contains ks x && has other x))
unfolding intersect_each contains
intersect_each_all limit [] other acc x h = (refl, ground arith)
intersect_each_all limit (k ∷ ks) other acc x h = elim (Bool-cases (has other k)) [
  | inl both ↦
      let (e, r) = intersect_each_all limit ks other (add (k ∷ []) acc).0 x h in
      rw (h, both) (e, ground (arith, r, has-add (k ∷ []) acc x, eq_iff k x))
  | inr one ↦
      let (e, r) = intersect_each_all limit ks other acc x h in
      rw (h, one) (e, ground (arith, r, eq_iff k x))
]

-- What a call of `Intersection` without a limit returns: no set that was there changes.
pub record IntersectsAt (m : Memory) (ps : List ℕ) (r : ℕ) (m' : Memory) : Type 0 where
  pub fresh : r < m'.next
  pub grows : m.next ≤ m'.next
  pub frame : (q : ℕ) → q < m.next → m'.cell q ≡ m.cell q
  pub result : (x : String) → has (m'.cell r) x ≡ all_have m ps x

all_have_frame :
    (m m' : Memory) (ps : List ℕ) (x : String)
    → All (λ p. p < m.next) ps
    → ((q : ℕ) → q < m.next → m'.cell q ≡ m.cell q)
    → all_have m' ps x ≡ all_have m ps x
unfolding all
all_have_frame m m' [] x a f = refl
all_have_frame m m' (p ∷ ps) x a f = rw (f p a.0, all_have_frame m m' ps x a.1 f)

IntersectsAt-one : (m : Memory) (p : ℕ) → p < m.next → IntersectsAt m (p ∷ []) p m
unfolding all
IntersectsAt-one m p h = record {
  fresh = h;
  grows = omega arith;
  frame = λ q _. refl;
  result = λ x. ground arith;
}

cell-alloc : (s : Set) (m : Memory) → (alloc s m).1.cell m.next ≡ s
unfolding alloc
cell-alloc s m = ground arith

module _ (limit : ℤ) (none_set : ltb_ℤ (pos 0) limit ≡ false) where
  two_result : Memory → ℕ → ℕ → Set
  two_result m p q = (intersect_each limit (m.cell p).members (m.cell q) (new_set [])).0

  has-two_result :
      (m : Memory) (p q : ℕ) (x : String) → has (two_result m p q) x ≡ all_have m (p ∷ q ∷ []) x
  unfolding all two_result has contains
  has-two_result m p q x = ground (
    arith,
    intersect_each_all limit (m.cell p).members (m.cell q) (new_set []) x none_set,
    has-new_set [] x,
  )

  IntersectsAt-two :
      (m : Memory) (p q : ℕ) → IntersectsAt m (p ∷ q ∷ []) m.next (alloc (two_result m p q) m).1
  unfolding alloc
  IntersectsAt-two m p q = record {
    fresh = omega arith;
    grows = omega arith;
    frame = λ k h. ground arith;
    result = λ x. ap (λ s. has s x) (cell-alloc (two_result m p q) m) ∙ has-two_result m p q x;
  }

  IntersectsAt-halves :
      (n : ℕ) (ps : List ℕ) (m m1 m2 m3 : Memory) (l r o : ℕ)
      → All (λ p. p < m.next) ps
      → IntersectsAt m (take n ps) l m1
      → IntersectsAt m1 (drop n ps) r m2
      → IntersectsAt m2 (l ∷ r ∷ []) o m3
      → IntersectsAt m ps o m3
  unfolding all
  IntersectsAt-halves n ps m m1 m2 m3 l r o inside a b c = record {
    fresh = c.fresh;
    grows = omega (arith, a.grows, b.grows, c.grows);
    frame = λ q h.
        c.frame q (omega (arith, a.grows, b.grows))
        ∙ b.frame q (omega (arith, a.grows))
        ∙ a.frame q h;
    result = λ x. ground (
      arith,
      a.result x,
      b.result x,
      c.result x,
      ap (λ s. has s x) (b.frame l a.fresh),
      all_have_frame m m1 (drop n ps) x (All-drop _ n ps inside) a.frame,
      all_have_split m n ps x,
    );
  }

  -- Without a limit, with as much fuel as there are sets, and at least one set, a call ends, reports
  -- that no limit was reached, and returns a set with exactly the members that all sets have; the
  -- sets in memory stay as they are.
  pub intersection-IntersectsAt :
      (fuel : ℕ) (ps : List ℕ) (m : Memory)
      → 1 ≤ length ps
      → length ps ≤ fuel
      → All (λ p. p < m.next) ps
      → (r : ℕ) × (m' : Memory) × (intersection fuel limit ps m ≡ some (r, false, m'))
        × IntersectsAt m ps r m'
  unfolding intersection two_result
  intersection-IntersectsAt zero ps m h k i = absurd (omega arith)
  intersection-IntersectsAt (suc fuel) [] m h k i = absurd (omega arith)
  intersection-IntersectsAt (suc fuel) (p ∷ []) m h k i = (p, m, refl, IntersectsAt-one m p i.0)
  intersection-IntersectsAt (suc fuel) (p ∷ q ∷ []) m h k i = (
    m.next,
    (alloc (two_result m p q) m).1,
    ap (λ b. some (m.next, b, (alloc (two_result m p q) m).1))
        (intersect_each_all limit (m.cell p).members (m.cell q) (new_set []) "" none_set).0,
    IntersectsAt-two m p q,
  )
  intersection-IntersectsAt (suc fuel) (p ∷ q ∷ t ∷ ps) m h k i =
      let all_of : List ℕ = p ∷ q ∷ t ∷ ps in
      let n : ℕ = length all_of / 2 in
      let lt : length (take n all_of) ≡ n = length-take n all_of (omega arith) in
      let (l, m1, e1, a) =
        intersection-IntersectsAt fuel (take n all_of) m (omega arith) (omega arith)
          (All-take _ n all_of i) in
      let (r, m2, e2, b) =
        intersection-IntersectsAt fuel (drop n all_of) m1 (omega (arith, length-drop n all_of))
          (omega (arith, length-drop n all_of))
          (All-mono m.next m1.next (drop n all_of) a.grows (All-drop _ n all_of i)) in
      let (o, m3, e3, c) =
        intersection-IntersectsAt fuel (l ∷ r ∷ []) m2 (omega arith) (omega arith)
          (omega (arith, a.fresh, b.grows), (b.fresh, tt)) in
      (o, m3, rw (e1, e2, e3), IntersectsAt-halves n all_of m m1 m2 m3 l r o i a b c)

-- The result of the loop under a limit of n + 1, from the set `acc` and the members `ks` to come.
pub record IsLimited (n : ℕ) (ks : List String) (other acc : Set) (out : Set × Bool) : Type 0 where
  pub valid : IsValid out.0
  pub bounded : cardinality out.0 ≤ suc n
  pub full : out.1 ≡ true → cardinality out.0 ≡ suc n
  pub sound : (x : String) → has out.0 x ≡ true → (has acc x || contains ks x && has other x) ≡ true
  pub complete :
      (x : String)
      → out.1 ≡ false
      → (has acc x || contains ks x && has other x) ≡ true
      → has out.0 x ≡ true

add_one-le :
    (k : String) (acc : Set) → IsValid acc → cardinality (add (k ∷ []) acc).0 ≤ cardinality acc + 1
unfolding add add_each
add_one-le k acc v = ground arith

IsLimited-next :
    (n : ℕ) (k : String) (ks : List String) (other acc acc' : Set) (out : Set × Bool)
    → ((x : String) → has acc' x ≡ (has acc x || (k == x && has other x)))
    → IsLimited n ks other acc' out
    → IsLimited n (k ∷ ks) other acc out
unfolding contains
IsLimited-next n k ks other acc acc' out e l = record {
  valid = l.valid;
  bounded = l.bounded;
  full = l.full;
  sound = λ x h. ground (arith, l.sound x h, e x);
  complete = λ x r h. ground (arith, l.complete x r, e x);
}

intersect_each-IsLimited :
    (n : ℕ) (ks : List String) (other acc : Set)
    → IsValid acc
    → cardinality acc ≤ suc n
    → IsLimited n ks other acc (intersect_each (pos (suc n)) ks other acc)
unfolding intersect_each contains
intersect_each-IsLimited n [] other acc v h = record {
  valid = v;
  bounded = h;
  full = λ e. cc;
  sound = λ x e. ground arith;
  complete = λ x e f. ground arith;
}
intersect_each-IsLimited n (k ∷ ks) other acc v h =
    elim (Bool-cases (ltb (cardinality acc) (suc n))) [
      | inl room ↦ elim (Bool-cases (has other k)) [
        | inl both ↦
            rw (room, both, lt→ltb 0 (suc n) (omega arith))
              (IsLimited-next n k ks other acc (add (k ∷ []) acc).0 _
                (λ x. ground (arith, has-add (k ∷ []) acc x, eq_iff k x))
                (intersect_each-IsLimited n ks other (add (k ∷ []) acc).0
                  (add-IsValid (k ∷ []) acc v).0
                  (omega (arith, add_one-le k acc v, ltb→lt (cardinality acc) (suc n) room))))
        | inr one ↦
            rw (room, one, lt→ltb 0 (suc n) (omega arith))
              (IsLimited-next n k ks other acc acc _ (λ x. ground (arith, eq_iff k x))
                (intersect_each-IsLimited n ks other acc v h))
      ]
      | inr stop ↦
          rw (stop, lt→ltb 0 (suc n) (omega arith))
            (record {
              valid = v;
              bounded = h;
              full = λ e. ground arith;
              sound = λ x e. ground arith;
              complete = λ x e f. cc;
            })
    ]

-- `Intersection` without a limit (a limit of at most 0), with as much fuel as there are sets, at least
-- one set, and addresses that are in use: a call ends, reports no limit, and the result has exactly
-- the members that every set has; no set that was there changes.
pub intersection-all_have :
    (limit : ℤ) (fuel : ℕ) (ps : List ℕ) (m : Memory) (q : ℕ)
    → ltb_ℤ (pos 0) limit ≡ false
    → 1 ≤ length ps
    → length ps ≤ fuel
    → All (λ p. p < m.next) ps
    → q < m.next
    → (r : ℕ) × (m' : Memory) × (intersection fuel limit ps m ≡ some (r, false, m'))
      × ((x : String) → has (m'.cell r) x ≡ all_have m ps x)
      × (m'.cell q ≡ m.cell q)
intersection-all_have limit fuel ps m q none_set h k inside old =
    let (r, m', done, at) = intersection-IntersectsAt limit none_set fuel ps m h k inside in
    (r, m', done, at.result, at.frame q old)

-- The loop of `Intersection` under a limit of n + 1, from a set `acc` that is right and within the
-- limit: the result is right and within the limit too. When the limit is reported, it has n + 1
-- members. A member of it is one of `acc` or of both sets, and when no limit is reported it has
-- every such member.
pub intersect_each_limit :
    (n : ℕ) (ks : List String) (other acc : Set) (x : String)
    → IsValid acc
    → cardinality acc ≤ suc n
    → let out = intersect_each (pos (suc n)) ks other acc in
      let wanted = has acc x || contains ks x && has other x in
      IsValid out.0
      × (cardinality out.0 ≤ suc n)
      × ((out.1 && not (cardinality out.0 == suc n)) ≡ false)
      × ((has out.0 x && not wanted) ≡ false)
      × ((not out.1 && wanted && not (has out.0 x)) ≡ false)
intersect_each_limit n ks other acc x v h =
    let l = intersect_each-IsLimited n ks other acc v h in
    (
      l.valid,
      l.bounded,
      ground (arith, l.full),
      ground (arith, l.sound x),
      ground (arith, l.complete x),
    )
