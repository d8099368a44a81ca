-- ===== src/Sets/Pointers/Union.antt =====
-- internal/modules/set/set.go, `Union`: the result, and what it does to the sets it is given.
use echo_vault.Base.{
  ℕ, zero, suc, ◌/◌, ◌≤◌, ◌≡◌, refl, sym, ap, String, Bool, true, false, not, ◌||◌, some, List, [],
  ◌∷◌, ◌∙◌, arith, inl, inr, Bool-cases, nat_eq, length, take, drop, any, get_elem?, any-append,
  take-append-drop, length-take, length-drop,
}
use echo_vault.Sets.{has, add}
use echo_vault.Sets.Laws.{has-add}
use echo_vault.Sets.Pointers.{Memory, store, union}

-- Some set among those at the addresses has the member.
abbrev pub any_has : Memory → List ℕ → String → Bool
any_has m ps x = any (λ p. has (m.cell p) x) ps

-- What a call of `Union` on `ps` does to membership, for one member.
pub record UnionsAt (m : Memory) (ps : List ℕ) (r : ℕ) (m' : Memory) (x : String) : Type 0 where
  pub result : has (m'.cell r) x ≡ any_has m ps x
  pub grows : (q : ℕ) → has (m.cell q) x ≡ true → has (m'.cell q) x ≡ true
  pub bounded :
      (q : ℕ) → has (m'.cell q) x ≡ true → any_has m ps x ≡ false → has (m.cell q) x ≡ true

any_has_grows :
    (m m' : Memory) (ps : List ℕ) (x : String)
    → ((q : ℕ) → has (m.cell q) x ≡ true → has (m'.cell q) x ≡ true)
    → any_has m ps x ≡ true
    → any_has m' ps x ≡ true
unfolding any
any_has_grows m m' [] x g h = h
any_has_grows m m' (p ∷ ps) x g h = ground (arith, any_has_grows m m' ps x g, g p)

any_has_bounded :
    (m m' : Memory) (ps : List ℕ) (x : String)
    → ((q : ℕ) → has (m'.cell q) x ≡ true → has (m.cell q) x ≡ true)
    → any_has m' ps x ≡ true
    → any_has m ps x ≡ true
any_has_bounded m m' = any_has_grows m' m

any_has_split :
    (m : Memory) (n : ℕ) (ps : List ℕ) (x : String)
    → any_has m ps x ≡ (any_has m (take n ps) x || any_has m (drop n ps) x)
any_has_split m n ps x =
    ap (λ l. any_has m l x) (sym (take-append-drop n ps)) ∙ any-append _ (take n ps) (drop n ps)

UnionsAt-one : (m : Memory) (p : ℕ) (x : String) → UnionsAt m (p ∷ []) p m x
unfolding any
UnionsAt-one m p x = record { result = ground arith; grows = λ q h. h; bounded = λ q h _. h }

UnionsAt-two :
    (m : Memory) (p q : ℕ) (x : String)
    → UnionsAt m (p ∷ q ∷ []) p (store p (add (m.cell q).members (m.cell p)).0 m) x
unfolding any store has
UnionsAt-two m p q x = record {
  result = ground (arith, has-add (m.cell q).members (m.cell p) x);
  grows = λ k h. ground (arith, has-add (m.cell q).members (m.cell p) x);
  bounded = λ k h b. ground (arith, has-add (m.cell q).members (m.cell p) x);
}

-- Two halves and a last call on their results.
module _ (m m1 m2 m3 : Memory) (ls rs : List ℕ) (l r o : ℕ) (x : String) (a : UnionsAt m ls l m1 x)
    (b : UnionsAt m1 rs r m2 x) (c : UnionsAt m2 (l ∷ r ∷ []) o m3 x) where
  halves_result : has (m3.cell o) x ≡ (any_has m ls x || any_has m rs x)
  unfolding any
  halves_result = elim (Bool-cases (any_has m ls x)) [
    | inl left ↦ ground (arith, b.grows l, a.result, c.result)
    | inr left ↦ ground (
      arith,
      any_has_grows m m1 rs x a.grows,
      any_has_grows m1 m rs x (λ q h. a.bounded q h left),
      b.bounded l,
      a.result,
      b.result,
      c.result,
    )
  ]

  halves_bounded :
      (q : ℕ)
      → has (m3.cell q) x ≡ true
      → any_has m ls x ≡ false
      → any_has m rs x ≡ false
      → has (m.cell q) x ≡ true
  unfolding any
  halves_bounded q h left right = ground (
    arith,
    any_has_grows m1 m rs x (λ k g. a.bounded k g left),
    a.bounded q,
    b.bounded q,
    b.bounded l,
    c.bounded q,
    a.result,
    b.result,
  )

UnionsAt-halves :
    (n : ℕ) (ps : List ℕ) (m m1 m2 m3 : Memory) (l r o : ℕ) (x : String)
    → UnionsAt m (take n ps) l m1 x
    → UnionsAt m1 (drop n ps) r m2 x
    → UnionsAt m2 (l ∷ r ∷ []) o m3 x
    → UnionsAt m ps o m3 x
UnionsAt-halves n ps m m1 m2 m3 l r o x a b c = record {
  result =
      halves_result m m1 m2 m3 (take n ps) (drop n ps) l r o x a b c ∙ sym (any_has_split m n ps x);
  grows = λ q h. c.grows q (b.grows q (a.grows q h));
  bounded = λ q h out.
      halves_bounded m m1 m2 m3 (take n ps) (drop n ps) l r o x a b c q h
        (ground (arith, any_has_split m n ps x)) (ground (arith, any_has_split m n ps x));
}

head-take : (n : ℕ) (ps : List ℕ) → 1 ≤ n → get_elem? (take n ps) 0 ≡ get_elem? ps 0
head-take zero ps h = absurd (omega arith)
head-take (suc n) [] h = refl
head-take (suc n) (p ∷ ps) h = refl

-- A call ends, returns the address of the first set, and does to each member what `UnionsAt` says.
union-UnionsAt :
    (fuel : ℕ) (ps : List ℕ) (m : Memory)
    → 1 ≤ length ps
    → length ps ≤ fuel
    → (r : ℕ) × (m' : Memory) × (union fuel ps m ≡ some (r, m'))
      × (get_elem? ps 0 ≡ some r)
      × ((x : String) → UnionsAt m ps r m' x)
unfolding union
union-UnionsAt zero ps m h k = absurd (omega arith)
union-UnionsAt (suc fuel) [] m h k = absurd (omega arith)
union-UnionsAt (suc fuel) (p ∷ []) m h k = (p, m, refl, refl, UnionsAt-one m p)
union-UnionsAt (suc fuel) (p ∷ q ∷ []) m h k =
    (p, store p (add (m.cell q).members (m.cell p)).0 m, refl, refl, UnionsAt-two m p q)
union-UnionsAt (suc fuel) (p ∷ q ∷ t ∷ ps) m h k =
    let all : List ℕ = p ∷ q ∷ t ∷ ps in
    let n : ℕ = length all / 2 in
    let lt : length (take n all) ≡ n = length-take n all (omega arith) in
    let (l, m1, e1, f1, a) = union-UnionsAt fuel (take n all) m (omega arith) (omega arith) in
    let (r, m2, e2, f2, b) =
      union-UnionsAt fuel (drop n all) m1 (omega (arith, length-drop n all))
        (omega (arith, length-drop n all)) in
    let (o, m3, e3, f3, c) = union-UnionsAt fuel (l ∷ r ∷ []) m2 (omega arith) (omega arith) in
    (
      o,
      m3,
      rw (e1, e2, e3),
      cc (f1, f3, head-take n all (omega arith)),
      λ x. UnionsAt-halves n all m m1 m2 m3 l r o x (a x) (b x) (c x),
    )

-- With as much fuel as there are sets, and at least one set, a call ends. It returns the address of
-- the first set, which now has exactly the members of all the sets, and no set loses a member.
pub union-any_has :
    (fuel : ℕ) (ps : List ℕ) (m : Memory)
    → 1 ≤ length ps
    → length ps ≤ fuel
    → (r : ℕ) × (m' : Memory) × (union fuel ps m ≡ some (r, m'))
      × (get_elem? ps 0 ≡ some r)
      × ((x : String) → has (m'.cell r) x ≡ any_has m ps x)
      × ((q : ℕ) (x : String) → (not (has (m.cell q) x) || has (m'.cell q) x) ≡ true)
union-any_has fuel ps m h k =
    let (r, m', done, place, at) = union-UnionsAt fuel ps m h k in
    (r, m', done, place, λ x. (at x).result, λ q x. ground (arith, (at x).grows q))
