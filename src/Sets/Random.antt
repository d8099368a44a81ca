-- ===== src/Sets/Random.antt =====
-- internal/modules/set/set.go, `GetRandom` and `Pop` with a count of zero or more: the draws end, and the
-- members that are drawn are distinct.
use echo_vault.Base.{
  ℕ, zero, suc, ◌+◌, ◌-◌, ◌%◌, ◌≤◌, ◌<◌, ◌≡◌, refl, sym, ◌∙◌, String, Bool, true, false, not, ◌&&◌,
  ◌||◌, Option, some, List, [], ◌∷◌, ◌++◌, arith, inl, inr, Bool-cases, leb, if◌then◌else◌, ◌==◌,
  nat_eq, string_eq, eq_iff, contains, erase, IsDistinct, IsDistinct-snoc, contains-append,
  contains-erase, IsDistinct-erase, length-erase, length-append, get_elem?, get_elem?_inside,
  contains-get_elem?, ℤ, pos,
}
use echo_vault.Base
use echo_vault.Sets.{Set, Draws, has, remove, pick_new, get_random, pop}
use echo_vault.Sets.Laws.{IsValid, has-remove, remove-IsValid}

-- What a loop that has picked `res` and may pick from `keys` still comes to.
record Picks (n : ℕ) (keys res ks : List String) : Type 0 where
  counted : Base.length ks ≡ Base.length res + n
  distinct : IsDistinct ks
  inside : (y : String) → (contains ks y && not (contains res y || contains keys y)) ≡ false

pick_new_step :
    (draws : Draws) (fuel i n : ℕ) (keys res : List String) (k : String)
    → get_elem? keys (draws i % Base.length keys) ≡ some k
    → contains res k ≡ false
    → pick_new draws (suc fuel) i (suc n) keys res
      ≡ pick_new draws fuel (i + 1) n (erase k keys) (res ++ k ∷ [])
unfolding pick_new
pick_new_step draws fuel i n keys res k found new = rw (found, pick_new, new)

pick_new_ends :
    (draws : Draws) (fuel i n : ℕ) (keys res : List String)
    → n ≤ fuel
    → n ≤ Base.length keys
    → IsDistinct keys
    → IsDistinct res
    → ((y : String) → (contains res y && contains keys y) ≡ false)
    → (ks : List String) × (pick_new draws fuel i n keys res ≡ some ks) × Picks n keys res ks
unfolding pick_new contains
pick_new_ends draws zero i zero keys res f h d r apart =
    (res, refl, record { counted = omega arith; distinct = r; inside = λ y. ground arith })
pick_new_ends draws zero i (suc n) keys res f h d r apart = absurd (omega arith)
pick_new_ends draws (suc fuel) i zero keys res f h d r apart =
    (res, refl, record { counted = omega arith; distinct = r; inside = λ y. ground arith })
pick_new_ends draws (suc fuel) i (suc n) keys res f h d r apart =
    let (k, found) = get_elem?_inside keys (draws i % Base.length keys) (omega arith) in
    let here = contains-get_elem? keys (draws i % Base.length keys) k found in
    let new : contains res k ≡ false = ground (arith, apart k) in
    let (ks, done, p) =
      pick_new_ends draws fuel (i + 1) n (erase k keys) (res ++ k ∷ []) (omega arith)
        (omega (arith, length-erase k keys d here)) (IsDistinct-erase k keys d)
        (IsDistinct-snoc res k r new)
        (λ y. ground (arith, apart y, contains-append res (k ∷ []) y, contains-erase k keys y)) in
    (
      ks,
      pick_new_step draws fuel i n keys res k found new ∙ done,
      record {
        counted = omega (arith, p.counted, length-append res (k ∷ []));
        distinct = p.distinct;
        inside = λ y. ground (
          arith,
          p.inside y,
          contains-append res (k ∷ []) y,
          contains-erase k keys y,
          eq_iff k y,
          here,
        );
      },
    )

-- What `n` random members of a set are: as many as asked for, or as there are, distinct, and all from
-- the set.
pub record Drawn (n : ℕ) (s : Set) (ks : List String) : Type 0 where
  pub counted : Base.length ks ≡ (if leb s.length n then s.length else n)
  pub distinct : IsDistinct ks
  pub inside : (y : String) → (contains ks y && not (has s y)) ≡ false

-- `GetRandom` with a count of zero or more ends, whatever is drawn.
pub get_random-Drawn :
    (draws : Draws) (n : ℕ) (s : Set)
    → IsValid s
    → (ks : List String) × (get_random draws (pos n) s ≡ some ks) × Drawn n s ks
unfolding get_random has
get_random-Drawn draws zero s v = (
  [],
  refl,
  record { counted = ground arith; distinct = tt; inside = λ y. unfold contains in refl },
)
get_random-Drawn draws (suc n) s v = elim (Bool-cases (leb s.length (suc n))) [
  | inl every ↦ (
    s.members,
    ground (arith, every),
    record {
      counted = rw every (sym v.counted);
      distinct = v.distinct;
      inside = λ y. ground arith;
    },
  )
  | inr some_left ↦
      let (ks, done, p) =
        pick_new_ends draws (suc n) 0 (suc n) s.members [] (omega arith) (ground (arith, v.counted))
          v.distinct tt (λ y. unfold contains in refl) in
      (
        ks,
        ground (arith, some_left, done),
        record {
          counted = rw some_left (omega (arith, p.counted));
          distinct = p.distinct;
          inside = λ y. ground (arith, p.inside y, contains-nil y);
        },
      )
]
  where
    contains-nil : (y : String) → contains [] y ≡ false
    contains-nil y = unfold contains in refl

-- `Pop` with a count of zero or more ends, whatever is drawn: it gives as many distinct members of the set
-- as asked for, or as there are, and leaves exactly the others, with their right number.
pub pop-Drawn :
    (draws : Draws) (n : ℕ) (s : Set)
    → IsValid s
    → (s' : Set) × (ks : List String) × (pop draws (pos n) s ≡ some (s', ks))
      × Drawn n s ks
      × ((y : String) → has s' y ≡ (has s y && not (contains ks y)))
      × IsValid s'
unfolding pop
pop-Drawn draws n s v =
    let (ks, done, d) = get_random-Drawn draws n s v in
    let (v', shrunk) = remove-IsValid ks s v in
    ((remove ks s).0, ks, rw (done, pop), d, λ y. has-remove ks s y, v')
