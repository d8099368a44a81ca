-- ===== src/Sets/Laws.antt =====
-- internal/modules/set/set.go: what each method does to membership and to the cached length.
use echo_vault.Base.{
  ℕ, zero, suc, ◌+◌, ◌-◌, ◌≤◌, ◌≡◌, refl, String, Bool, true, false, not, ◌&&◌, ◌||◌, Option, none,
  some, List, [], ◌∷◌, ◌++◌, arith, inl, inr, Bool-cases, leb, if◌then◌else◌, ◌==◌, string_eq,
  eq_iff, contains, erase, any, IsDistinct, contains-append, contains-erase, IsDistinct-erase,
  length-erase, any, ==_refl, sym,
}
use echo_vault.Base
use echo_vault.Sets.{Set, has, add_each, add, new_set, remove_each, remove, held, collect, subtract}

-- The keys are distinct, as those of a map are, and the cached length is their number.
pub record IsValid (s : Set) : Type 0 where
  pub distinct : IsDistinct s.members
  pub counted : s.length ≡ Base.length s.members

contains-cons :
    (k : String) (m : List String) (x : String) → contains (k ∷ m) x ≡ (k == x || contains m x)
unfolding contains
contains-cons k m x = refl

contains-add_each :
    (es m : List String) (c : ℕ) (x : String)
    → contains (add_each es m c).0 x ≡ (contains m x || contains es x)
unfolding add_each contains
contains-add_each [] m c x = ground arith
contains-add_each (e ∷ es) m c x = elim (Bool-cases (contains m e)) [
  | inl old ↦ rw old (ground (arith, contains-add_each es m c x, eq_iff e x))
  | inr new ↦ rw new (ground (arith, contains-add_each es (e ∷ m) (c + 1) x))
]

add_each_counts :
    (es m : List String) (c : ℕ)
    → IsDistinct m
    → IsDistinct (add_each es m c).0
      × (Base.length (add_each es m c).0 + c ≡ Base.length m + (add_each es m c).1)
unfolding add_each
add_each_counts [] m c d = (d, refl)
add_each_counts (e ∷ es) m c d = elim (Bool-cases (contains m e)) [
  | inl old ↦ rw old (add_each_counts es m c d)
  | inr new ↦ let (d', n) = add_each_counts es (e ∷ m) (c + 1) (new, d) in rw new (d', omega arith)
]

-- After `Add` a member is one of before or one of the elements given.
pub has-add :
    (es : List String) (s : Set) (x : String) → has (add es s).0 x ≡ (has s x || contains es x)
unfolding add has
has-add es s x = contains-add_each es s.members 0 x

-- `Add` keeps the keys distinct and the length right, and returns by how much the set has grown.
pub add-IsValid :
    (es : List String) (s : Set)
    → IsValid s
    → IsValid (add es s).0 × ((add es s).0.length ≡ s.length + (add es s).1)
unfolding add
add-IsValid es s v =
    let (d, n) = add_each_counts es s.members 0 v.distinct in
    (record { distinct = d; counted = omega (arith, v.counted) }, refl)

pub has-new_set : (es : List String) (x : String) → has (new_set es) x ≡ contains es x
unfolding new_set has add contains
has-new_set es x = contains-add_each es [] 0 x

pub new_set-IsValid : (es : List String) → IsValid (new_set es)
unfolding new_set
new_set-IsValid es =
    (add-IsValid es (record { members = []; length = 0 })
      (record { distinct = tt; counted = refl })).0

contains-remove_each :
    (es m : List String) (c : ℕ) (x : String)
    → contains (remove_each es m c).0 x ≡ (contains m x && not (contains es x))
unfolding remove_each contains
contains-remove_each [] m c x = ground arith
contains-remove_each (e ∷ es) m c x = elim (Bool-cases (contains m e)) [
  | inl old ↦
      rw old (ground (arith, contains-remove_each es (erase e m) (c + 1) x, contains-erase e m x))
  | inr new ↦ rw new (ground (arith, contains-remove_each es m c x, eq_iff e x))
]

remove_each_counts :
    (es m : List String) (c : ℕ)
    → IsDistinct m
    → IsDistinct (remove_each es m c).0
      × (Base.length (remove_each es m c).0 + (remove_each es m c).1 ≡ Base.length m + c)
unfolding remove_each
remove_each_counts [] m c d = (d, refl)
remove_each_counts (e ∷ es) m c d = elim (Bool-cases (contains m e)) [
  | inl old ↦
      let (d', n) = remove_each_counts es (erase e m) (c + 1) (IsDistinct-erase e m d) in
      rw old (d', omega (arith, length-erase e m d old))
  | inr new ↦ rw new (remove_each_counts es m c d)
]

-- After `Remove` a member is one of before that is not among the elements given.
pub has-remove :
    (es : List String) (s : Set) (x : String)
    → has (remove es s).0 x ≡ (has s x && not (contains es x))
unfolding remove has
has-remove es s x = contains-remove_each es s.members 0 x

-- `Remove` keeps the keys distinct and the length right; its count is how much the set has shrunk,
-- and the subtraction never goes below zero.
pub remove-IsValid :
    (es : List String) (s : Set)
    → IsValid s
    → IsValid (remove es s).0 × ((remove es s).0.length + (remove es s).1 ≡ s.length)
unfolding remove
remove-IsValid es s v =
    let (d, n) = remove_each_counts es s.members 0 v.distinct in
    (record { distinct = d; counted = omega (arith, v.counted) }, omega (arith, v.counted))

contains-held :
    (diff : Set) (ks : List String) (x : String)
    → contains (held diff ks) x ≡ (contains ks x && has diff x)
unfolding held contains
contains-held diff [] x = refl
contains-held diff (k ∷ ks) x = elim (Bool-cases (has diff k)) [
  | inl in_diff ↦
      rw in_diff
        (ground (arith, contains-held diff ks x, contains-cons k (held diff ks) x, eq_iff k x))
  | inr out ↦ rw out (ground (arith, contains-held diff ks x, eq_iff k x))
]

contains-collect :
    (diff : Set) (others : List Set) (x : String)
    → contains (collect diff others) x ≡ (any (λ o. has o x) others && has diff x)
unfolding collect any contains has
contains-collect diff [] x = refl
contains-collect diff (o ∷ others) x =
    rw contains-append
      (ground (arith, contains-held diff o.members x, contains-collect diff others x))

-- `Subtract` holds exactly the members of the set that none of the others has.
pub has-subtract :
    (s : Set) (others : List Set) (x : String)
    → has (subtract s others) x ≡ (has s x && not (any (λ o. has o x) others))
unfolding subtract has
has-subtract s others x =
    let diff = new_set s.members in
    ground (
      arith,
      has-remove (collect diff others) diff x,
      contains-collect diff others x,
      has-new_set s.members x,
    )

pub subtract-IsValid : (s : Set) (others : List Set) → IsValid (subtract s others)
unfolding subtract
subtract-IsValid s others =
    (remove-IsValid (collect (new_set s.members) others) (new_set s.members)
      (new_set-IsValid s.members)).0
