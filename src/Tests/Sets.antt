-- ===== src/Tests/Sets.antt =====
-- internal/modules/set/set.go on small sets.
use echo_vault.Base.{
  not, ◌||◌, ℕ, ◌≤◌, ◌≡◌, refl, String, true, false, not, ◌&&◌, ◌||◌, some, List, [], ◌∷◌, arith,
  ◌==◌, if◌then◌else◌, nat_eq, string_eq, any, contains, erase, pos, get_elem?,
}
use echo_vault.Sets.{Set, has, add, add_each, cardinality, pop, remove_each}
use echo_vault.Sets.Laws.{IsValid}
use echo_vault.Sets.Pointers.{Memory, union, intersection, intersect_each}
use echo_vault.Sets.Pointers.Union.{any_has, union-any_has}
use echo_vault.Sets.Pointers.Intersection.{all_have, intersection-all_have, intersect_each_limit}

abbrev pub ab : Set
ab = record { members = "a" ∷ "b" ∷ []; length = 2 }

abbrev bc : Set
bc = record { members = "b" ∷ "c" ∷ []; length = 2 }

pub ab-IsValid : IsValid ab
unfolding contains any
ab-IsValid = record { distinct = (refl, (refl, tt)); counted = refl }

abbrev just_a : List String
just_a = "a" ∷ []

abbrev a_and_b : List String
a_and_b = "a" ∷ "b" ∷ []

-- two sets at the addresses 0 and 1
abbrev pub two_sets : Memory
two_sets = record { cell = λ p. if p == 0 then ab else bc; next = 2 }

add_run : add ("b" ∷ "c" ∷ "c" ∷ []) ab ≡ (record { members = "c" ∷ "a" ∷ "b" ∷ []; length = 3 }, 1)
unfolding add add_each contains any
add_run = refl

pop_run : pop (λ i. 1) (pos 1) ab ≡ some (record { members = "a" ∷ []; length = 1 }, "b" ∷ [])
unfolding pop contains any erase remove_each
pop_run = refl

union-any_has_example :
    (r : ℕ) × (m' : Memory) × (union 2 (0 ∷ 1 ∷ []) two_sets ≡ some (r, m'))
    × (get_elem? (0 ∷ 1 ∷ []) 0 ≡ some r)
    × ((x : String) → has (m'.cell r) x ≡ any_has two_sets (0 ∷ 1 ∷ []) x)
    × ((q : ℕ) (x : String) → (not (has (two_sets.cell q) x) || has (m'.cell q) x) ≡ true)
union-any_has_example = union-any_has 2 (0 ∷ 1 ∷ []) two_sets (omega arith) (omega arith)

intersection-all_have_example :
    (r : ℕ) × (m' : Memory) × (intersection 2 (pos 0) (0 ∷ 1 ∷ []) two_sets ≡ some (r, false, m'))
    × ((x : String) → has (m'.cell r) x ≡ all_have two_sets (0 ∷ 1 ∷ []) x)
    × (m'.cell 0 ≡ ab)
intersection-all_have_example =
    intersection-all_have (pos 0) 2 (0 ∷ 1 ∷ []) two_sets 0 refl (omega arith) (omega arith)
      (omega arith, (omega arith, tt)) (omega arith)

new_set_empty-IsValid : IsValid (record { members = []; length = 0 })
new_set_empty-IsValid = record { distinct = tt; counted = refl }

intersect_each_limit_example :
    let out = intersect_each (pos 1) a_and_b bc (record { members = []; length = 0 }) in
    let wanted =
      has (record { members = []; length = 0 }) "b" || contains a_and_b "b" && has bc "b" in
    IsValid out.0
    × (cardinality out.0 ≤ 1)
    × ((out.1 && not (cardinality out.0 == 1)) ≡ false)
    × ((has out.0 "b" && not wanted) ≡ false)
    × ((not out.1 && wanted && not (has out.0 "b")) ≡ false)
intersect_each_limit_example =
    intersect_each_limit 0 a_and_b bc (record { members = []; length = 0 }) "b"
      new_set_empty-IsValid (omega arith)
