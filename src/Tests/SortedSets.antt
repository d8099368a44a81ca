-- ===== src/Tests/SortedSets.antt =====
-- internal/modules/sorted_set/sorted_set.go on small sets, with natural numbers as scores.
use echo_vault.Base.{
  abs, ◌*◌, not, ◌&&◌, true, ◌==◌, nat_eq, ℕ, ◌+◌, ◌≡◌, refl, String, false, some, none, List, [],
  ◌∷◌, arith, ltb, nat_beq, string_eq, pos, lookup, equal_fold, length,
}
use echo_vault.Keyspace.State.{ok}
use echo_vault.SortedSets.{SortedSet, add_or_update, pop_scores}
use echo_vault.SortedSets.Arithmetic.{Scores}
use echo_vault.SortedSets.Aggregates.{SortedSetParam, union_scores, intersect_scores}
use echo_vault.SortedSets.Joins.{IsMap, last_score}
use echo_vault.SortedSets.Unions.{AreMaps, union_scores-IsUnion, intersect_scores-IsIntersection}
use echo_vault.SortedSets.Order.{IsOrder}
use echo_vault.SortedSets.Folds.{
  IsUnion, IsIntersection, weighted_scores, present, sum, least, join_scores,
}
use echo_vault.SortedSets.Extremes.{IsLess, IsExtreme, order_by, union_scores-IsExtreme}
use echo_vault.SortedSets.Popped.{Splits, most, order_of, pop_scores-Splits}
use echo_vault.SortedSets.Updates.{only_new, policy_option, new_score, add_or_update-new_score}

abbrev numbers : Scores
numbers = record {
  zero = 0;
  add = λ a b. a + b;
  times = λ x w. x;
  less = ltb;
  same = nat_beq;
  before = ltb;
  infinite = λ x. false;
}

abbrev left_set : SortedSet
left_set = ("a", 1) ∷ ("b", 5) ∷ ("c", 3) ∷ []

abbrev params : List SortedSetParam
params =
    record { set = left_set; weight = pos 1 }
    ∷ record { set = ("b", 7) ∷ []; weight = pos 1 }
    ∷ record { set = ("b", 1) ∷ ("d", 2) ∷ []; weight = pos 1 }
    ∷ []

left_set-IsMap : IsMap left_set
unfolding IsMap lookup
left_set-IsMap = (refl, (refl, (refl, tt)))

params-AreMaps : AreMaps params
unfolding IsMap lookup
params-AreMaps = ((refl, (refl, (refl, tt))), ((refl, tt), ((refl, (refl, tt)), tt)))

numbers-IsOrder : IsOrder numbers.before
numbers-IsOrder = record { asym = λ a b e. ground arith; through = λ a b c e f. ground arith }

union_scores-IsUnion_example :
    (r : SortedSet) × (union_scores numbers 3 "sum" params ≡ some r)
    × ((v : String)
        → IsUnion (join_scores numbers sum) (weighted_scores numbers v params) (lookup v r))
union_scores-IsUnion_example =
    union_scores-IsUnion numbers sum 3 params params-AreMaps (omega arith) (omega arith)

intersect_scores-IsIntersection_example :
    (r : SortedSet) × (intersect_scores numbers 3 "min" params ≡ some r)
    × ((v : String)
        → IsIntersection
            (join_scores numbers least)
            (weighted_scores numbers v params)
            (lookup v r))
intersect_scores-IsIntersection_example =
    intersect_scores-IsIntersection numbers least 3 params params-AreMaps (omega arith)
      (omega arith)

-- 100 stands for a score that is not a number, which is not less than any and none is less than it.
abbrev with_nan : Scores
with_nan = record numbers {
  times = λ x w. x * abs w;
  less = λ a b. ltb a b && not (b == 100) && not (a == 100);
}

with_nan-IsLess : IsLess (order_by with_nan true) (λ x. not (x == 100))
with_nan-IsLess = record { asym = λ a b e. ground arith; through = λ a b c real e f. ground arith }

union_scores-IsExtreme_example :
    (r : SortedSet) × (union_scores with_nan 3 "max" params ≡ some r)
    × ((x : ℕ)
        → lookup "b" r ≡ some x
        → IsExtreme (order_by with_nan true) (present (weighted_scores with_nan "b" params)) x)
unfolding weighted_scores lookup
union_scores-IsExtreme_example =
    union_scores-IsExtreme with_nan (λ x. not (x == 100)) true 3 params "b" with_nan-IsLess
      params-AreMaps (omega arith) (omega arith) refl

pop_scores-Splits_example :
    (popped : SortedSet) × (rest : SortedSet) × (pop_scores numbers (pos 2) "MAX" left_set
      ≡ (ok popped, rest))
    × Splits numbers left_set popped rest
    × (length popped ≡ most 2 (length left_set))
    × ((v y : String) (x z : ℕ)
        → lookup v popped ≡ some x
        → lookup y rest ≡ some z
        → order_of numbers "MAX" z x ≡ false)
unfolding equal_fold
pop_scores-Splits_example =
    pop_scores-Splits numbers "MAX" 2 left_set left_set-IsMap numbers-IsOrder refl

add_or_update-new_score_example :
    (n : ℕ) × (s' : SortedSet) × (add_or_update numbers
        (("a", 9) ∷ ("e", 4) ∷ [])
        (policy_option only_new "Nx")
        none
        none
        none
        left_set
      ≡ (ok n, s'))
    × ((u : String)
        → lookup u s'
          ≡ new_score only_new
              (lookup u left_set)
              (lookup u (("a", 9) ∷ ("e", 4) ∷ []))
              (last_score u (("a", 9) ∷ ("e", 4) ∷ [])))
unfolding equal_fold
add_or_update-new_score_example =
    add_or_update-new_score numbers only_new "Nx" (("a", 9) ∷ ("e", 4) ∷ []) left_set refl
