-- ===== src/SortedSets/Unions.antt =====
-- internal/modules/sorted_set/sorted_set.go: `Union` and `Intersect` end, and give every member the
-- scores of all sets, joined in their order.
use echo_vault.Base.{
  subst, ℕ, zero, suc, ◌/◌, ◌≤◌, ◌<◌, ◌≡◌, refl, sym, String, Option, some, List, [], ◌∷◌, arith,
  string_eq, equal_fold, All, All-take, All-drop, length, take, drop, lookup, lookup-nil,
  length-take, length-drop,
}
use echo_vault.SortedSets.{SortedSet, new_sorted_set}
use echo_vault.SortedSets.Arithmetic.{Scores, aggregated, compare_scores}
use echo_vault.SortedSets.Aggregates.{
  SortedSetParam, scaled, joined, shared, union_scores, intersect_scores,
}
use echo_vault.SortedSets.Joins.{
  IsMap, weighted, lookup-joined, lookup-shared, lookup-one, lookup-scaled, scaled-IsMap,
  joined-IsMap, shared-IsMap, new_sorted_set-IsMap,
}
use echo_vault.SortedSets.Folds.{
  IsUnion, IsIntersection, IsUnion-one, IsIntersection-one, IsUnion-either, IsIntersection-both,
  weighted_scores, weighted_scores_split, Aggregate, sum, least, greatest, aggregate_word,
  join_scores,
}

-- What a call gives.
record Gives (call : Option SortedSet) (fits : String → Option ℕ → Type 0) : Type 0 where
  set : SortedSet
  ends : call ≡ some set
  valid : IsMap set
  scores : (v : String) → fits v (lookup v set)

abbrev pub AreMaps : List SortedSetParam → Type 0
AreMaps ps = All (λ p. IsMap p.set) ps

subst2 :
    (P : (ℕ → ℕ → ℕ) → List (Option ℕ) → Option ℕ → Type 0) (f : ℕ → ℕ → ℕ)
    {xs ys : List (Option ℕ)} {a b : Option ℕ}
    → xs ≡ ys
    → a ≡ b
    → P f xs a
    → P f ys b
subst2 P f {xs} {ys} {a} {b} e d h = subst (λ l. P f l b) e (subst (λ o. P f xs o) d h)

union_scores-Gives :
    (ops : Scores) (aggregate : String) (fuel : ℕ) (ps : List SortedSetParam)
    → AreMaps ps
    → length ps ≤ fuel
    → 0 < fuel
    → Gives
        (union_scores ops fuel aggregate ps)
        (λ v. IsUnion (aggregated ops aggregate) (weighted_scores ops v ps))
unfolding union_scores weighted_scores IsMap
union_scores-Gives ops aggregate zero ps maps enough more = absurd (omega arith)
union_scores-Gives ops aggregate (suc fuel) [] maps enough more = record {
  set = [];
  ends = refl;
  valid = tt;
  scores = λ v. rw (lookup-nil {V = ℕ} v) (unfold IsUnion in refl);
}
union_scores-Gives ops aggregate (suc fuel) (p ∷ []) maps enough more = record {
  set = new_sorted_set (scaled ops p.weight p.set) [];
  ends = refl;
  valid = new_sorted_set-IsMap (scaled ops p.weight p.set) [] tt;
  scores = λ v. rw (lookup-one ops v p.weight p.set maps.0) (IsUnion-one _ (weighted ops v p));
}
union_scores-Gives ops aggregate (suc fuel) (p ∷ q ∷ []) maps enough more = record {
  set = joined ops aggregate (scaled ops p.weight p.set) (scaled ops q.weight q.set);
  ends = refl;
  valid = joined-IsMap ops aggregate (scaled ops p.weight p.set) (scaled ops q.weight q.set);
  scores = λ v.
      rw
        (
          lookup-joined ops aggregate (scaled ops p.weight p.set) (scaled ops q.weight q.set) v
              (scaled-IsMap ops p.weight p.set maps.0) (scaled-IsMap ops q.weight q.set maps.1.0),
          lookup-scaled ops v p.weight p.set,
          lookup-scaled ops v q.weight q.set,
        )
        (IsUnion-either _ (weighted ops v p ∷ []) (weighted ops v q ∷ []) (weighted ops v p)
          (weighted ops v q) (IsUnion-one _ (weighted ops v p)) (IsUnion-one _ (weighted ops v q)));
}
union_scores-Gives ops aggregate (suc fuel) (p ∷ q ∷ r ∷ ps) maps enough more =
    let sets = p ∷ q ∷ r ∷ ps in
    let n = length sets / 2 in
    let f = aggregated ops aggregate in
    let left =
      union_scores-Gives ops aggregate fuel (take n sets) (All-take _ n sets maps)
        (ground (arith, length-take n sets)) (omega arith) in
    let right =
      union_scores-Gives ops aggregate fuel (drop n sets) (All-drop _ n sets maps)
        (ground (arith, length-drop n sets)) (omega arith) in
    record {
      set = joined ops aggregate left.set right.set;
      ends = rw (left.ends, right.ends);
      valid = joined-IsMap ops aggregate left.set right.set;
      scores = λ v.
          subst2 IsUnion f (sym (weighted_scores_split ops v n sets))
            (sym (lookup-joined ops aggregate left.set right.set v left.valid right.valid))
            (IsUnion-either f (weighted_scores ops v (take n sets))
              (weighted_scores ops v (drop n sets)) (lookup v left.set) (lookup v right.set)
              (left.scores v) (right.scores v));
    }

intersect_scores-Gives :
    (ops : Scores) (aggregate : String) (fuel : ℕ) (ps : List SortedSetParam)
    → AreMaps ps
    → length ps ≤ fuel
    → 0 < fuel
    → 0 < length ps
    → Gives
        (intersect_scores ops fuel aggregate ps)
        (λ v. IsIntersection (aggregated ops aggregate) (weighted_scores ops v ps))
unfolding intersect_scores weighted_scores IsMap
intersect_scores-Gives ops aggregate zero ps maps enough more some_sets = absurd (omega arith)
intersect_scores-Gives ops aggregate (suc fuel) [] maps enough more some_sets = absurd (omega arith)
intersect_scores-Gives ops aggregate (suc fuel) (p ∷ []) maps enough more some_sets = record {
  set = new_sorted_set (scaled ops p.weight p.set) [];
  ends = refl;
  valid = new_sorted_set-IsMap (scaled ops p.weight p.set) [] tt;
  scores =
      λ v. rw (lookup-one ops v p.weight p.set maps.0) (IsIntersection-one _ (weighted ops v p));
}
intersect_scores-Gives ops aggregate (suc fuel) (p ∷ q ∷ []) maps enough more some_sets = record {
  set = shared ops aggregate (scaled ops p.weight p.set) (scaled ops q.weight q.set);
  ends = refl;
  valid = shared-IsMap ops aggregate (scaled ops p.weight p.set) (scaled ops q.weight q.set);
  scores = λ v.
      rw
        (
          lookup-shared ops aggregate (scaled ops p.weight p.set) (scaled ops q.weight q.set) v
              (scaled-IsMap ops p.weight p.set maps.0),
          lookup-scaled ops v p.weight p.set,
          lookup-scaled ops v q.weight q.set,
        )
        (IsIntersection-both _ (weighted ops v p ∷ []) (weighted ops v q ∷ []) (weighted ops v p)
          (weighted ops v q) (IsIntersection-one _ (weighted ops v p))
          (IsIntersection-one _ (weighted ops v q)));
}
intersect_scores-Gives ops aggregate (suc fuel) (p ∷ q ∷ r ∷ ps) maps enough more some_sets =
    let sets = p ∷ q ∷ r ∷ ps in
    let n = length sets / 2 in
    let f = aggregated ops aggregate in
    let left =
      intersect_scores-Gives ops aggregate fuel (take n sets) (All-take _ n sets maps)
        (ground (arith, length-take n sets)) (omega arith) (ground (arith, length-take n sets)) in
    let right =
      intersect_scores-Gives ops aggregate fuel (drop n sets) (All-drop _ n sets maps)
        (ground (arith, length-drop n sets)) (omega arith) (ground (arith, length-drop n sets)) in
    record {
      set = shared ops aggregate left.set right.set;
      ends = rw (left.ends, right.ends);
      valid = shared-IsMap ops aggregate left.set right.set;
      scores = λ v.
          subst2 IsIntersection f (sym (weighted_scores_split ops v n sets))
            (sym (lookup-shared ops aggregate left.set right.set v left.valid))
            (IsIntersection-both f (weighted_scores ops v (take n sets))
              (weighted_scores ops v (drop n sets)) (lookup v left.set) (lookup v right.set)
              (left.scores v) (right.scores v));
    }

-- The code's aggregate of a word joins as that aggregate does.
aggregated-word :
    (ops : Scores) (g : Aggregate) → aggregated ops (aggregate_word g) ≡ join_scores ops g
unfolding aggregated compare_scores equal_fold
aggregated-word ops sum = refl
aggregated-word ops least = refl
aggregated-word ops greatest = refl

-- `Union` of any number of sorted sets under any aggregate, with as much fuel as there are sets, and at least 1: a call
-- ends. A member that no set has has no score in the result, and any other member has the weighted scores of all sets that have it,
-- joined in their order, with some brackets: by addition for SUM, and for MIN and MAX by the smaller and the greater of two
-- scores, the earlier one where neither is less.
pub union_scores-IsUnion :
    (ops : Scores) (g : Aggregate) (fuel : ℕ) (ps : List SortedSetParam)
    → AreMaps ps
    → length ps ≤ fuel
    → 0 < fuel
    → (r : SortedSet) × (union_scores ops fuel (aggregate_word g) ps ≡ some r)
      × ((v : String) → IsUnion (join_scores ops g) (weighted_scores ops v ps) (lookup v r))
union_scores-IsUnion ops g fuel ps maps enough more =
    let u = union_scores-Gives ops (aggregate_word g) fuel ps maps enough more in
    (
      u.set,
      u.ends,
      λ v.
          subst (λ f. IsUnion f (weighted_scores ops v ps) (lookup v u.set)) (aggregated-word ops g)
            (u.scores v),
    )

-- `Intersect` of one or more sorted sets under any aggregate, with as much fuel as there are sets: a call ends. A member
-- that some set lacks has no score in the result, and any other member has its weighted scores in all sets, joined in their order,
-- with some brackets, as in a union.
pub intersect_scores-IsIntersection :
    (ops : Scores) (g : Aggregate) (fuel : ℕ) (ps : List SortedSetParam)
    → AreMaps ps
    → length ps ≤ fuel
    → 0 < length ps
    → (r : SortedSet) × (intersect_scores ops fuel (aggregate_word g) ps ≡ some r)
      × ((v : String) → IsIntersection (join_scores ops g) (weighted_scores ops v ps) (lookup v r))
intersect_scores-IsIntersection ops g fuel ps maps enough some_sets =
    let u =
      intersect_scores-Gives ops (aggregate_word g) fuel ps maps enough (omega arith) some_sets in
    (
      u.set,
      u.ends,
      λ v.
          subst (λ f. IsIntersection f (weighted_scores ops v ps) (lookup v u.set))
            (aggregated-word ops g) (u.scores v),
    )
