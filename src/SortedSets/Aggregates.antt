-- ===== src/SortedSets/Aggregates.antt =====
-- internal/modules/sorted_set/sorted_set.go: `Union` and `Intersect`, which make new sets.
use echo_vault.Base.{
  ℕ, zero, suc, ◌/◌, String, Option, none, some, List, [], ◌∷◌, ◌++◌, if◌then◌else◌, ℤ, length,
  take, drop, Assoc, lookup, string_eq,
}
use echo_vault.SortedSets.{SortedSet, new_sorted_set, has_member}
use echo_vault.SortedSets.Arithmetic.{Scores, aggregated}

-- `SortedSetParam`
pub record SortedSetParam : Type 0 where
  pub set : SortedSet
  pub weight : ℤ

-- the loop over the right set: what `params` does not have yet
unfoldable pub right_members : List (String × ℕ) → List (String × ℕ) → List (String × ℕ)
right_members params [] = params
right_members params ((v, x) ∷ members) =
    right_members (if has_member params v then params else params ++ (v, x) ∷ []) members

module _ (ops : Scores) where
  -- the members of a set with their scores times the weight
  unfoldable pub scaled : ℤ → SortedSet → List (String × ℕ)
  scaled weight [] = []
  scaled weight ((v, x) ∷ members) = (v, ops.times x weight) ∷ scaled weight members

  -- the loop over the left set: a member of both gets the two scores joined
  unfoldable pub left_members : String → Assoc String ℕ → List (String × ℕ) → List (String × ℕ)
  left_members aggregate right [] = []
  left_members aggregate right ((v, x) ∷ members) =
      let rest = left_members aggregate right members in
      elim (lookup v right) [
        | none ↦ (v, x) ∷ rest
        | some y ↦ (v, aggregated ops aggregate x y) ∷ rest
      ]

  -- the same loop of `Intersect`
  unfoldable pub shared_members : String → Assoc String ℕ → List (String × ℕ) → List (String × ℕ)
  shared_members aggregate right [] = []
  shared_members aggregate right ((v, x) ∷ members) =
      let rest = shared_members aggregate right members in
      elim (lookup v right) [ none ↦ rest | some y ↦ (v, aggregated ops aggregate x y) ∷ rest ]

  unfoldable pub joined : String → SortedSet → SortedSet → SortedSet
  unfolding left_members right_members new_sorted_set
  joined aggregate left right =
      new_sorted_set (right_members (left_members aggregate right left) right) []

  unfoldable pub shared : String → SortedSet → SortedSet → SortedSet
  unfolding shared_members new_sorted_set
  shared aggregate left right = new_sorted_set (shared_members aggregate right left) []

  -- `Union`, on fuel; `none` is fuel that ran out
  unfoldable pub union_scores : ℕ → String → List SortedSetParam → Option SortedSet
  unfolding scaled joined
  union_scores zero aggregate sets = none
  union_scores (suc fuel) aggregate [] = some []
  union_scores (suc fuel) aggregate (p ∷ []) = some (new_sorted_set (scaled p.weight p.set) [])
  union_scores (suc fuel) aggregate (p ∷ q ∷ []) =
      some (joined aggregate (scaled p.weight p.set) (scaled q.weight q.set))
  union_scores (suc fuel) aggregate sets =
      elim (union_scores fuel aggregate (take (length sets / 2) sets)) [
        | none ↦ none
        | some left ↦ elim (union_scores fuel aggregate (drop (length sets / 2) sets)) [
          | none ↦ none
          | some right ↦ some (joined aggregate left right)
        ]
      ]

  -- `Intersect`, on fuel
  unfoldable pub intersect_scores : ℕ → String → List SortedSetParam → Option SortedSet
  unfolding scaled shared
  intersect_scores zero aggregate sets = none
  intersect_scores (suc fuel) aggregate [] = some []
  intersect_scores (suc fuel) aggregate (p ∷ []) = some (new_sorted_set (scaled p.weight p.set) [])
  intersect_scores (suc fuel) aggregate (p ∷ q ∷ []) =
      some (shared aggregate (scaled p.weight p.set) (scaled q.weight q.set))
  intersect_scores (suc fuel) aggregate sets =
      elim (intersect_scores fuel aggregate (take (length sets / 2) sets)) [
        | none ↦ none
        | some left ↦ elim (intersect_scores fuel aggregate (drop (length sets / 2) sets)) [
          | none ↦ none
          | some right ↦ some (shared aggregate left right)
        ]
      ]
