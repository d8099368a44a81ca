-- ===== src/SortedSets/Folds.antt =====
-- internal/modules/sorted_set/sorted_set.go: the scores of a member in all sets, joined in their order.
use echo_vault.Base.{
  ℕ, ◌≡◌, refl, sym, ap, ◌∙◌, String, Bool, true, false, ◌&&◌, Option, none, some, List, [], ◌∷◌,
  ◌++◌, arith, if◌then◌else◌, append-nil, take, drop, take-append-drop,
}
use echo_vault.SortedSets.Arithmetic.{Scores}
use echo_vault.SortedSets.Aggregates.{SortedSetParam}
use echo_vault.SortedSets.Joins.{either, both, weighted}

-- A number joins the numbers of a list, in their order and with some brackets.
pub data Bracketed (f : ℕ → ℕ → ℕ) : List ℕ → ℕ → Type 0 where
  leaf : (x : ℕ) → Bracketed f (x ∷ []) x
  node :
      (xs ys : List ℕ) (x y : ℕ)
      → Bracketed f xs x
      → Bracketed f ys y
      → Bracketed f (xs ++ ys) (f x y)

-- the scores that are there
abbrev pub present : List (Option ℕ) → List ℕ
present [] = []
present (none ∷ scores) = present scores
present (some x ∷ scores) = x ∷ present scores

abbrev pub all_there : List (Option ℕ) → Bool
all_there [] = true
all_there (none ∷ scores) = false
all_there (some x ∷ scores) = all_there scores

-- A union: no score where no set has one, or else all of them joined.
unfoldable pub IsUnion : (ℕ → ℕ → ℕ) → List (Option ℕ) → Option ℕ → Type 0
IsUnion f scores none = present scores ≡ []
IsUnion f scores (some x) = Bracketed f (present scores) x

-- An intersection: all scores joined where every set has one, or else no score.
unfoldable pub IsIntersection : (ℕ → ℕ → ℕ) → List (Option ℕ) → Option ℕ → Type 0
IsIntersection f scores none = all_there scores ≡ false
IsIntersection f scores (some x) = (all_there scores ≡ true) × Bracketed f (present scores) x

present-append : (xs ys : List (Option ℕ)) → present (xs ++ ys) ≡ present xs ++ present ys
present-append [] ys = refl
present-append (none ∷ xs) ys = present-append xs ys
present-append (some x ∷ xs) ys = ap (λ l. x ∷ l) (present-append xs ys)

all_there-append : (xs ys : List (Option ℕ)) → all_there (xs ++ ys) ≡ (all_there xs && all_there ys)
all_there-append [] ys = ground arith
all_there-append (none ∷ xs) ys = refl
all_there-append (some x ∷ xs) ys = all_there-append xs ys

pub IsUnion-one : (f : ℕ → ℕ → ℕ) (a : Option ℕ) → IsUnion f (a ∷ []) a
unfolding IsUnion
IsUnion-one f none = refl
IsUnion-one f (some x) = leaf x

pub IsIntersection-one : (f : ℕ → ℕ → ℕ) (a : Option ℕ) → IsIntersection f (a ∷ []) a
unfolding IsIntersection
IsIntersection-one f none = refl
IsIntersection-one f (some x) = (refl, leaf x)

pub IsUnion-either :
    (f : ℕ → ℕ → ℕ) (xs ys : List (Option ℕ)) (a b : Option ℕ)
    → IsUnion f xs a
    → IsUnion f ys b
    → IsUnion f (xs ++ ys) (either f a b)
unfolding IsUnion
IsUnion-either f xs ys none none h k = rw (present-append xs ys, h, k)
IsUnion-either f xs ys none (some y) h k = rw (present-append xs ys, h) k
IsUnion-either f xs ys (some x) none h k = rw (present-append xs ys, k, append-nil (present xs)) h
IsUnion-either f xs ys (some x) (some y) h k =
    rw (present-append xs ys) (node (present xs) (present ys) x y h k)

pub IsIntersection-both :
    (f : ℕ → ℕ → ℕ) (xs ys : List (Option ℕ)) (a b : Option ℕ)
    → IsIntersection f xs a
    → IsIntersection f ys b
    → IsIntersection f (xs ++ ys) (both f a b)
unfolding IsIntersection
IsIntersection-both f xs ys none b h k = ground (arith, all_there-append xs ys)
IsIntersection-both f xs ys (some x) none h k = ground (arith, all_there-append xs ys, h.0)
IsIntersection-both f xs ys (some x) (some y) h k = (
  ground (arith, all_there-append xs ys, h.0, k.0),
  rw (present-append xs ys) (node (present xs) (present ys) x y h.1 k.1),
)

-- the weighted scores of a member in all sets
unfoldable pub weighted_scores : Scores → String → List SortedSetParam → List (Option ℕ)
weighted_scores ops v [] = []
weighted_scores ops v (p ∷ ps) = weighted ops v p ∷ weighted_scores ops v ps

weighted_scores-append :
    (ops : Scores) (v : String) (ps qs : List SortedSetParam)
    → weighted_scores ops v (ps ++ qs) ≡ weighted_scores ops v ps ++ weighted_scores ops v qs
unfolding weighted_scores
weighted_scores-append ops v [] qs = refl
weighted_scores-append ops v (p ∷ ps) qs =
    ap (λ l. weighted ops v p ∷ l) (weighted_scores-append ops v ps qs)

pub weighted_scores_split :
    (ops : Scores) (v : String) (n : ℕ) (ps : List SortedSetParam)
    → weighted_scores ops v ps
      ≡ weighted_scores ops v (take n ps) ++ weighted_scores ops v (drop n ps)
weighted_scores_split ops v n ps =
    ap (weighted_scores ops v) (sym (take-append-drop n ps))
    ∙ weighted_scores-append ops v (take n ps) (drop n ps)

-- The aggregates, with their words.
pub data Aggregate : Type 0 where
  sum : Aggregate
  least : Aggregate
  greatest : Aggregate

abbrev pub aggregate_word : Aggregate → String
aggregate_word sum = "sum"
aggregate_word least = "min"
aggregate_word greatest = "max"

-- how an aggregate joins two scores
abbrev pub join_scores : Scores → Aggregate → ℕ → ℕ → ℕ
join_scores ops sum a b = ops.add a b
join_scores ops least a b = if ops.less b a then b else a
join_scores ops greatest a b = if ops.less a b then b else a
