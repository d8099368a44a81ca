-- ===== src/SortedSets/Joins.antt =====
-- internal/modules/sorted_set/sorted_set.go: the members and scores of unions and intersections.
use echo_vault.Base.{
  ℕ, ◌≡◌, refl, String, true, false, Option, none, some, List, [], ◌∷◌, ◌++◌, arith, inl, inr,
  Bool-cases, if◌then◌else◌, ◌==◌, nat_eq, string_eq, eq_iff, ℤ, lookup, insert, lookup-insert,
  lookup-nil,
}
use echo_vault.SortedSets.{SortedSet, new_sorted_set, has_member}
use echo_vault.SortedSets.Arithmetic.{Scores, aggregated}
use echo_vault.SortedSets.Aggregates.{
  SortedSetParam, scaled, left_members, right_members, shared_members, joined, shared,
}

-- the last score that a list gives a member
unfoldable pub last_score : String → List (String × ℕ) → Option ℕ
last_score v [] = none
last_score v ((w, x) ∷ members) = elim (last_score v members) [
  | none ↦ if w == v then some x else none
  | some y ↦ some y
]

lookup-new_sorted_set :
    (v : String) (members : List (String × ℕ)) (s : SortedSet)
    → lookup v (new_sorted_set members s)
      ≡ elim (last_score v members) [ none ↦ lookup v s | some x ↦ some x ]
unfolding new_sorted_set last_score
lookup-new_sorted_set v [] s = refl
lookup-new_sorted_set v ((w, x) ∷ members) s =
    ground
      (arith, lookup-new_sorted_set v members (insert w x s), lookup-insert w x s v, eq_iff w v)

-- A map: no member is twice in the list.
unfoldable pub IsMap : SortedSet → Type 0
IsMap [] = Unit
IsMap ((v, x) ∷ s) = (lookup v s ≡ none) × IsMap s

last_score-lookup : (v : String) (s : SortedSet) → IsMap s → last_score v s ≡ lookup v s
unfolding last_score lookup IsMap
last_score-lookup v [] h = refl
last_score-lookup v ((w, x) ∷ s) h = ground (arith, last_score-lookup v s h.1, h.0, eq_iff w v)

insert-IsMap : (v : String) (x : ℕ) (s : SortedSet) → IsMap s → IsMap (insert v x s)
unfolding insert IsMap
insert-IsMap v x [] h = (unfold lookup in refl, tt)
insert-IsMap v x ((w, y) ∷ s) h = elim (Bool-cases (w == v)) [
  | inl same ↦ let e : w ≡ v = ground (arith, eq_iff w v) in rw same (rw e at h)
  | inr other ↦
      rw other
        (ground (arith, lookup-insert v x s w, h.0, eq_iff v w, eq_iff w v), insert-IsMap v x s h.1)
]

pub new_sorted_set-IsMap :
    (members : List (String × ℕ)) (s : SortedSet) → IsMap s → IsMap (new_sorted_set members s)
unfolding new_sorted_set
new_sorted_set-IsMap [] s h = h
new_sorted_set-IsMap ((v, x) ∷ members) s h =
    new_sorted_set-IsMap members (insert v x s) (insert-IsMap v x s h)

-- The score of a member in two sets: what the union and the intersection make of it.
abbrev pub either : (ℕ → ℕ → ℕ) → Option ℕ → Option ℕ → Option ℕ
either f none b = b
either f (some x) none = some x
either f (some x) (some y) = some (f x y)

abbrev pub both : (ℕ → ℕ → ℕ) → Option ℕ → Option ℕ → Option ℕ
both f none b = none
both f (some x) none = none
both f (some x) (some y) = some (f x y)

module _ (ops : Scores) (aggregate : String) where
  last_score-left :
      (v : String) (right : SortedSet) (members : List (String × ℕ))
      → last_score v (left_members ops aggregate right members) ≡ elim (last_score v members) [
        | none ↦ none
        | some x ↦ elim (lookup v right) [
          | none ↦ some x
          | some y ↦ some (aggregated ops aggregate x y)
        ]
      ]
  unfolding left_members last_score
  last_score-left v right [] = refl
  last_score-left v right ((w, x) ∷ members) =
      ground (arith, last_score-left v right members, eq_iff w v)

  last_score-shared :
      (v : String) (right : SortedSet) (members : List (String × ℕ))
      → last_score v (shared_members ops aggregate right members) ≡ elim (last_score v members) [
        | none ↦ none
        | some x ↦ elim (lookup v right) [
          | none ↦ none
          | some y ↦ some (aggregated ops aggregate x y)
        ]
      ]
  unfolding shared_members last_score
  last_score-shared v right [] = refl
  last_score-shared v right ((w, x) ∷ members) =
      ground (arith, last_score-shared v right members, eq_iff w v)

  last_score-append :
      (v w : String) (x : ℕ) (params : List (String × ℕ))
      → last_score v (params ++ (w, x) ∷ []) ≡ (if w == v then some x else last_score v params)
  unfolding last_score
  last_score-append v w x [] = ground arith
  last_score-append v w x ((u, y) ∷ params) = ground (arith, last_score-append v w x params)

  has_member-last_score :
      (v : String) (params : List (String × ℕ))
      → has_member params v ≡ elim (last_score v params) [ none ↦ false | some x ↦ true ]
  unfolding last_score lookup
  has_member-last_score v [] = refl
  has_member-last_score v ((w, x) ∷ params) = ground (arith, has_member-last_score v params)

  last_score-right :
      (v : String) (members params : List (String × ℕ))
      → IsMap members
      → last_score v (right_members params members)
        ≡ elim (last_score v params) [ none ↦ lookup v members | some x ↦ some x ]
  unfolding right_members lookup IsMap
  last_score-right v [] params h = ground arith
  last_score-right v ((w, x) ∷ members) params h = elim (Bool-cases (has_member params w)) [
    | inl there ↦ rw there (
        ground (
          arith,
          last_score-right v members params h.1,
          has_member-last_score v params,
          eq_iff w v,
        ))
    | inr new ↦ rw new (
        ground (
          arith,
          last_score-right v members (params ++ (w, x) ∷ []) h.1,
          last_score-append v w x params,
          has_member-last_score v params,
          h.0,
          eq_iff w v,
        ))
  ]

  pub lookup-joined :
      (left right : SortedSet) (v : String)
      → IsMap left
      → IsMap right
      → lookup v (joined ops aggregate left right)
        ≡ either (aggregated ops aggregate) (lookup v left) (lookup v right)
  unfolding joined
  lookup-joined left right v l r = ground (
    arith,
    lookup-new_sorted_set v (right_members (left_members ops aggregate right left) right) [],
    lookup-nil {V = ℕ} v,
    last_score-right v right (left_members ops aggregate right left) r,
    last_score-left v right left,
    last_score-lookup v left l,
  )

  pub lookup-shared :
      (left right : SortedSet) (v : String)
      → IsMap left
      → lookup v (shared ops aggregate left right)
        ≡ both (aggregated ops aggregate) (lookup v left) (lookup v right)
  unfolding shared
  lookup-shared left right v l = ground (
    arith,
    lookup-new_sorted_set v (shared_members ops aggregate right left) [],
    lookup-nil {V = ℕ} v,
    last_score-shared v right left,
    last_score-lookup v left l,
  )

  pub joined-IsMap : (left right : SortedSet) → IsMap (joined ops aggregate left right)
  unfolding joined IsMap
  joined-IsMap left right =
      new_sorted_set-IsMap (right_members (left_members ops aggregate right left) right) [] tt

  pub shared-IsMap : (left right : SortedSet) → IsMap (shared ops aggregate left right)
  unfolding shared IsMap
  shared-IsMap left right = new_sorted_set-IsMap (shared_members ops aggregate right left) [] tt

-- the weighted score of a member
abbrev pub weighted : Scores → String → SortedSetParam → Option ℕ
weighted ops v p = elim (lookup v p.set) [ none ↦ none | some x ↦ some (ops.times x p.weight) ]

module _ (ops : Scores) where
  pub lookup-scaled :
      (v : String) (weight : ℤ) (s : SortedSet)
      → lookup v (scaled ops weight s)
        ≡ elim (lookup v s) [ none ↦ none | some x ↦ some (ops.times x weight) ]
  unfolding scaled lookup
  lookup-scaled v weight [] = refl
  lookup-scaled v weight ((w, x) ∷ s) = ground (arith, lookup-scaled v weight s)

  pub scaled-IsMap : (weight : ℤ) (s : SortedSet) → IsMap s → IsMap (scaled ops weight s)
  unfolding scaled IsMap
  scaled-IsMap weight [] h = tt
  scaled-IsMap weight ((w, x) ∷ s) h =
      (ground (arith, lookup-scaled w weight s, h.0), scaled-IsMap weight s h.1)

  pub lookup-one :
      (v : String) (weight : ℤ) (s : SortedSet)
      → IsMap s
      → lookup v (new_sorted_set (scaled ops weight s) [])
        ≡ elim (lookup v s) [ none ↦ none | some x ↦ some (ops.times x weight) ]
  lookup-one v weight s h = ground (
    arith,
    lookup-new_sorted_set v (scaled ops weight s) [],
    lookup-nil {V = ℕ} v,
    last_score-lookup v (scaled ops weight s) (scaled-IsMap weight s h),
    lookup-scaled v weight s,
  )
