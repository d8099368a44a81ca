-- ===== src/SortedSets/Updates.antt =====
-- internal/modules/sorted_set/sorted_set.go: the scores after `AddOrUpdate`.
use echo_vault.Base.{
  ℕ, ◌+◌, ◌≡◌, refl, String, false, Option, none, some, List, [], ◌∷◌, arith, true, equal_fold_same,
  Bool, ◌∙◌, if◌then◌else◌, ◌==◌, string_eq, nat_eq, eq_iff, equal_fold, any, lookup, lookup-insert,
}
use echo_vault.Keyspace.State.{ok}
use echo_vault.SortedSets.{SortedSet, Options, add_or_update, update_each, update_one}
use echo_vault.SortedSets.Arithmetic.{Scores, compare_scores}
use echo_vault.SortedSets.Joins.{last_score}

-- The update policies: none, NX and XX.
pub data Policy : Type 0 where
  any_member : Policy
  only_new : Policy
  only_there : Policy

abbrev pub policy_option : Policy → String → Option String
policy_option any_member w = none
policy_option only_new w = some w
policy_option only_there w = some w

-- The word names the policy, in upper or lower case.
abbrev pub is_named : Policy → String → Bool
is_named any_member w = true
is_named only_new w = equal_fold w "nx"
is_named only_there w = equal_fold w "xx"

abbrev policy_word : Policy → String → String
policy_word any_member w = ""
policy_word only_new w = w
policy_word only_there w = w

abbrev options : Policy → String → Options
options p w = record { policy = policy_word p w; comp = ""; ch = ""; inc = "" }

new_or_there : (w : String) → equal_fold w "nx" ≡ true → equal_fold w "xx" ≡ false
new_or_there w h = equal_fold_same w "nx" "xx" h ∙ (unfold equal_fold in refl)

-- The score of a member under a policy, from the one of before, the first and the last that are given: NX keeps
-- what is there, XX changes only what is there.
abbrev pub new_score : Policy → Option ℕ → Option ℕ → Option ℕ → Option ℕ
new_score any_member before first last = elim last [ none ↦ before | some y ↦ some y ]
new_score only_new before first last = elim before [ none ↦ first | some x ↦ some x ]
new_score only_there before first last = elim before [
  | none ↦ none
  | some x ↦ elim last [ none ↦ some x | some y ↦ some y ]
]

module _ (ops : Scores) where
  lookup-update_one :
      (p : Policy) (w v : String) (x : ℕ) (s : SortedSet) (u : String)
      → is_named p w ≡ true
      → lookup u (update_one ops (options p w) v x s).0
        ≡ (if v == u then new_score p (lookup v s) (some x) (some x) else lookup u s)
  unfolding update_one compare_scores
  lookup-update_one any_member w v x s u named =
      unfold equal_fold in ground (arith, lookup-insert v x s u, eq_iff v u)
  lookup-update_one only_new w v x s u named =
      ground (arith, new_or_there w named, lookup-insert v x s u, eq_iff v u)
  lookup-update_one only_there w v x s u named =
      rw named (unfold equal_fold in ground (arith, lookup-insert v x s u, eq_iff v u))

  lookup-update_each :
      (p : Policy) (w : String) (members : List (String × ℕ)) (s : SortedSet) (count : ℕ)
      (u : String)
      → is_named p w ≡ true
      → lookup u (update_each ops (options p w) members s count).0
        ≡ new_score p (lookup u s) (lookup u members) (last_score u members)
  unfolding update_each last_score lookup
  lookup-update_each any_member w [] s count u named = refl
  lookup-update_each only_new w [] s count u named = ground arith
  lookup-update_each only_there w [] s count u named = ground arith
  lookup-update_each any_member w ((v, x) ∷ members) s count u named =
      let (s', n) = update_one ops (options any_member w) v x s in
      ground (
        arith,
        lookup-update_each any_member w members s' (count + n) u named,
        lookup-update_one any_member w v x s u named,
        eq_iff v u,
      )
  lookup-update_each only_new w ((v, x) ∷ members) s count u named =
      let (s', n) = update_one ops (options only_new w) v x s in
      ground (
        arith,
        lookup-update_each only_new w members s' (count + n) u named,
        lookup-update_one only_new w v x s u named,
        eq_iff v u,
      )
  lookup-update_each only_there w ((v, x) ∷ members) s count u named =
      let (s', n) = update_one ops (options only_there w) v x s in
      ground (
        arith,
        lookup-update_each only_there w members s' (count + n) u named,
        lookup-update_one only_there w v x s u named,
        eq_iff v u,
      )

  -- `AddOrUpdate` without a comparison, CH or INCR, under any update policy, whose word is written in upper or lower case: it
  -- reports no error, and afterwards a member has the last score that it is given, or else the one it had; with NX it has the
  -- score it had, or else the first one that it is given; with XX no member is new, and one that is there has the last score
  -- that it is given, or else the one it had.
  pub add_or_update-new_score :
      (p : Policy) (w : String) (members : List (String × ℕ)) (s : SortedSet)
      → is_named p w ≡ true
      → (n : ℕ) × (s' : SortedSet) × (add_or_update ops members (policy_option p w) none none none s
          ≡ (ok n, s'))
        × ((u : String)
            → lookup u s' ≡ new_score p (lookup u s) (lookup u members) (last_score u members))
  unfolding add_or_update any
  add_or_update-new_score any_member w members s named =
      let r = update_each ops (options any_member w) members s 0 in
      (
        r.1,
        r.0,
        unfold equal_fold in refl,
        λ u. lookup-update_each any_member w members s 0 u named,
      )
  add_or_update-new_score only_new w members s named =
      let r = update_each ops (options only_new w) members s 0 in
      (
        r.1,
        r.0,
        unfold equal_fold in ground (arith, named),
        λ u. lookup-update_each only_new w members s 0 u named,
      )
  add_or_update-new_score only_there w members s named =
      let r = update_each ops (options only_there w) members s 0 in
      (
        r.1,
        r.0,
        unfold equal_fold in ground (arith, named),
        λ u. lookup-update_each only_there w members s 0 u named,
      )

  -- A member that is new, given with the comparison GT and a score that is below 0: `AddOrUpdate` stores
  -- it with the score 0, because the score of a member that is missing reads as 0.
  pub add_or_update_below :
      (v : String) (x : ℕ) (s : SortedSet)
      → lookup v s ≡ none
      → ops.less ops.zero x ≡ false
      → lookup v (add_or_update ops ((v, x) ∷ []) none (some "gt") none none s).1 ≡ some ops.zero
  unfolding add_or_update update_each update_one compare_scores equal_fold any
  add_or_update_below v x s new below =
      ground (arith, lookup-insert v ops.zero s v, eq_iff v v, new, below)
