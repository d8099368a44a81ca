-- ===== src/SortedSets.antt =====
-- internal/modules/sorted_set/sorted_set.go, and the checks of utils.go that it calls. The map of a
-- sorted set, whose objects all have `Exists` set, is the list of its members with their scores.
pub mod Arithmetic
pub mod Aggregates
pub mod Joins
pub mod Folds
pub mod Unions
pub mod Extremes
pub mod Order
pub mod Popped
pub mod Updates
use echo_vault.Base.{
  ℕ, zero, suc, ◌+◌, ◌/◌, ◌%◌, String, Bool, true, false, not, ◌&&◌, ◌||◌, Option, none, some, List,
  [], ◌∷◌, ◌++◌, map, if◌then◌else◌, ◌==◌, nat_eq, string_eq, length, take, drop, any, equal_fold,
  ℤ, pos, negsuc, Assoc, lookup, insert, without,
}
use echo_vault.Keyspace.State.{Result, ok, err, panic}
use Arithmetic.{Scores, aggregated, compare_scores}

-- `SortedSet`, with the scores as bit patterns of float64, and a list of `MemberParam`
abbrev pub SortedSet : Type 0
SortedSet = Assoc String ℕ

-- `NewSortedSet`
unfoldable pub new_sorted_set : List (String × ℕ) → SortedSet → SortedSet
new_sorted_set [] s = s
new_sorted_set ((v, score) ∷ members) s = new_sorted_set members (insert v score s)

abbrev is_some : Option ℕ → Bool
is_some none = false
is_some (some x) = true

-- `Contains`
abbrev pub has_member : SortedSet → String → Bool
has_member s v = is_some (lookup v s)

-- `Remove`
unfoldable pub remove_member : String → SortedSet → SortedSet × Bool
remove_member v s = if has_member s v then (without v s, true) else (s, false)

-- `validateUpdatePolicy`, `validateComparison`, `validateChanged` and `validateIncr`, on an option that is
-- nil or a text
abbrev pub validate : List String → String → Option String → Result String
validate words message none = ok ""
validate words message (some w) = if any (equal_fold w) words then ok w else err message

-- The options of `AddOrUpdate` as they are after the checks.
pub record Options : Type 0 where
  pub policy : String
  pub comp : String
  pub ch : String
  pub inc : String

abbrev pub bind {ℓ κ} : {A : Type ℓ} {B : Type κ} → Result A → (A → Result B) → Result B
bind (ok a) f = f a
bind (err e) f = err e
bind panic f = panic

-- the checks at the start of `AddOrUpdate`
abbrev pub checked :
    ℕ → Option String → Option String → Option String → Option String → Result Options
checked n policy comparison changed incr =
    bind (validate ("nx" ∷ "xx" ∷ []) "update policy must be a string of Value NX or XX" policy)
      (λ p.
        bind
          (validate ("lt" ∷ "gt" ∷ []) "comparison condition must be a string of Value LT or GT"
            comparison)
          (λ c.
            bind (validate ("ch" ∷ []) "changed condition should be a string of Value CH" changed)
              (λ h.
                bind (validate ("incr" ∷ []) "incr condition should be a string of Value INCR" incr)
                  (λ i.
                    if equal_fold p "nx" && not (c == "")
                    then err "cannot use GT or LT when update policy is NX"
                    else if equal_fold i "incr" && not (n == 1)
                    then err "INCR can only be used with one member/Score pair"
                    else ok (record { policy = p; comp = c; ch = h; inc = i })))))

module _ (ops : Scores) where
  -- `set.members[v].Score`, which is 0 for a member that is missing
  abbrev pub score_of : SortedSet → String → ℕ
  score_of s v = elim (lookup v s) [ none ↦ ops.zero | some x ↦ x ]

  -- one round of the last loop of `AddOrUpdate`: the set, and what the count grows by
  unfoldable pub update_one : Options → String → ℕ → SortedSet → SortedSet × ℕ
  update_one o v score s =
      if equal_fold o.policy "xx"
      then if has_member s v
        then (
          insert v (compare_scores ops (score_of s v) score o.comp) s,
          if equal_fold o.ch "ch" then 1 else 0,
        )
        else (s, 0)
      else if equal_fold o.policy "nx"
      then if has_member s v then (s, 0) else (insert v score s, 1)
      else (
        insert v (compare_scores ops (score_of s v) score o.comp) s,
        if not (ops.same (score_of s v) score) || not (has_member s v) then 1 else 0,
      )

  unfoldable pub update_each : Options → List (String × ℕ) → SortedSet → ℕ → SortedSet × ℕ
  update_each o [] s count = (s, count)
  update_each o ((v, score) ∷ members) s count =
      let (s', n) = update_one o v score s in update_each o members s' (count + n)

  -- the loop of INCR, which has one member
  abbrev pub increase : Options → List (String × ℕ) → SortedSet → Result ℕ × SortedSet
  increase o [] s = (ok 0, s)
  increase o ((v, score) ∷ members) s =
      if not (has_member s v)
      then (ok 1, insert v score s)
      else if ops.infinite (score_of s v)
      then (err "cannot increment -inf or +inf", s)
      else (ok (if equal_fold o.ch "ch" then 1 else 0), insert v (ops.add (score_of s v) score) s)

  abbrev pub updated : SortedSet × ℕ → Result ℕ × SortedSet
  updated (s, n) = (ok n, s)

  -- `AddOrUpdate`
  unfoldable pub add_or_update :
      List (String × ℕ)
      → Option String
      → Option String
      → Option String
      → Option String
      → SortedSet
      → Result ℕ × SortedSet
  unfolding update_each
  add_or_update members policy comparison changed incr s =
      elim (checked (length members) policy comparison changed incr) [
        | ok o ↦
            if equal_fold o.inc "incr"
            then increase o members s
            else updated (update_each o members s 0)
        | err e ↦ (err e, s)
        | panic ↦ (panic, s)
      ]

  -- `slices.SortFunc`: members with equal scores stay in the order of the map, which is any order
  unfoldable pub place : (ℕ → ℕ → Bool) → String × ℕ → List (String × ℕ) → List (String × ℕ)
  place before (v, x) [] = (v, x) ∷ []
  place before (v, x) ((w, y) ∷ rest) =
      let later = place before (v, x) rest in
      if before y x then (w, y) ∷ later else (v, x) ∷ (w, y) ∷ rest

  unfoldable pub sorted : (ℕ → ℕ → Bool) → List (String × ℕ) → List (String × ℕ)
  unfolding place
  sorted before [] = []
  sorted before (m ∷ members) = place before m (sorted before members)

  -- the loop of `Pop` over the members that come off
  unfoldable pub pop_each : List (String × ℕ) → SortedSet → SortedSet → SortedSet × SortedSet
  pop_each [] popped s = (popped, s)
  pop_each ((v, x) ∷ members) popped s =
      pop_each members (add_or_update ((v, x) ∷ []) none none none none popped).1
        (remove_member v s).0

  -- `Pop`: what comes off, and what stays
  unfoldable pub pop_scores : ℤ → String → SortedSet → Result SortedSet × SortedSet
  unfolding sorted pop_each
  pop_scores count policy s =
      if not (equal_fold policy "min" || equal_fold policy "max")
      then (err "policy must be MIN or MAX", s)
      else elim count [
        | negsuc n ↦ (err "count must be a positive integer", s)
        | pos n ↦
            let before = if equal_fold policy "min" then ops.before else λ a b. ops.before b a in
            let (popped, rest) = pop_each (take n (sorted before s)) [] s in (ok popped, rest)
      ]

-- the inner loop of `Subtract`, and `Subtract`
unfoldable pub subtract_one : SortedSet → SortedSet → SortedSet
unfolding remove_member
subtract_one [] res = res
subtract_one ((v, x) ∷ members) res = subtract_one members (remove_member v res).0

unfoldable pub subtract_all : List SortedSet → SortedSet → SortedSet
unfolding subtract_one
subtract_all [] res = res
subtract_all (other ∷ others) res = subtract_all others (subtract_one other res)

unfoldable pub subtract_scores : List SortedSet → SortedSet → SortedSet
unfolding new_sorted_set subtract_all
subtract_scores others s = subtract_all others (new_sorted_set s [])
