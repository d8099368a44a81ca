-- ===== src/SortedSets/Arithmetic.antt =====
-- The float64 scores of internal/modules/sorted_set: the arithmetic of the machine is a parameter.
use echo_vault.Base.{ℕ, String, Bool, if◌then◌else◌, ◌==◌, string_eq, equal_fold, ℤ}

-- `less` is `<` and `same` is `==`; `before a b` says that `cmp.Compare(a, b)` is negative.
pub record Scores : Type 0 where
  pub zero : ℕ
  pub add : ℕ → ℕ → ℕ
  pub times : ℕ → ℤ → ℕ
  pub less : ℕ → ℕ → Bool
  pub same : ℕ → ℕ → Bool
  pub before : ℕ → ℕ → Bool
  pub infinite : ℕ → Bool

module _ (ops : Scores) where
  -- `compareScores(old, new, comp)`
  unfoldable pub compare_scores : ℕ → ℕ → String → ℕ
  compare_scores old new comp =
      if equal_fold comp "lt"
      then if ops.less new old then new else old
      else if equal_fold comp "gt"
      then if ops.less old new then new else old
      else new

  -- the scores of one member of two sets, joined
  unfoldable pub aggregated : String → ℕ → ℕ → ℕ
  unfolding compare_scores
  aggregated aggregate left right =
      if aggregate == "sum"
      then ops.add left right
      else if aggregate == "min"
      then compare_scores left right "lt"
      else compare_scores left right "gt"
