-- ===== src/Commands/Hashes/Values.antt =====
-- internal/modules/hash: the handlers that print values, HGET, HMGET, HVALS and HGETALL.
use echo_vault.Base.{
  ℕ, ◌*◌, String, not, Option, none, some, List, [], ◌∷◌, map, if◌then◌else◌, nat_eq, string_eq,
  length, drop, ℤ, lookup,
}
use echo_vault.Keyspace.State.{Scalar, nothing, integer, float, text}
use echo_vault.Commands.Exec.{
  Exec, ◌>>=◌, pure, lift, Reply, Cell, null_cell, text_cell, integer_cell, null_bulk, array, cells,
  key_exists, value_of,
}
use echo_vault.Commands.Sets.{first}
use echo_vault.Commands.Hashes.{Fields, as_hash, hget_key_func, hvals_key_func}

-- a value as HGET prints it; `format` is `strconv.FormatFloat`
abbrev pub cell_of : (ℕ → String) → Option Scalar → Cell
cell_of format none = null_cell
cell_of format (some nothing) = null_cell
cell_of format (some (integer i)) = integer_cell i
cell_of format (some (float f)) = text_cell (format f)
cell_of format (some (text t)) = text_cell t

-- a value as HVALS prints it; a nil is left out
abbrev pub value_cells : (ℕ → String) → Scalar → List Cell → List Cell
value_cells format nothing rest = rest
value_cells format v rest = cell_of format (some v) ∷ rest

unfoldable pub all_values : (ℕ → String) → Fields → List Cell
all_values format [] = []
all_values format ((field, value) ∷ h) = value_cells format value (all_values format h)

unfoldable pub all_pairs : (ℕ → String) → Fields → List Cell
all_pairs format [] = []
all_pairs format ((field, value) ∷ h) =
    text_cell field ∷ value_cells format value (all_pairs format h)

module _ (format : ℕ → String) (db : ℤ) where
  -- `handleHGET` and `handleHMGET`
  unfoldable pub handle_hget : List String → Exec Reply
  handle_hget cmd = do
    keys ← lift (hget_key_func cmd)
    let key = first keys.read_keys
    exists ← key_exists db key
    if not exists then pure null_bulk else do
      v ← value_of db key
      h ← as_hash key v
      pure (cells (length (drop 2 cmd)) (map (λ f. cell_of format (lookup f h)) (drop 2 cmd)))

  -- `handleHVALS`
  unfoldable pub handle_hvals : List String → Exec Reply
  handle_hvals cmd = do
    keys ← lift (hvals_key_func cmd)
    let key = first keys.read_keys
    exists ← key_exists db key
    if not exists then pure (array []) else do
      v ← value_of db key
      h ← as_hash key v
      pure (cells (length h) (all_values format h))

  -- `handleHGETALL`
  unfoldable pub handle_hgetall : List String → Exec Reply
  handle_hgetall cmd = do
    keys ← lift (hvals_key_func cmd)
    let key = first keys.read_keys
    exists ← key_exists db key
    if not exists then pure (array []) else do
      v ← value_of db key
      h ← as_hash key v
      pure (cells (length h * 2) (all_pairs format h))
