-- ===== src/Tests/SetCommands.antt =====
-- internal/modules/set/commands.go on a server with two sets.
use echo_vault.Base.{
  Assoc, inl, ◌⊎◌, ℕ, ◌≡◌, refl, String, not, ◌&&◌, ◌||◌, some, none, List, [], ◌∷◌, arith,
  if◌then◌else◌, ◌==◌, nat_eq, string_eq, int_eq, ℤ, pos, lookup, contains, all,
}
use echo_vault.Sets.{has}
use echo_vault.Sets.Random.{Drawn}
use echo_vault.Keyspace.State.{Value, Server, KeyData, set_at, ok, entry}
use echo_vault.Commands.Numbers.{whole}
use echo_vault.Commands.Exec.{number}
use echo_vault.Commands.Laws.{IsLive}
use echo_vault.Commands.Sets.{handle_spop, handle_smove, elements}
use echo_vault.Commands.Sets.Combined.{handle_sinter, handle_sunionstore}
use echo_vault.Commands.Sets.Laws.{Rewritten, handle_spop-Rewritten}
use echo_vault.Commands.Sets.Moves.{handle_smove-moves}
use echo_vault.Commands.Sets.Aliases.{Shares, handle_sunionstore-Shares}
use echo_vault.Commands.Sets.Intersections.{handle_sinter-all}
use echo_vault.Tests.Keyspace.{server}
use echo_vault.Tests.Sets.{ab, ab-IsValid, two_sets}

abbrev at : ℕ → KeyData
at p = record { value = set_at p; expire_at = none }

-- the sets {a, b} and {b, c} under the keys s and t
abbrev with_sets : Server
with_sets = record server {
  store = (pos 0, ("s", at 0) ∷ ("t", at 1) ∷ []) ∷ [];
  memory = two_sets;
}

s-IsLive : IsLive (pos 0) "s" (set_at 0) none with_sets
unfolding entry lookup
s-IsLive = record { found = refl; current = refl }

t-IsLive : IsLive (pos 0) "t" (set_at 1) none with_sets
unfolding entry lookup
t-IsLive = record { found = refl; current = refl }

handle_spop-Rewritten_example :
    (ks : List String) × ((handle_spop
        (λ c. some (whole (pos 1)))
        (λ i. 1)
        (pos 0)
        ("SPOP" ∷ "s" ∷ "1" ∷ [])
        with_sets).0
      ≡ ok (elements ks))
    × Drawn 1 ab ks
    × Rewritten 0
        (λ y. has ab y && not (contains ks y))
        with_sets
        (handle_spop
          (λ c. some (whole (pos 1)))
          (λ i. 1)
          (pos 0)
          ("SPOP" ∷ "s" ∷ "1" ∷ [])
          with_sets).1
handle_spop-Rewritten_example =
    handle_spop-Rewritten (λ c. some (whole (pos 1))) (λ i. 1) (pos 0) "SPOP" "s" "1" 1 0 none
      with_sets s-IsLive ab-IsValid refl

handle_smove-moves_example :
    (s' : Server) × (handle_smove (pos 0) ("SMOVE" ∷ "s" ∷ "t" ∷ "a" ∷ []) with_sets
      ≡ (ok (number 1), s'))
    × ((y : String) → has (s'.memory.cell 0) y ≡ (has ab y && not ("a" == y)))
    × ((y : String)
        → has (s'.memory.cell 1) y ≡ (has (two_sets.cell 1) y || has ab "a" && "a" == y))
    × ((r : ℕ)
        → s'.memory.cell r ≡ (
            if r == 0
            then s'.memory.cell 0
            else if r == 1
            then s'.memory.cell 1
            else with_sets.memory.cell r))
    × ((db' : ℤ) (key : String) → entry s' db' key ≡ entry with_sets db' key)
unfolding has contains
handle_smove-moves_example =
    handle_smove-moves (pos 0) "s" "t" "SMOVE" "a" 0 1 none none with_sets s-IsLive t-IsLive refl
      refl

-- the order of the list
abbrev as_listed : Assoc String Value → Assoc String Value
as_listed l = l

handle_sunionstore-Shares_example :
    (k : ℕ) × (j : ℕ) × (s' : Server) × (((k ≡ 0) × (j ≡ 1)) ⊎ ((k ≡ 1) × (j ≡ 0)))
    × (handle_sunionstore (pos 0) as_listed ("SUNIONSTORE" ∷ "u" ∷ "s" ∷ "t" ∷ []) with_sets
        ≡ (ok (number (s'.memory.cell k).length), s'))
    × Shares (pos 0) "u" k j with_sets s'
handle_sunionstore-Shares_example =
    handle_sunionstore-Shares as_listed (pos 0) "s" "t" "u" "SUNIONSTORE" 0 1 none none with_sets
      (inl refl) s-IsLive t-IsLive refl refl

abbrev s_or_t : String → ℕ
s_or_t k = if k == "s" then 0 else 1

handle_sinter-all_example :
    (s' : Server) × (xs : List String) × (handle_sinter
        (pos 0)
        ("SINTER" ∷ "s" ∷ "t" ∷ "s" ∷ [])
        with_sets
      ≡ (ok (elements xs), s'))
    × ((x : String)
        → contains xs x
          ≡ all (λ j. has (with_sets.memory.cell (s_or_t j)) x) ("s" ∷ "t" ∷ "s" ∷ []))
    × ((db' : ℤ) (key : String) → entry s' db' key ≡ entry with_sets db' key)
    × (s'.memory.cell 0 ≡ ab)
handle_sinter-all_example =
    handle_sinter-all (pos 0) s_or_t (λ k. none) "SINTER" "s" ("t" ∷ "s" ∷ []) 0 with_sets
      (s-IsLive, (t-IsLive, (s-IsLive, tt))) (omega arith, (omega arith, (omega arith, tt)))
      (omega arith)
