-- ===== src/Tests/Lists.antt =====
-- internal/modules/list/commands.go on a server with one list.
use echo_vault.Base.{
  ◌≡◌, refl, String, none, List, [], ◌∷◌, arith, string_eq, int_eq, pos, lookup, atoi, equal_fold,
}
use echo_vault.Keyspace.State.{list, ok, entry}
use echo_vault.Commands.Exec.{number, array, ok_response}
use echo_vault.Commands.Laws.{IsLive, Rewrites}
use echo_vault.Commands.Lists.{handle_lrange, handle_ltrim}
use echo_vault.Commands.Lists.Ends.{handle_pop}
use echo_vault.Commands.Lists.Laws.{handle_pop-Rewrites}
use echo_vault.Commands.Lists.Windows.{handle_lrange-window}
use echo_vault.Commands.Lists.Overwrites.{handle_ltrim-Rewrites}
use echo_vault.Commands.Lists.Removal.{handle_lrem, remove_first, handle_lrem-Rewrites}
use echo_vault.Tests.Keyspace.{server}

abbrev xyx : List String
xyx = "x" ∷ "y" ∷ "x" ∷ []

live : IsLive (pos 0) "k" (list xyx) none server
unfolding entry lookup
live = record { found = refl; current = refl }

handle_pop-Rewrites_example :
    ((handle_pop (pos 0) ("LPOP" ∷ "k" ∷ "2" ∷ []) server).0 ≡ ok (array ("x" ∷ "y" ∷ [])))
    × Rewrites
        (pos 0)
        "k"
        server
        (list ("x" ∷ []))
        (handle_pop (pos 0) ("LPOP" ∷ "k" ∷ "2" ∷ []) server).1
unfolding equal_fold atoi
handle_pop-Rewrites_example =
    handle_pop-Rewrites (pos 0) "k" "LPOP" "2" (pos 2) ("x" ∷ "y" ∷ []) ("x" ∷ []) none server live
      refl refl (λ e. cc e) refl

handle_lrange-window_example :
    (handle_lrange (pos 0) ("LRANGE" ∷ "k" ∷ "1" ∷ "2" ∷ []) server).0 ≡ ok (array ("y" ∷ "x" ∷ []))
unfolding atoi
handle_lrange-window_example =
    handle_lrange-window (pos 0) "LRANGE" "k" "1" "2" xyx none server 1 2 live refl refl
      (omega arith) (omega arith)

handle_ltrim-Rewrites_example :
    ((handle_ltrim (pos 0) ("LTRIM" ∷ "k" ∷ "1" ∷ "9" ∷ []) server).0 ≡ ok ok_response)
    × Rewrites
        (pos 0)
        "k"
        server
        (list ("y" ∷ "x" ∷ []))
        (handle_ltrim (pos 0) ("LTRIM" ∷ "k" ∷ "1" ∷ "9" ∷ []) server).1
unfolding atoi
handle_ltrim-Rewrites_example =
    handle_ltrim-Rewrites (pos 0) "LTRIM" "k" "1" "9" xyx none server 1 9 live refl refl refl
      (omega arith) (omega arith)

handle_lrem-Rewrites_example :
    ((handle_lrem (pos 0) ("LREM" ∷ "k" ∷ "-1" ∷ "x" ∷ []) server).0 ≡ ok (number 1))
    × Rewrites
        (pos 0)
        "k"
        server
        (list ("x" ∷ "y" ∷ []))
        (handle_lrem (pos 0) ("LREM" ∷ "k" ∷ "-1" ∷ "x" ∷ []) server).1
unfolding atoi remove_first
handle_lrem-Rewrites_example =
    handle_lrem-Rewrites (pos 0) "LREM" "k" "-1" "x" xyx none server 0 live refl refl
