-- ===== src/Sets.antt =====
-- internal/modules/set/set.go: the set type behind the set commands. A Go map with values
-- `struct{}{}` is the list of its keys, in the order in which a `range` visits them.
pub mod Laws
pub mod Pointers
pub mod Random
use echo_vault.Base.{
  ℕ, zero, suc, ◌+◌, ◌%◌, String, Bool, true, false, Option, none, some, List, [], ◌∷◌, ◌++◌, ◌-◌,
  leb, if◌then◌else◌, contains, erase, get_elem?, ℤ, abs, is_neg, ◌==◌, nat_eq, string_eq,
}
use echo_vault.Base

-- `Set`
pub record Set : Type 0 where
  pub members : List String
  pub length : ℕ

-- `Contains`, with `Get`: a key's value is never nil
unfoldable pub has : Set → String → Bool
has s e = contains s.members e

-- the loop of `Add`: the members, and the count
unfoldable pub add_each : List String → List String → ℕ → List String × ℕ
add_each [] m count = (m, count)
add_each (e ∷ es) m count =
    let kept = add_each es m count in
    let grown = add_each es (e ∷ m) (count + 1) in if contains m e then kept else grown

-- `Add`
unfoldable pub add : List String → Set → Set × ℕ
add elems s =
    let (m, count) = add_each elems s.members 0 in
    (record s { members = m; length = s.length + count }, count)

-- `NewSet`
unfoldable pub new_set : List String → Set
unfolding add
new_set elems = (add elems (record { members = []; length = 0 })).0

-- `GetAll`
abbrev pub get_all : Set → List String
get_all s = s.members

-- `Cardinality`
abbrev pub cardinality : Set → ℕ
cardinality s = s.length

-- the loop of `Remove`
unfoldable pub remove_each : List String → List String → ℕ → List String × ℕ
remove_each [] m count = (m, count)
remove_each (e ∷ es) m count =
    let shrunk = remove_each es (erase e m) (count + 1) in
    let kept = remove_each es m count in if contains m e then shrunk else kept

-- `Remove`
unfoldable pub remove : List String → Set → Set × ℕ
remove elems s =
    let (m, count) = remove_each elems s.members 0 in
    (record s { members = m; length = s.length - count }, count)

-- `rand.Intn(n)`: the draws are an input, a stream of numbers read one by one.
abbrev pub Draws : Type 0
Draws = ℕ → ℕ

-- The loop of `GetRandom` for a negative count: `i` draws are used up.
pick_any : Draws → ℕ → ℕ → List String → List String → List String
pick_any draws i zero keys res = res
pick_any draws i (suc n) keys res = elim (get_elem? keys (draws i % Base.length keys)) [
  | none ↦ res
  | some k ↦ pick_any draws (i + 1) n keys (res ++ k ∷ [])
]

-- The loop for a positive count, on fuel: a draw that is already there is drawn again.
pick_new : Draws → ℕ → ℕ → ℕ → List String → List String → Option (List String)
pick_new draws zero i zero keys res = some res
pick_new draws zero i (suc n) keys res = none
pick_new draws (suc fuel) i zero keys res = some res
pick_new draws (suc fuel) i (suc n) keys res = elim (get_elem? keys (draws i % Base.length keys)) [
  | none ↦ none
  | some k ↦ elim (contains res k) [
    | true ↦ pick_new draws fuel (i + 1) (suc n) keys res
    | false ↦ pick_new draws fuel (i + 1) n (erase k keys) (res ++ k ∷ [])
  ]
]

-- `GetRandom`
unfoldable pub get_random : Draws → ℤ → Set → Option (List String)
unfolding pick_any pick_new
get_random draws count s =
    if abs count == 0
    then some []
    else if leb (cardinality s) (abs count)
    then some (get_all s)
    else if is_neg count
    then some (pick_any draws 0 (abs count) (get_all s) [])
    else pick_new draws (abs count) 0 (abs count) (get_all s) []

-- `Pop`
unfoldable pub pop : Draws → ℤ → Set → Option (Set × List String)
unfolding remove get_random
pop draws count s = elim (get_random draws count s) [
  | none ↦ none
  | some keys ↦ some ((remove keys s).0, keys)
]

-- the loops of `Subtract`: the members of the others that the difference holds
unfoldable pub held : Set → List String → List String
held diff [] = []
held diff (k ∷ ks) = let rest = held diff ks in if has diff k then k ∷ rest else rest

unfoldable pub collect : Set → List Set → List String
unfolding held
collect diff [] = []
collect diff (s ∷ others) = held diff s.members ++ collect diff others

-- `Subtract`
unfoldable pub subtract : Set → List Set → Set
unfolding new_set collect remove
subtract s others = let diff = new_set (get_all s) in (remove (collect diff others) diff).0
