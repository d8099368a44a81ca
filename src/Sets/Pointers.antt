-- ===== src/Sets/Pointers.antt =====
-- internal/modules/set/set.go: the functions that hold sets by pointer. A `*Set` is an address of a
-- memory; `Union` writes through its first argument, `Intersection` may return one of its arguments.
pub mod Union
pub mod Moving
pub mod Intersection
use echo_vault.Base.{
  ℕ, zero, suc, ◌+◌, ◌/◌, ◌≡◌, String, Bool, true, false, Option, none, some, List, [], ◌∷◌, leb,
  if◌then◌else◌, length, take, drop, ◌==◌, nat_eq, ◌&&◌, not, ℤ, pos, ltb_ℤ,
}
use echo_vault.Sets.{Set, has, add, new_set, remove, cardinality}

pub record Memory : Type 0 where
  pub cell : ℕ → Set
  pub next : ℕ

-- `*p = s`
unfoldable pub store : ℕ → Set → Memory → Memory
store p s m = record m { cell = λ q. if q == p then s else m.cell q }

-- `&s`
unfoldable pub alloc : Set → Memory → ℕ × Memory
alloc s m = (m.next, record { cell = λ q. if q == m.next then s else m.cell q; next = m.next + 1 })

-- `Move`
unfoldable pub move : ℕ → ℕ → String → Memory → Memory × ℕ
unfolding store
move source destination e m =
    if has (m.cell source) e
    then (let m1 = store source (remove (e ∷ []) (m.cell source)).0 m in
        (store destination (add (e ∷ []) (m1.cell destination)).0 m1, 1))
    else (m, 0)

-- `Union`, on fuel; `none` is fuel that ran out, as the calls on no set at all do.
unfoldable pub union : ℕ → List ℕ → Memory → Option (ℕ × Memory)
unfolding store
union zero sets m = none
union (suc fuel) (p ∷ []) m = some (p, m)
union (suc fuel) (p ∷ q ∷ []) m = some (p, store p (add (m.cell q).members (m.cell p)).0 m)
union (suc fuel) sets m = elim (union fuel (take (length sets / 2) sets) m) [
  | none ↦ none
  | some (left, m1) ↦ elim (union fuel (drop (length sets / 2) sets) m1) [
    | none ↦ none
    | some (right, m2) ↦ union fuel (left ∷ right ∷ []) m2
  ]
]

-- the loop of the case of two sets: the intersection, and whether the limit was reached
unfoldable pub intersect_each : ℤ → List String → Set → Set → Set × Bool
intersect_each limit [] other acc = (acc, false)
intersect_each limit (member ∷ members) other acc =
    let rest =
      intersect_each limit members other
        (if has other member then (add (member ∷ []) acc).0 else acc) in
    if ltb_ℤ (pos 0) limit && not (ltb_ℤ (pos (cardinality acc)) limit) then (acc, true) else rest

-- `Intersection`, on fuel
unfoldable pub intersection : ℕ → ℤ → List ℕ → Memory → Option (ℕ × Bool × Memory)
unfolding alloc
intersection zero limit sets m = none
intersection (suc fuel) limit (p ∷ []) m = some (p, false, m)
intersection (suc fuel) limit (p ∷ q ∷ []) m =
    let (s, reached) = intersect_each limit (m.cell p).members (m.cell q) (new_set []) in
    let (r, m1) = alloc s m in some (r, reached, m1)
intersection (suc fuel) limit sets m =
    elim (intersection fuel limit (take (length sets / 2) sets) m) [
      | none ↦ none
      | some (left, true, m1) ↦ some (left, true, m1)
      | some (left, false, m1) ↦ elim (intersection fuel limit (drop (length sets / 2) sets) m1) [
        | none ↦ none
        | some (right, true, m2) ↦ some (right, true, m2)
        | some (right, false, m2) ↦ intersection fuel limit (left ∷ right ∷ []) m2
      ]
    ]
