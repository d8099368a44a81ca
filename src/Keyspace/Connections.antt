-- ===== src/Keyspace/Connections.antt =====
-- sugardb/keyspace.go: SwapDBs, over the connections of sugardb/sugardb.go, each with its number, name, protocol
-- and database (`ConnectionInfo` of internal/types.go).
use echo_vault.Base.{
  map, ap, ◌∙◌, inl, inr, Bool-cases, ℕ, ◌≡◌, refl, String, List, [], ◌∷◌, arith, if◌then◌else◌,
  ◌==◌, int_eq, int_beq_iff, ℤ,
}
use echo_vault.Keyspace.State.{Server, entry}
use echo_vault.Keyspace.Write.{ensure_database}
use echo_vault.Keyspace.Writes.{entry-ensure_database}

-- `ConnectionInfo`
pub record ConnectionInfo : Type 0 where
  pub id : ℕ
  pub name : String
  pub protocol : ℕ
  pub database : ℤ

-- the switch of `SwapDBs` for one connection
unfoldable pub swap_info : ℤ → ℤ → ConnectionInfo → ConnectionInfo
swap_info database1 database2 info =
    if info.database == database1
    then record info { database = database2 }
    else if info.database == database2
    then record info { database = database1 }
    else info

unfoldable pub swap_each : ℤ → ℤ → List ConnectionInfo → List ConnectionInfo
unfolding swap_info
swap_each database1 database2 [] = []
swap_each database1 database2 (info ∷ clients) =
    swap_info database1 database2 info ∷ swap_each database1 database2 clients

-- `SwapDBs`
unfoldable pub swap_dbs : ℤ → ℤ → List ConnectionInfo → Server → List ConnectionInfo × Server
unfolding swap_each
swap_dbs database1 database2 clients s = if database1 == database2 then (clients, s) else (
  swap_each database1 database2 clients,
  ensure_database database2 (ensure_database database1 s),
)

-- the database of a connection after a swap
abbrev pub exchanged : ℤ → ℤ → ℤ → ℤ
exchanged a b d = if d == a then b else if d == b then a else d

abbrev pub exchange : ℤ → ℤ → ConnectionInfo → ConnectionInfo
exchange a b info = record info { database = exchanged a b info.database }

swap_each-exchanged :
    (a b : ℤ) (clients : List ConnectionInfo) → swap_each a b clients ≡ map (exchange a b) clients
unfolding swap_each swap_info
swap_each-exchanged a b [] = refl
swap_each-exchanged a b (info ∷ clients) = ground (arith, swap_each-exchanged a b clients)

nothing_exchanged : (a : ℤ) (clients : List ConnectionInfo) → clients ≡ map (exchange a a) clients
nothing_exchanged a [] = refl
nothing_exchanged a (info ∷ clients) =
    ground (arith, int_beq_iff info.database a, nothing_exchanged a clients)

-- `SwapDBs` of any two databases: every connection to one of them is then on the other one, with its number, name and
-- protocol, and the others stay; no key of any database changes.
pub swap_dbs-exchanged :
    (a b : ℤ) (clients : List ConnectionInfo) (s : Server)
    → ((swap_dbs a b clients s).0 ≡ map (exchange a b) clients)
      × ((db : ℤ) (key : String) → entry (swap_dbs a b clients s).1 db key ≡ entry s db key)
unfolding swap_dbs
swap_dbs-exchanged a b clients s = elim (Bool-cases (a == b)) [
  | inl same ↦ rw same (
    ap (λ c. c) (nothing_exchanged a clients)
        ∙ ap (λ d. map (exchange a d) clients) ((int_beq_iff a b).0 same),
    λ db key. refl,
  )
  | inr other ↦ rw other (
    swap_each-exchanged a b clients,
    λ db key.
        entry-ensure_database b (ensure_database a s) db key ∙ entry-ensure_database a s db key,
  )
]
