-- ===== src/Keyspace/State.antt =====
-- The state of sugardb/sugardb.go that sugardb/keyspace.go works on, and `KeyData` of
-- internal/types.go with its memory size.
use Prim.Native.String.{len}
use echo_vault.Base.{
  ◌&&◌, ℕ, ◌+◌, ◌-◌, ◌%◌, ◌^◌, String, Bool, true, false, Option, none, some, List, [], ◌∷◌,
  if◌then◌else◌, ltb, leb, ◌==◌, nat_eq, string_eq, int_eq, ℤ, Assoc, nested, inner, lookup,
}
use echo_vault.Sets.{Set}
use echo_vault.Sets.Pointers.{Memory}
use echo_vault.Eviction.Lfu.{CacheLfu}
use echo_vault.Eviction.Lru.{CacheLru}

-- What an operation returns: a value, an error with its message, or a panic.
pub data Result {ℓ} (A : Type ℓ) : Type ℓ where
  ok : A → Result A
  err : String → Result A
  panic : Result A

-- The values that `AdaptType` gives: the bits of a float64 stand for it.
pub data Scalar : Type 0 where
  nothing : Scalar
  integer : ℤ → Scalar
  float : ℕ → Scalar
  text : String → Scalar

-- A value of the store (an `interface{}`). A set is a pointer.
pub data Value : Type 0 where
  scalar : Scalar → Value
  hash : Assoc String Scalar → Value
  list : List String → Value
  set_at : ℕ → Value
  unsupported : Value

abbrev pub nil_value : Value
nil_value = scalar nothing

-- `KeyData`; `none` is the zero time
pub record KeyData : Type 0 where
  pub value : Value
  pub expire_at : Option ℕ

abbrev pub no_data : KeyData
no_data = record { value = nil_value; expire_at = none }

-- the `unsafe.Sizeof` of a string header
abbrev pub header : ℕ
header = 16

abbrev pub scalar_mem : Scalar → ℕ
scalar_mem nothing = 0
scalar_mem (integer i) = 8
scalar_mem (float f) = 8
scalar_mem (text t) = header + len t

unfoldable pub hash_mem : Assoc String Scalar → ℕ
hash_mem [] = 0
hash_mem ((k, v) ∷ fields) = header + len k + scalar_mem v + hash_mem fields

unfoldable pub list_mem : List String → ℕ
list_mem [] = 0
list_mem (s ∷ rest) = header + len s + list_mem rest

-- the loop of `Set.GetMem` in internal/modules/set/set.go
unfoldable pub members_mem : List String → ℕ
members_mem [] = 0
members_mem (k ∷ members) = header + len k + 16 + members_mem members

-- `Set.GetMem`: a pointer and a map header, and the members
unfoldable pub set_mem : Set → ℕ
unfolding members_mem
set_mem s = 8 + 8 + members_mem s.members

-- `KeyData.GetMem`; a `time.Time` takes 24 bytes
unfoldable pub get_mem : Memory → KeyData → Result ℕ
unfolding hash_mem list_mem set_mem
get_mem m d = elim d.value [
  | scalar v ↦ ok (24 + scalar_mem v)
  | hash fields ↦ ok (24 + 8 + hash_mem fields)
  | list items ↦ ok (24 + list_mem items)
  | set_at p ↦ ok (24 + set_mem (m.cell p))
  | unsupported ↦ err "ERROR: type is not supported in method KeyData.GetMem()"
]

-- The eviction policy, after `strings.ToLower`.
pub data Policy : Type 0 where
  no_eviction allkeys_lfu allkeys_lru volatile_lfu volatile_lru : Policy
  allkeys_random volatile_random other_policy : Policy

-- `isInCluster`. A node of a cluster is a follower here: the raft leader is not modelled.
pub data Mode : Type 0 where
  standalone follower : Mode

-- What goes out to the leader, and the cache updates that a goroutine makes later.
pub data Message : Type 0 where
  forward_delete : ℤ → String → Message

pub record Task : Type 0 where
  pub database : ℤ
  pub keys : List String

-- `config`: `lower_case` says that the policy is written in lower case.
pub record Config : Type 0 where
  pub max_memory : ℕ
  pub policy : Policy
  pub lower_case : Bool
  pub eviction_sample : ℕ
  pub mode : Mode

-- `SugarDB`, as far as keyspace.go reads and writes it; `mem_used` is the bit pattern of the int64
pub record Server : Type 0 where
  pub config : Config
  pub store : Assoc ℤ (Assoc String KeyData)
  pub volatile : Assoc ℤ (List String)
  pub lfu : Assoc ℤ CacheLfu
  pub lru : Assoc ℤ CacheLru
  pub memory : Memory
  pub mem_used : ℕ
  pub changes : ℕ
  pub now : ℕ
  pub sent : List Message
  pub tasks : List Task

abbrev pub word : ℕ
word = 2 ^ 64

abbrev pub add64 : ℕ → ℕ → ℕ
add64 a b = (a + b) % word

abbrev pub sub64 : ℕ → ℕ → ℕ
sub64 a b = (a + (word - b % word)) % word

-- `server.store[database][key]`
unfoldable pub entry : Server → ℤ → String → Option KeyData
entry s db key = nested db key s.store

-- the map of a database, and the empty one where there is none
unfoldable pub keys_of : Server → ℤ → Assoc String KeyData
keys_of s db = inner db s.store

-- the keys of a database that `keysWithExpiry` tracks
unfoldable pub volatile_of : Server → ℤ → List String
volatile_of s db = elim (lookup db s.volatile) [ none ↦ [] | some keys ↦ keys ]

-- `entry.ExpireAt != (time.Time{}) && entry.ExpireAt.Before(now)`
abbrev pub expired : ℕ → KeyData → Bool
expired now d = elim d.expire_at [ none ↦ false | some t ↦ ltb t now ]

-- `IsMaxMemoryExceeded` of internal/utils.go; a collection frees nothing that is counted here
abbrev pub is_max_memory_exceeded : ℕ → ℕ → Bool
is_max_memory_exceeded mem_used max_memory =
    if max_memory == 0
    then false
    else if ltb mem_used max_memory
    then false
    else leb max_memory mem_used

abbrev is_no_eviction : Policy → Bool
is_no_eviction no_eviction = true
is_no_eviction _ = false

-- `config.EvictionPolicy == constants.NoEviction`, with the policy as it is written
abbrev pub refuses : Config → Bool
refuses c = c.lower_case && is_no_eviction c.policy
