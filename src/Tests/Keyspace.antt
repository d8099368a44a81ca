-- ===== src/Tests/Keyspace.antt =====
-- sugardb/keyspace.go on a server of one database.
use echo_vault.Base.{
  ◌≡◌, refl, String, true, some, none, [], ◌∷◌, string_eq, int_eq, ℤ, pos, Assoc, lookup, contains,
  any,
}
use echo_vault.Keyspace.State.{
  Server, Value, list, scalar, text, integer, ok, entry, no_eviction, standalone,
}
use echo_vault.Keyspace.Access.{get_values}
use echo_vault.Keyspace.Write.{set_values}
use echo_vault.Keyspace.Laws.{SameView, shows}
use echo_vault.Keyspace.Reads.{get_values-shows}
use echo_vault.Keyspace.Writes.{entry_after, set_values_stores}

-- A list without an expiry time, and a text that expired at time 5; the time is 9.
abbrev pub server : Server
server = record {
  config = record {
    max_memory = 0;
    policy = no_eviction;
    lower_case = true;
    eviction_sample = 20;
    mode = standalone;
  };
  store =
      (
        pos 0,
        ("k", record { value = list ("x" ∷ "y" ∷ "x" ∷ []); expire_at = none })
            ∷ ("old", record { value = scalar (text "t"); expire_at = some 5 })
            ∷ [],
      )
      ∷ [];
  volatile = (pos 0, "old" ∷ []) ∷ [];
  lfu = [];
  lru = [];
  memory = record { cell = λ p. record { members = []; length = 0 }; next = 0 };
  mem_used = 200;
  changes = 0;
  now = 9;
  sent = [];
  tasks = [];
}

get_values-shows_example :
    (s' : Server) × (values : Assoc String Value) × (get_values (pos 0) ("k" ∷ "old" ∷ []) server
      ≡ ok (s', values))
    × SameView server s'
    × (lookup "old" values ≡ some (shows server (pos 0) "old"))
unfolding contains any
get_values-shows_example = get_values-shows (pos 0) ("k" ∷ "old" ∷ []) server "old" refl refl

set_values_stores_example :
    ((set_values (pos 0) (("k", scalar (integer (pos 3))) ∷ []) server).1 ≡ none)
    × ((db' : ℤ) (key : String)
        → entry (set_values (pos 0) (("k", scalar (integer (pos 3))) ∷ []) server).0 db' key
          ≡ entry_after (pos 0) (("k", scalar (integer (pos 3))) ∷ []) server db' key)
set_values_stores_example =
    set_values_stores (pos 0) (("k", scalar (integer (pos 3))) ∷ []) server (tt, tt) refl
