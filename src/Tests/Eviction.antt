-- ===== src/Tests/Eviction.antt =====
-- sugardb/keyspace.go on a server whose memory is full.
use echo_vault.Base.{
  ℤ, map, String, ◌≡◌, refl, true, some, none, List, [], ◌∷◌, arith, pos, lookup, int_eq,
}
use echo_vault.Keyspace.State.{entry, Server, Result, ok, scalar, text, allkeys_lfu, standalone}
use echo_vault.Keyspace.Evict.{Outcome, adjust_memory}
use echo_vault.Keyspace.Sampling.{evict_expired}
use echo_vault.Keyspace.Expired.{evict_expired_runs_on}
use echo_vault.Keyspace.Ending.{adjust_memory_ends}
use echo_vault.Keyspace.Connections.{ConnectionInfo, swap_dbs, exchange, swap_dbs-exchanged}

-- One key with a time of expiry that is still to come, and a cache with this key; the time is 9.
abbrev server : Server
server = record {
  config = record {
    max_memory = 10;
    policy = allkeys_lfu;
    lower_case = true;
    eviction_sample = 20;
    mode = standalone;
  };
  store = (pos 0, ("n", record { value = scalar (text "41"); expire_at = some 100 }) ∷ []) ∷ [];
  volatile = (pos 0, "n" ∷ []) ∷ [];
  lfu =
      (
        pos 0,
        record {
          keys = "n" ∷ [];
          entries = some (record { key = "n"; count = 1; added_time = 1; index = 0 }) ∷ [];
        },
      )
      ∷ [];
  lru = [];
  memory = record { cell = λ p. record { members = []; length = 0 }; next = 0 };
  mem_used = 200;
  changes = 0;
  now = 9;
  sent = [];
  tasks = [];
}

adjust_memory_ends_example :
    (r : Result Outcome) × (adjust_memory (λ i. i) 2 (pos 0) server ≡ some r)
unfolding lookup
adjust_memory_ends_example =
    adjust_memory_ends (λ i. i) 2 (pos 0) server refl (omega arith) (omega arith)

evict_expired_runs_on_example :
    ¬ (evict_expired (λ i. i) 5 0 (pos 0) server ≡ some (ok (server, none)))
evict_expired_runs_on_example =
    evict_expired_runs_on (λ i. i) 5 0 (pos 0) server server refl (omega arith) (omega arith)

abbrev clients : List ConnectionInfo
clients =
    record { id = 1; name = "one"; protocol = 2; database = pos 0 }
    ∷ record { id = 2; name = "two"; protocol = 3; database = pos 4 }
    ∷ []

swap_dbs-exchanged_example :
    ((swap_dbs (pos 0) (pos 4) clients server).0 ≡ map (exchange (pos 0) (pos 4)) clients)
    × ((db : ℤ) (key : String)
        → entry (swap_dbs (pos 0) (pos 4) clients server).1 db key ≡ entry server db key)
swap_dbs-exchanged_example = swap_dbs-exchanged (pos 0) (pos 4) clients server
