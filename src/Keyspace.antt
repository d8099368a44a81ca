-- ===== src/Keyspace.antt =====
-- sugardb/keyspace.go: the databases, the keys with an expiry time, the memory counter and the
-- eviction caches of one node, with the operations that the command handlers are given.
pub mod State
pub mod Access
pub mod Write
pub mod Evict
pub mod Sampling
pub mod Connections
pub mod Expired
pub mod HeapSizes
pub mod Ending
pub mod Laws
pub mod Reads
pub mod Writes
pub mod Pointers
pub mod Counter
