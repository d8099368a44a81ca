-- ===== src/Tests.antt =====
-- Runs of the definitions on concrete inputs, and the theorems applied to them.
pub mod Sets
pub mod Keyspace
pub mod Lists
pub mod Acl
pub mod SetCommands
pub mod PubSub
pub mod Hashes
pub mod Strings
pub mod Generic
pub mod SortedSets
pub mod Eviction
