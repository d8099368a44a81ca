-- ===== src/Eviction.antt =====
-- internal/eviction: the caches that choose which key to evict.
pub mod Heap
pub mod Lengths
pub mod Shrinking
pub mod Lfu
pub mod Lru
