-- ===== src/Cache.antt =====
-- opencog/util/lru_cache.h: the caches of function results.
pub mod Entries
pub mod Lru
pub mod Prr
pub mod Inf
pub mod ArgResult
pub mod LruThreaded
pub mod Adaptive
pub mod PrrThreaded
