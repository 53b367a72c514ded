-- ===== src/Cache.antt =====
-- cache_manager.py: the cache of results, in Redis and in the memory of the process.
pub mod Redis
pub mod Retry
pub mod Manager
mod Examples
