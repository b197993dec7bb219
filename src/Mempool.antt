-- ===== src/Mempool.antt =====
-- pkg/model/mempool: the memory of the KV-cache.
pub mod Arena
pub mod Kv
