-- ===== src/Pmem.antt =====
-- src/turbo/turbo_hash_pmem.h: what differs in the persistent table, stores to memory that survive
-- a crash once their cache line is flushed.
pub mod Flush
pub mod Meta
pub mod Lock
pub mod Line
pub mod Cell
pub mod Insert
