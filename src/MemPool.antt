-- ===== src/MemPool.antt =====
-- src/main/c/src/com/mmpool.c: a pool of memory nodes by size. Types holds the structures, Get, Release
-- and Destroy the operations; Counted is about the account of free memory, Align and Capacity about
-- the size of a node.
pub mod Types
pub mod Get
pub mod Release
pub mod Counted
pub mod Align
pub mod Capacity
pub mod Destroy
mod Tests
