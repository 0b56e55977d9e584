-- ===== src/Database/Arrow.antt =====
-- database/src/arrow/: how a page of a table is found in its segments.
pub mod Key
mod Tests
pub mod Heap
pub mod Gather
pub mod Strict
pub mod Block
pub mod Search
pub mod Seek
pub mod Index
pub mod Filter
