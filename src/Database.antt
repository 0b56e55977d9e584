-- ===== src/Database.antt =====
-- The database crate: the reading side of its Arrow backend, and the batched ingestion.
pub mod Arrow
pub mod Ingest
