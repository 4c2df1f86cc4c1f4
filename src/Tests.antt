-- ===== src/Tests.antt =====
-- Concrete states, and the theorems at them.
mod Cache
mod Objects
mod Chunks
mod Snapshots
mod Rollback
mod Dedup
mod Files
mod Written
mod Writes
mod Sessions
mod Requests
