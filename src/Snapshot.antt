-- ===== src/Snapshot.antt =====
-- cloudfs/snapshot.h and cloudfs/snapshot.cc: the snapshots, and the list of them in the extended
-- attributes of the file `.snapshot`.
pub mod Registry
pub mod Format
pub mod Tree
pub mod Calls
pub mod Guards
pub mod Sorted
pub mod Cleared
pub mod Restored
pub mod Undo
pub mod Remount
pub mod Install
pub mod Rollback
pub mod Runs
pub mod Reach
pub mod Reinstall
