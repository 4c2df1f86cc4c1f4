-- ===== src/Dedup.antt =====
-- `CloudfsControllerDedup` of cloudfs/cloudfs_controller.h and cloudfs/cloudfs_controller.cc: the
-- controller of files that cuts large files into chunks and stores equal chunks once.
pub mod Chunks
pub mod Prepare
pub mod Files
pub mod Paths
pub mod Replace
pub mod Splice
pub mod Written
pub mod Bounds
pub mod Loaded
pub mod Overwrite
pub mod Write
pub mod Change
pub mod WriteFile
pub mod Contents
pub mod Ranges
pub mod Read
pub mod Delivery
pub mod Unlink
pub mod Counting
pub mod Use
pub mod Release
pub mod Rounds
pub mod Rechunk
