-- ===== src/Batch.antt =====
-- storage-sealing/precommit_batch.go, storage-sealing/commit_batch.go and
-- storage-sealing/terminate_batch.go: the batchers that send the messages of many sectors as one.
pub mod Queue
pub mod Collateral
pub mod Node
pub mod PreCommit
pub mod Aggregate
pub mod Commit
pub mod Terminate
