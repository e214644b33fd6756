-- ===== src/Fsm.antt =====
-- storage-sealing/fsm.go: how a batch of events moves a sector through its states.
pub mod Planner
pub mod Table
pub mod Dispatch
pub mod Progress
pub mod Keeps
pub mod StateSet
pub mod Runs
pub mod States
pub mod Removal
pub mod Recovery
pub mod Upgrade
pub mod Abort
pub mod Report
