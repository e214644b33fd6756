-- ===== src/Tests.antt =====
-- Runs of the models at concrete inputs, and the theorems at inputs that meet their hypotheses.
mod Fsm
mod Stats
mod Locks
mod WindowPost
mod Schedule
mod FileType
mod Fr32
mod Calls
mod AddPiece
mod DealInput
mod Expiration
mod Batch
mod Commit
mod Terminate
mod Index
