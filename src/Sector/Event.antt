-- ===== src/Sector/Event.antt =====
-- storage-sealing/fsm_events.go: the events that a sector receives, in the file's groups.
-- The `error` that an event carries is its text.
use venus_sealer.Prelude.{ℕ, Bool, true, false, ◌==◌, String, List}
use venus_sealer.Sector.State.{SectorState}
use venus_sealer.Sector.Info.{Bytes, Cid, Piece, PieceInfo, SectorPreCommitInfo}

-- The implementations of `globalMutator`.
pub data GlobalEvent : Type 0 where
  sector_restart : GlobalEvent
  sector_fatal_error : String → GlobalEvent
  sector_force_state : SectorState → GlobalEvent
  sector_terminate : GlobalEvent
  sector_remove : GlobalEvent

-- The normal path, up to the pre-commit message.
pub data PreCommitEvent : Type 0 where
  sector_start : ℕ → ℕ → PreCommitEvent
  sector_start_cc : ℕ → ℕ → PreCommitEvent
  sector_add_piece : PreCommitEvent
  sector_piece_added : List Piece → PreCommitEvent
  sector_add_piece_failed : String → PreCommitEvent
  sector_retry_wait_deals : PreCommitEvent
  sector_start_packing : PreCommitEvent
  sector_packed : List PieceInfo → PreCommitEvent
  sector_ticket : Bytes → ℕ → PreCommitEvent
  sector_old_ticket : PreCommitEvent
  sector_pre_commit1 : Bytes → PreCommitEvent
  sector_pre_commit2 : Cid → Cid → PreCommitEvent
  sector_pre_commit_batch : PreCommitEvent
  sector_pre_commit_batch_sent : String → PreCommitEvent
  sector_pre_commit_landed : Bytes → PreCommitEvent
  sector_seal_pre_commit1_failed : String → PreCommitEvent
  sector_seal_pre_commit2_failed : String → PreCommitEvent
  sector_chain_pre_commit_failed : String → PreCommitEvent
  sector_pre_committed : String → ℕ → SectorPreCommitInfo → PreCommitEvent

-- The normal path, from the seed on.
pub data CommitEvent : Type 0 where
  sector_seed_ready : Bytes → ℕ → CommitEvent
  sector_compute_proof_failed : String → CommitEvent
  sector_commit_failed : String → CommitEvent
  sector_retry_submit_commit : CommitEvent
  sector_deals_expired : String → CommitEvent
  sector_ticket_expired : String → CommitEvent
  sector_committed : Bytes → CommitEvent
  sector_proof_ready : Bytes → CommitEvent
  sector_submit_commit_aggregate : CommitEvent
  sector_commit_submitted : String → CommitEvent
  sector_commit_aggregate_sent : String → CommitEvent
  sector_proving : CommitEvent
  sector_finalized : CommitEvent
  sector_finalized_available : CommitEvent
  sector_retry_finalize : CommitEvent
  sector_finalize_failed : String → CommitEvent

-- The update of a committed-capacity sector.
pub data UpgradeEvent : Type 0 where
  sector_mark_for_update : UpgradeEvent
  sector_start_cc_update : UpgradeEvent
  sector_replica_update : Cid → Cid → UpgradeEvent
  sector_prove_replica_update : Bytes → UpgradeEvent
  sector_replica_update_submitted : String → UpgradeEvent
  sector_replica_update_landed : UpgradeEvent
  sector_update_active : UpgradeEvent
  sector_key_released : UpgradeEvent

-- Failed state recovery. A Go map is the list of its entries, in the order of the iteration.
pub data RecoveryEvent : Type 0 where
  sector_retry_seal_pre_commit1 : RecoveryEvent
  sector_retry_seal_pre_commit2 : RecoveryEvent
  sector_retry_pre_commit : RecoveryEvent
  sector_retry_wait_seed : RecoveryEvent
  sector_retry_pre_commit_wait : RecoveryEvent
  sector_retry_compute_proof : RecoveryEvent
  sector_retry_invalid_proof : RecoveryEvent
  sector_retry_commit_wait : RecoveryEvent
  sector_invalid_deal_ids : SectorState → RecoveryEvent
  sector_update_deal_ids : List (ℕ × ℕ) → RecoveryEvent

-- Failure and recovery of an update.
pub data UpgradeRecoveryEvent : Type 0 where
  sector_retry_replica_update : UpgradeRecoveryEvent
  sector_retry_prove_replica_update : UpgradeRecoveryEvent
  sector_update_replica_failed : String → UpgradeRecoveryEvent
  sector_prove_replica_update_failed : String → UpgradeRecoveryEvent
  sector_abort_upgrade : String → UpgradeRecoveryEvent
  sector_revert_upgrade_to_proving : UpgradeRecoveryEvent
  sector_retry_submit_replica_update_wait : UpgradeRecoveryEvent
  sector_retry_submit_replica_update : UpgradeRecoveryEvent
  sector_submit_replica_update_failed : UpgradeRecoveryEvent
  sector_release_key_failed : String → UpgradeRecoveryEvent

-- Faults, termination and removal.
pub data EndEvent : Type 0 where
  sector_faulty : EndEvent
  sector_fault_reported : String → EndEvent
  sector_terminating : String → EndEvent
  sector_terminated : ℕ → EndEvent
  sector_terminate_failed : String → EndEvent
  sector_removed : EndEvent
  sector_remove_failed : String → EndEvent

-- The implementations of `mutator`.
pub data Mutator : Type 0 where
  pre_commits : PreCommitEvent → Mutator
  commits : CommitEvent → Mutator
  upgrades : UpgradeEvent → Mutator
  recovers : RecoveryEvent → Mutator
  upgrade_recovers : UpgradeRecoveryEvent → Mutator
  ends : EndEvent → Mutator

-- `SectorFaultedFinal` implements neither interface.
pub data Event : Type 0 where
  global : GlobalEvent → Event
  mutator : Mutator → Event
  sector_faulted_final : Event

-- `reflect.TypeOf` of a mutator: the types of each group are numbered in order.
unfoldable pub pre_commit_type : PreCommitEvent → ℕ
pre_commit_type (sector_start _ _) = 0
pre_commit_type (sector_start_cc _ _) = 1
pre_commit_type sector_add_piece = 2
pre_commit_type (sector_piece_added _) = 3
pre_commit_type (sector_add_piece_failed _) = 4
pre_commit_type sector_retry_wait_deals = 5
pre_commit_type sector_start_packing = 6
pre_commit_type (sector_packed _) = 7
pre_commit_type (sector_ticket _ _) = 8
pre_commit_type sector_old_ticket = 9
pre_commit_type (sector_pre_commit1 _) = 10
pre_commit_type (sector_pre_commit2 _ _) = 11
pre_commit_type sector_pre_commit_batch = 12
pre_commit_type (sector_pre_commit_batch_sent _) = 13
pre_commit_type (sector_pre_commit_landed _) = 14
pre_commit_type (sector_seal_pre_commit1_failed _) = 15
pre_commit_type (sector_seal_pre_commit2_failed _) = 16
pre_commit_type (sector_chain_pre_commit_failed _) = 17
pre_commit_type (sector_pre_committed _ _ _) = 18

unfoldable pub commit_type : CommitEvent → ℕ
commit_type (sector_seed_ready _ _) = 19
commit_type (sector_compute_proof_failed _) = 20
commit_type (sector_commit_failed _) = 21
commit_type sector_retry_submit_commit = 22
commit_type (sector_deals_expired _) = 23
commit_type (sector_ticket_expired _) = 24
commit_type (sector_committed _) = 25
commit_type (sector_proof_ready _) = 26
commit_type sector_submit_commit_aggregate = 27
commit_type (sector_commit_submitted _) = 28
commit_type (sector_commit_aggregate_sent _) = 29
commit_type sector_proving = 30
commit_type sector_finalized = 31
commit_type sector_finalized_available = 32
commit_type sector_retry_finalize = 33
commit_type (sector_finalize_failed _) = 34

unfoldable pub upgrade_type : UpgradeEvent → ℕ
upgrade_type sector_mark_for_update = 35
upgrade_type sector_start_cc_update = 36
upgrade_type (sector_replica_update _ _) = 37
upgrade_type (sector_prove_replica_update _) = 38
upgrade_type (sector_replica_update_submitted _) = 39
upgrade_type sector_replica_update_landed = 40
upgrade_type sector_update_active = 41
upgrade_type sector_key_released = 42

unfoldable pub recovery_type : RecoveryEvent → ℕ
recovery_type sector_retry_seal_pre_commit1 = 43
recovery_type sector_retry_seal_pre_commit2 = 44
recovery_type sector_retry_pre_commit = 45
recovery_type sector_retry_wait_seed = 46
recovery_type sector_retry_pre_commit_wait = 47
recovery_type sector_retry_compute_proof = 48
recovery_type sector_retry_invalid_proof = 49
recovery_type sector_retry_commit_wait = 50
recovery_type (sector_invalid_deal_ids _) = 51
recovery_type (sector_update_deal_ids _) = 52

unfoldable pub upgrade_recovery_type : UpgradeRecoveryEvent → ℕ
upgrade_recovery_type sector_retry_replica_update = 53
upgrade_recovery_type sector_retry_prove_replica_update = 54
upgrade_recovery_type (sector_update_replica_failed _) = 55
upgrade_recovery_type (sector_prove_replica_update_failed _) = 56
upgrade_recovery_type (sector_abort_upgrade _) = 57
upgrade_recovery_type sector_revert_upgrade_to_proving = 58
upgrade_recovery_type sector_retry_submit_replica_update_wait = 59
upgrade_recovery_type sector_retry_submit_replica_update = 60
upgrade_recovery_type sector_submit_replica_update_failed = 61
upgrade_recovery_type (sector_release_key_failed _) = 62

unfoldable pub end_type : EndEvent → ℕ
end_type sector_faulty = 63
end_type (sector_fault_reported _) = 64
end_type (sector_terminating _) = 65
end_type (sector_terminated _) = 66
end_type (sector_terminate_failed _) = 67
end_type sector_removed = 68
end_type (sector_remove_failed _) = 69

unfoldable pub type_of : Mutator → ℕ
unfolding pre_commit_type commit_type upgrade_type recovery_type upgrade_recovery_type end_type
type_of (pre_commits e) = pre_commit_type e
type_of (commits e) = commit_type e
type_of (upgrades e) = upgrade_type e
type_of (recovers e) = recovery_type e
type_of (upgrade_recovers e) = upgrade_recovery_type e
type_of (ends e) = end_type e

unfoldable pub same_type : Mutator → Mutator → Bool
unfolding type_of
same_type a b = type_of a == type_of b

-- The implementations of `Ignorable`.
unfoldable pub is_ignorable : Mutator → Bool
is_ignorable (pre_commits sector_start_packing) = true
is_ignorable _ = false
