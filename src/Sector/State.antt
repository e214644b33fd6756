-- ===== src/Sector/State.antt =====
-- types/sector_state.go: the states of a sector, and the tests that are made on them.
use text.Mathlib.Text.{◌==◌ as str_eq}
use venus_sealer.Prelude.{Bool, true, false, if◌then◌else◌, String}

-- A Go string type: one constructor for each constant; `other` holds a text that is none of them.
pub data SectorState : Type 0 where
  undefined_sector_state empty wait_deals add_piece packing get_ticket pre_commit1 : SectorState
  pre_commit2 pre_committing pre_commit_wait submit_pre_commit_batch pre_commit_batch_wait :
      SectorState
  wait_seed committing commit_finalize commit_finalize_failed submit_commit commit_wait :
      SectorState
  submit_commit_aggregate commit_aggregate_wait finalize_sector proving available : SectorState
  snap_deals_wait_deals snap_deals_add_piece snap_deals_packing update_replica : SectorState
  prove_replica_update submit_replica_update replica_update_wait finalize_replica_update :
      SectorState
  update_activating release_sector_key failed_unrecoverable add_piece_failed : SectorState
  seal_pre_commit1_failed seal_pre_commit2_failed pre_commit_failed compute_proof_failed :
      SectorState
  commit_failed packing_failed finalize_failed deals_expired recover_deal_ids : SectorState
  snap_deals_add_piece_failed snap_deals_deals_expired snap_deals_recover_deal_ids : SectorState
  abort_upgrade replica_update_failed release_sector_key_failed : SectorState
  finalize_replica_update_failed faulty fault_reported faulted_final terminating : SectorState
  terminate_wait terminate_finality terminate_failed removing remove_failed removed : SectorState
  other : String → SectorState

-- The text of each constant.
unfoldable pub name : SectorState → String
name undefined_sector_state = ""
name empty = "Empty"
name wait_deals = "WaitDeals"
name add_piece = "AddPiece"
name packing = "Packing"
name get_ticket = "GetTicket"
name pre_commit1 = "PreCommit1"
name pre_commit2 = "PreCommit2"
name pre_committing = "PreCommitting"
name pre_commit_wait = "PreCommitWait"
name submit_pre_commit_batch = "SubmitPreCommitBatch"
name pre_commit_batch_wait = "PreCommitBatchWait"
name wait_seed = "WaitSeed"
name committing = "Committing"
name commit_finalize = "CommitFinalize"
name commit_finalize_failed = "CommitFinalizeFailed"
name submit_commit = "SubmitCommit"
name commit_wait = "CommitWait"
name submit_commit_aggregate = "SubmitCommitAggregate"
name commit_aggregate_wait = "CommitAggregateWait"
name finalize_sector = "FinalizeSector"
name proving = "Proving"
name available = "Available"
name snap_deals_wait_deals = "SnapDealsWaitDeals"
name snap_deals_add_piece = "SnapDealsAddPiece"
name snap_deals_packing = "SnapDealsPacking"
name update_replica = "UpdateReplica"
name prove_replica_update = "ProveReplicaUpdate"
name submit_replica_update = "SubmitReplicaUpdate"
name replica_update_wait = "ReplicaUpdateWait"
name finalize_replica_update = "FinalizeReplicaUpdate"
name update_activating = "UpdateActivating"
name release_sector_key = "ReleaseSectorKey"
name failed_unrecoverable = "FailedUnrecoverable"
name add_piece_failed = "AddPieceFailed"
name seal_pre_commit1_failed = "SealPreCommit1Failed"
name seal_pre_commit2_failed = "SealPreCommit2Failed"
name pre_commit_failed = "PreCommitFailed"
name compute_proof_failed = "ComputeProofFailed"
name commit_failed = "CommitFailed"
name packing_failed = "PackingFailed"
name finalize_failed = "FinalizeFailed"
name deals_expired = "DealsExpired"
name recover_deal_ids = "RecoverDealIDs"
name snap_deals_add_piece_failed = "SnapDealsAddPieceFailed"
name snap_deals_deals_expired = "SnapDealsDealsExpired"
name snap_deals_recover_deal_ids = "SnapDealsRecoverDealIDs"
name abort_upgrade = "AbortUpgrade"
name replica_update_failed = "ReplicaUpdateFailed"
name release_sector_key_failed = "ReleaseSectorKeyFailed"
name finalize_replica_update_failed = "FinalizeReplicaUpdateFailed"
name faulty = "Faulty"
name fault_reported = "FaultReported"
name faulted_final = "FaultedFinal"
name terminating = "Terminating"
name terminate_wait = "TerminateWait"
name terminate_finality = "TerminateFinality"
name terminate_failed = "TerminateFailed"
name removing = "Removing"
name remove_failed = "RemoveFailed"
name removed = "Removed"
name (other s) = s

unfoldable pub same_state : SectorState → SectorState → Bool
unfolding name
same_state a b = str_eq (name a) (name b)

-- `_, ok := ExistSectorStateList[st]`, the states that a user may name.
unfoldable pub is_listed : SectorState → Bool
is_listed empty = true
is_listed wait_deals = true
is_listed packing = true
is_listed add_piece = true
is_listed add_piece_failed = true
is_listed get_ticket = true
is_listed pre_commit1 = true
is_listed pre_commit2 = true
is_listed pre_committing = true
is_listed pre_commit_wait = true
is_listed submit_pre_commit_batch = true
is_listed pre_commit_batch_wait = true
is_listed wait_seed = true
is_listed committing = true
is_listed commit_finalize = true
is_listed commit_finalize_failed = true
is_listed submit_commit = true
is_listed commit_wait = true
is_listed submit_commit_aggregate = true
is_listed commit_aggregate_wait = true
is_listed finalize_sector = true
is_listed proving = true
is_listed available = true
is_listed failed_unrecoverable = true
is_listed seal_pre_commit1_failed = true
is_listed seal_pre_commit2_failed = true
is_listed pre_commit_failed = true
is_listed compute_proof_failed = true
is_listed commit_failed = true
is_listed packing_failed = true
is_listed finalize_failed = true
is_listed deals_expired = true
is_listed recover_deal_ids = true
is_listed faulty = true
is_listed fault_reported = true
is_listed faulted_final = true
is_listed terminating = true
is_listed terminate_wait = true
is_listed terminate_finality = true
is_listed terminate_failed = true
is_listed removing = true
is_listed remove_failed = true
is_listed removed = true
is_listed snap_deals_wait_deals = true
is_listed snap_deals_add_piece = true
is_listed snap_deals_packing = true
is_listed update_replica = true
is_listed prove_replica_update = true
is_listed submit_replica_update = true
is_listed replica_update_wait = true
is_listed update_activating = true
is_listed release_sector_key = true
is_listed finalize_replica_update = true
is_listed snap_deals_add_piece_failed = true
is_listed snap_deals_deals_expired = true
is_listed snap_deals_recover_deal_ids = true
is_listed replica_update_failed = true
is_listed finalize_replica_update_failed = true
is_listed abort_upgrade = true
is_listed _ = false

pub data StatSectorState : Type 0 where
  sst_staging sst_sealing sst_failed sst_proving : StatSectorState

unfoldable pub to_stat_state : SectorState → Bool → StatSectorState
to_stat_state undefined_sector_state _ = sst_staging
to_stat_state empty _ = sst_staging
to_stat_state wait_deals _ = sst_staging
to_stat_state add_piece _ = sst_staging
to_stat_state add_piece_failed _ = sst_staging
to_stat_state snap_deals_wait_deals _ = sst_staging
to_stat_state snap_deals_add_piece _ = sst_staging
to_stat_state packing _ = sst_sealing
to_stat_state get_ticket _ = sst_sealing
to_stat_state pre_commit1 _ = sst_sealing
to_stat_state pre_commit2 _ = sst_sealing
to_stat_state pre_committing _ = sst_sealing
to_stat_state pre_commit_wait _ = sst_sealing
to_stat_state submit_pre_commit_batch _ = sst_sealing
to_stat_state pre_commit_batch_wait _ = sst_sealing
to_stat_state wait_seed _ = sst_sealing
to_stat_state committing _ = sst_sealing
to_stat_state commit_finalize _ = sst_sealing
to_stat_state finalize_sector _ = sst_sealing
to_stat_state snap_deals_packing _ = sst_sealing
to_stat_state update_replica _ = sst_sealing
to_stat_state prove_replica_update _ = sst_sealing
to_stat_state finalize_replica_update _ = sst_sealing
to_stat_state submit_commit fin_early = if fin_early then sst_proving else sst_sealing
to_stat_state commit_wait fin_early = if fin_early then sst_proving else sst_sealing
to_stat_state submit_commit_aggregate fin_early = if fin_early then sst_proving else sst_sealing
to_stat_state commit_aggregate_wait fin_early = if fin_early then sst_proving else sst_sealing
to_stat_state submit_replica_update fin_early = if fin_early then sst_proving else sst_sealing
to_stat_state replica_update_wait fin_early = if fin_early then sst_proving else sst_sealing
to_stat_state proving _ = sst_proving
to_stat_state available _ = sst_proving
to_stat_state update_activating _ = sst_proving
to_stat_state release_sector_key _ = sst_proving
to_stat_state removed _ = sst_proving
to_stat_state removing _ = sst_proving
to_stat_state terminating _ = sst_proving
to_stat_state terminate_wait _ = sst_proving
to_stat_state terminate_finality _ = sst_proving
to_stat_state terminate_failed _ = sst_proving
to_stat_state _ _ = sst_failed

unfoldable pub is_upgrade_state : SectorState → Bool
is_upgrade_state snap_deals_wait_deals = true
is_upgrade_state snap_deals_add_piece = true
is_upgrade_state snap_deals_packing = true
is_upgrade_state update_replica = true
is_upgrade_state prove_replica_update = true
is_upgrade_state submit_replica_update = true
is_upgrade_state snap_deals_add_piece_failed = true
is_upgrade_state snap_deals_deals_expired = true
is_upgrade_state snap_deals_recover_deal_ids = true
is_upgrade_state abort_upgrade = true
is_upgrade_state replica_update_failed = true
is_upgrade_state release_sector_key_failed = true
is_upgrade_state finalize_replica_update_failed = true
is_upgrade_state _ = false
