-- ===== src/Fsm/Table/Rest.antt =====
-- storage-sealing/fsm.go: the planners of the sealing errors and of sealed sectors.
use venus_sealer.Prelude.{[], ◌∷◌, Option, none, some}
use venus_sealer.Sector.State.{
  SectorState, add_piece_failed, available, commit_failed, commit_finalize, commit_finalize_failed,
  commit_wait, committing, compute_proof_failed, deals_expired, failed_unrecoverable,
  fault_reported, faulted_final, faulty, finalize_failed, finalize_sector, packing_failed,
  pre_commit1, pre_commit2, pre_commit_failed, pre_commit_wait, pre_committing, proving,
  recover_deal_ids, remove_failed, removed, removing, seal_pre_commit1_failed,
  seal_pre_commit2_failed, snap_deals_wait_deals, submit_commit, terminate_failed,
  terminate_finality, terminate_wait, terminating, undefined_sector_state, wait_deals, wait_seed,
}
use venus_sealer.Sector.Event.{
  commits, ends, pre_commits, recovers, sector_abort_upgrade, sector_add_piece,
  sector_chain_pre_commit_failed, sector_deals_expired, sector_fault_reported, sector_faulty,
  sector_invalid_deal_ids, sector_mark_for_update, sector_pre_commit_landed, sector_remove_failed,
  sector_removed, sector_retry_commit_wait, sector_retry_compute_proof, sector_retry_finalize,
  sector_retry_invalid_proof, sector_retry_pre_commit, sector_retry_pre_commit_wait,
  sector_retry_seal_pre_commit1, sector_retry_seal_pre_commit2, sector_retry_submit_commit,
  sector_retry_wait_deals, sector_retry_wait_seed, sector_seal_pre_commit1_failed,
  sector_start_cc_update, sector_start_packing, sector_terminate_failed, sector_terminated,
  sector_terminating, sector_ticket_expired, sector_update_deal_ids, upgrade_recovers, upgrades,
}
use venus_sealer.Fsm.Planner.{
  Planner, one, one_or_ignore, in_final, in_removed, on, applying, on_returning,
}

-- Sealing errors.
unfoldable pub sealing_error_planners : SectorState → Option Planner
unfolding on applying on_returning
sealing_error_planners add_piece_failed = some (
    one (
      on (pre_commits sector_retry_wait_deals) wait_deals
      ∷ applying (pre_commits sector_start_packing)
      ∷ applying (pre_commits sector_add_piece)
      ∷ []))
sealing_error_planners seal_pre_commit1_failed =
    some (one (on (recovers sector_retry_seal_pre_commit1) pre_commit1 ∷ []))
sealing_error_planners seal_pre_commit2_failed = some (
    one (
      on (recovers sector_retry_seal_pre_commit1) pre_commit1
      ∷ on (recovers sector_retry_seal_pre_commit2) pre_commit2
      ∷ []))
sealing_error_planners pre_commit_failed = some (
    one (
      on (recovers sector_retry_pre_commit) pre_committing
      ∷ on (recovers sector_retry_pre_commit_wait) pre_commit_wait
      ∷ on (recovers sector_retry_wait_seed) wait_seed
      ∷ on (pre_commits (sector_seal_pre_commit1_failed "")) seal_pre_commit1_failed
      ∷ on (pre_commits (sector_pre_commit_landed [])) wait_seed
      ∷ on (commits (sector_deals_expired "")) deals_expired
      ∷ on (recovers (sector_invalid_deal_ids undefined_sector_state)) recover_deal_ids
      ∷ []))
sealing_error_planners compute_proof_failed = some (
    one (
      on (recovers sector_retry_compute_proof) committing
      ∷ on (pre_commits (sector_seal_pre_commit1_failed "")) seal_pre_commit1_failed
      ∷ []))
sealing_error_planners commit_finalize_failed =
    some (one (on (commits sector_retry_finalize) commit_finalize ∷ []))
sealing_error_planners commit_failed = some (
    one (
      on (pre_commits (sector_seal_pre_commit1_failed "")) seal_pre_commit1_failed
      ∷ on (recovers sector_retry_wait_seed) wait_seed
      ∷ on (recovers sector_retry_compute_proof) committing
      ∷ on (recovers sector_retry_invalid_proof) committing
      ∷ on (recovers sector_retry_pre_commit_wait) pre_commit_wait
      ∷ on (pre_commits (sector_chain_pre_commit_failed "")) pre_commit_failed
      ∷ on (recovers sector_retry_pre_commit) pre_committing
      ∷ on (recovers sector_retry_commit_wait) commit_wait
      ∷ on (commits sector_retry_submit_commit) submit_commit
      ∷ on (commits (sector_deals_expired "")) deals_expired
      ∷ on (recovers (sector_invalid_deal_ids undefined_sector_state)) recover_deal_ids
      ∷ on (commits (sector_ticket_expired "")) removing
      ∷ []))
sealing_error_planners finalize_failed =
    some (one (on (commits sector_retry_finalize) finalize_sector ∷ []))
sealing_error_planners packing_failed = some (one [])
sealing_error_planners deals_expired = some (one [])
sealing_error_planners recover_deal_ids =
    some (one (on_returning (recovers (sector_update_deal_ids [])) ∷ []))
sealing_error_planners _ = none

-- Post-seal.
unfoldable pub post_seal_planners : SectorState → Option Planner
unfolding on
post_seal_planners proving = some (
    one (
      on (ends (sector_fault_reported "")) fault_reported
      ∷ on (ends sector_faulty) faulty
      ∷ on (upgrades sector_mark_for_update) available
      ∷ []))
post_seal_planners available = some (
    one (
      on (upgrades sector_start_cc_update) snap_deals_wait_deals
      ∷ on (upgrade_recovers (sector_abort_upgrade "")) proving
      ∷ []))
post_seal_planners terminating = some (
    one (
      on (ends (sector_terminating "")) terminate_wait
      ∷ on (ends (sector_terminate_failed "")) terminate_failed
      ∷ []))
post_seal_planners terminate_wait = some (
    one (
      on (ends (sector_terminated 0)) terminate_finality
      ∷ on (ends (sector_terminate_failed "")) terminate_failed
      ∷ []))
post_seal_planners terminate_finality =
    some (one (on (ends (sector_terminate_failed "")) terminate_failed ∷ []))
post_seal_planners terminate_failed = some (one [])
post_seal_planners removing = some (
    one_or_ignore
      (on (ends sector_removed) removed ∷ on (ends (sector_remove_failed "")) remove_failed ∷ []))
post_seal_planners remove_failed = some (one [])
post_seal_planners faulty = some (one (on (ends (sector_fault_reported "")) fault_reported ∷ []))
post_seal_planners fault_reported = some in_final
post_seal_planners faulted_final = some in_final
post_seal_planners removed = some in_removed
post_seal_planners failed_unrecoverable = some in_final
post_seal_planners _ = none
