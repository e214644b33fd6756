-- ===== src/Fsm/Table/Sealing.antt =====
-- storage-sealing/fsm.go: the planners of the sealing states.
use venus_sealer.Prelude.{[], ◌∷◌, Option, none, some}
use venus_sealer.Sector.State.{
  SectorState, add_piece, add_piece_failed, available, commit_aggregate_wait, commit_failed,
  commit_finalize, commit_finalize_failed, commit_wait, committing, deals_expired, empty,
  finalize_failed, finalize_sector, get_ticket, packing, pre_commit1, pre_commit2,
  pre_commit_batch_wait, pre_commit_failed, pre_commit_wait, pre_committing, proving,
  recover_deal_ids, seal_pre_commit1_failed, seal_pre_commit2_failed, submit_commit,
  submit_commit_aggregate, submit_pre_commit_batch, undefined_sector_state, wait_deals, wait_seed,
}
use venus_sealer.Sector.Info.{SectorPreCommitInfo}
use venus_sealer.Sector.Event.{
  commits, pre_commits, recovers, sector_add_piece, sector_add_piece_failed,
  sector_chain_pre_commit_failed, sector_commit_aggregate_sent, sector_commit_failed,
  sector_commit_submitted, sector_deals_expired, sector_finalize_failed, sector_finalized,
  sector_finalized_available, sector_invalid_deal_ids, sector_old_ticket, sector_packed,
  sector_piece_added, sector_pre_commit1, sector_pre_commit2, sector_pre_commit_batch,
  sector_pre_commit_batch_sent, sector_pre_commit_landed, sector_pre_committed, sector_proving,
  sector_retry_pre_commit, sector_retry_submit_commit, sector_seal_pre_commit1_failed,
  sector_seal_pre_commit2_failed, sector_seed_ready, sector_start, sector_start_cc,
  sector_start_packing, sector_submit_commit_aggregate, sector_ticket,
}
use venus_sealer.Fsm.Planner.{Planner, one, in_committing, on, applying}

abbrev zero_pre_commit_info : SectorPreCommitInfo
zero_pre_commit_info = record {
  sealed_cid = [];
  seal_rand_epoch = 0;
  deal_ids = [];
  expiration = 0;
}

-- Sealing.
unfoldable pub sealing_planners : SectorState → Option Planner
unfolding on applying
sealing_planners undefined_sector_state = some (
    one (
      on (pre_commits (sector_start 0 0)) wait_deals
      ∷ on (pre_commits (sector_start_cc 0 0)) packing
      ∷ []))
sealing_planners empty = some (
    one (
      on (pre_commits sector_add_piece) add_piece
      ∷ on (pre_commits sector_start_packing) packing
      ∷ []))
sealing_planners wait_deals = some (
    one (
      on (pre_commits sector_add_piece) add_piece
      ∷ on (pre_commits sector_start_packing) packing
      ∷ []))
sealing_planners add_piece = some (
    one (
      on (pre_commits (sector_piece_added [])) wait_deals
      ∷ applying (pre_commits sector_start_packing)
      ∷ applying (pre_commits sector_add_piece)
      ∷ on (pre_commits (sector_add_piece_failed "")) add_piece_failed
      ∷ []))
sealing_planners packing = some (one (on (pre_commits (sector_packed [])) get_ticket ∷ []))
sealing_planners get_ticket = some (
    one (
      on (pre_commits (sector_ticket [] 0)) pre_commit1
      ∷ on (commits (sector_commit_failed "")) commit_failed
      ∷ []))
sealing_planners pre_commit1 = some (
    one (
      on (pre_commits (sector_pre_commit1 [])) pre_commit2
      ∷ on (pre_commits (sector_seal_pre_commit1_failed "")) seal_pre_commit1_failed
      ∷ on (commits (sector_deals_expired "")) deals_expired
      ∷ on (recovers (sector_invalid_deal_ids undefined_sector_state)) recover_deal_ids
      ∷ on (pre_commits sector_old_ticket) get_ticket
      ∷ []))
sealing_planners pre_commit2 = some (
    one (
      on (pre_commits (sector_pre_commit2 [] [])) pre_committing
      ∷ on (pre_commits (sector_seal_pre_commit2_failed "")) seal_pre_commit2_failed
      ∷ on (pre_commits (sector_seal_pre_commit1_failed "")) seal_pre_commit1_failed
      ∷ on (pre_commits sector_old_ticket) get_ticket
      ∷ []))
sealing_planners pre_committing = some (
    one (
      on (pre_commits sector_pre_commit_batch) submit_pre_commit_batch
      ∷ on (pre_commits (sector_pre_committed "" 0 zero_pre_commit_info)) pre_commit_wait
      ∷ on (pre_commits (sector_seal_pre_commit1_failed "")) seal_pre_commit1_failed
      ∷ on (pre_commits (sector_chain_pre_commit_failed "")) pre_commit_failed
      ∷ on (pre_commits (sector_pre_commit_landed [])) wait_seed
      ∷ on (commits (sector_deals_expired "")) deals_expired
      ∷ on (recovers (sector_invalid_deal_ids undefined_sector_state)) recover_deal_ids
      ∷ []))
sealing_planners submit_pre_commit_batch = some (
    one (
      on (pre_commits (sector_pre_commit_batch_sent "")) pre_commit_batch_wait
      ∷ on (pre_commits (sector_seal_pre_commit1_failed "")) seal_pre_commit1_failed
      ∷ on (pre_commits (sector_chain_pre_commit_failed "")) pre_commit_failed
      ∷ on (pre_commits (sector_pre_commit_landed [])) wait_seed
      ∷ on (commits (sector_deals_expired "")) deals_expired
      ∷ on (recovers (sector_invalid_deal_ids undefined_sector_state)) recover_deal_ids
      ∷ []))
sealing_planners pre_commit_batch_wait = some (
    one (
      on (pre_commits (sector_chain_pre_commit_failed "")) pre_commit_failed
      ∷ on (pre_commits (sector_pre_commit_landed [])) wait_seed
      ∷ on (recovers sector_retry_pre_commit) pre_committing
      ∷ []))
sealing_planners pre_commit_wait = some (
    one (
      on (pre_commits (sector_chain_pre_commit_failed "")) pre_commit_failed
      ∷ on (pre_commits (sector_pre_commit_landed [])) wait_seed
      ∷ on (recovers sector_retry_pre_commit) pre_committing
      ∷ []))
sealing_planners wait_seed = some (
    one (
      on (commits (sector_seed_ready [] 0)) committing
      ∷ on (pre_commits (sector_chain_pre_commit_failed "")) pre_commit_failed
      ∷ []))
sealing_planners committing = some in_committing
sealing_planners commit_finalize = some (
    one (
      on (commits sector_finalized) submit_commit
      ∷ on (commits sector_finalized_available) submit_commit
      ∷ on (commits (sector_finalize_failed "")) commit_finalize_failed
      ∷ []))
sealing_planners submit_commit = some (
    one (
      on (commits (sector_commit_submitted "")) commit_wait
      ∷ on (commits sector_submit_commit_aggregate) submit_commit_aggregate
      ∷ on (commits (sector_commit_failed "")) commit_failed
      ∷ []))
sealing_planners submit_commit_aggregate = some (
    one (
      on (commits (sector_commit_aggregate_sent "")) commit_aggregate_wait
      ∷ on (commits (sector_commit_failed "")) commit_failed
      ∷ on (commits sector_retry_submit_commit) submit_commit
      ∷ []))
sealing_planners commit_wait = some (
    one (
      on (commits sector_proving) finalize_sector
      ∷ on (commits (sector_commit_failed "")) commit_failed
      ∷ on (commits sector_retry_submit_commit) submit_commit
      ∷ []))
sealing_planners commit_aggregate_wait = some (
    one (
      on (commits sector_proving) finalize_sector
      ∷ on (commits (sector_commit_failed "")) commit_failed
      ∷ on (commits sector_retry_submit_commit) submit_commit
      ∷ []))
sealing_planners finalize_sector = some (
    one (
      on (commits sector_finalized) proving
      ∷ on (commits sector_finalized_available) available
      ∷ on (commits (sector_finalize_failed "")) finalize_failed
      ∷ []))
sealing_planners _ = none
