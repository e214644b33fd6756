-- ===== src/Fsm/Table/Upgrade.antt =====
-- storage-sealing/fsm.go: the planners of the update states and of their errors.
use venus_sealer.Prelude.{[], ◌∷◌, Option, none, some}
use venus_sealer.Sector.State.{
  SectorState, abort_upgrade, finalize_replica_update, finalize_replica_update_failed,
  prove_replica_update, proving, release_sector_key, release_sector_key_failed,
  replica_update_failed, replica_update_wait, snap_deals_add_piece, snap_deals_add_piece_failed,
  snap_deals_deals_expired, snap_deals_packing, snap_deals_recover_deal_ids, snap_deals_wait_deals,
  submit_replica_update, undefined_sector_state, update_activating, update_replica,
}
use venus_sealer.Sector.Event.{
  commits, pre_commits, recovers, sector_abort_upgrade, sector_add_piece, sector_add_piece_failed,
  sector_deals_expired, sector_finalize_failed, sector_finalized, sector_invalid_deal_ids,
  sector_key_released, sector_packed, sector_piece_added, sector_prove_replica_update,
  sector_prove_replica_update_failed, sector_release_key_failed, sector_replica_update,
  sector_replica_update_landed, sector_replica_update_submitted, sector_retry_finalize,
  sector_retry_prove_replica_update, sector_retry_replica_update,
  sector_retry_submit_replica_update, sector_retry_submit_replica_update_wait,
  sector_retry_wait_deals, sector_revert_upgrade_to_proving, sector_start_packing,
  sector_submit_replica_update_failed, sector_update_active, sector_update_deal_ids,
  sector_update_replica_failed, upgrade_recovers, upgrades,
}
use venus_sealer.Fsm.Planner.{Planner, one, one_or_ignore, on, applying}

-- Snap deals.
unfoldable pub snap_planners : SectorState → Option Planner
unfolding on applying
snap_planners snap_deals_wait_deals = some (
    one (
      on (pre_commits sector_add_piece) snap_deals_add_piece
      ∷ on (pre_commits sector_start_packing) snap_deals_packing
      ∷ on (upgrade_recovers (sector_abort_upgrade "")) abort_upgrade
      ∷ []))
snap_planners snap_deals_add_piece = some (
    one (
      on (pre_commits (sector_piece_added [])) snap_deals_wait_deals
      ∷ applying (pre_commits sector_start_packing)
      ∷ applying (pre_commits sector_add_piece)
      ∷ on (pre_commits (sector_add_piece_failed "")) snap_deals_add_piece_failed
      ∷ on (upgrade_recovers (sector_abort_upgrade "")) abort_upgrade
      ∷ []))
snap_planners snap_deals_packing = some (
    one (
      on (pre_commits (sector_packed [])) update_replica
      ∷ on (upgrade_recovers (sector_abort_upgrade "")) abort_upgrade
      ∷ []))
snap_planners update_replica = some (
    one (
      on (upgrades (sector_replica_update [] [])) prove_replica_update
      ∷ on (upgrade_recovers (sector_update_replica_failed "")) replica_update_failed
      ∷ on (commits (sector_deals_expired "")) snap_deals_deals_expired
      ∷ on (recovers (sector_invalid_deal_ids undefined_sector_state)) snap_deals_recover_deal_ids
      ∷ on (upgrade_recovers (sector_abort_upgrade "")) abort_upgrade
      ∷ []))
snap_planners prove_replica_update = some (
    one (
      on (upgrades (sector_prove_replica_update [])) finalize_replica_update
      ∷ on (upgrade_recovers (sector_prove_replica_update_failed "")) replica_update_failed
      ∷ on (commits (sector_deals_expired "")) snap_deals_deals_expired
      ∷ on (recovers (sector_invalid_deal_ids undefined_sector_state)) snap_deals_recover_deal_ids
      ∷ on (upgrade_recovers (sector_abort_upgrade "")) abort_upgrade
      ∷ []))
snap_planners finalize_replica_update = some (
    one (
      on (commits sector_finalized) submit_replica_update
      ∷ on (commits (sector_finalize_failed "")) finalize_replica_update_failed
      ∷ []))
snap_planners submit_replica_update = some (
    one (
      on (upgrades (sector_replica_update_submitted "")) replica_update_wait
      ∷ on (upgrade_recovers sector_submit_replica_update_failed) replica_update_failed
      ∷ []))
snap_planners replica_update_wait = some (
    one (
      on (upgrades sector_replica_update_landed) update_activating
      ∷ on (upgrade_recovers sector_submit_replica_update_failed) replica_update_failed
      ∷ on (upgrade_recovers (sector_abort_upgrade "")) abort_upgrade
      ∷ []))
snap_planners update_activating =
    some (one (on (upgrades sector_update_active) release_sector_key ∷ []))
snap_planners release_sector_key = some (
    one (
      on (upgrades sector_key_released) proving
      ∷ on (upgrade_recovers (sector_release_key_failed "")) release_sector_key_failed
      ∷ []))
snap_planners _ = none

-- Snap deals errors.
unfoldable pub snap_error_planners : SectorState → Option Planner
unfolding on applying
snap_error_planners snap_deals_add_piece_failed = some (
    one (
      on (pre_commits sector_retry_wait_deals) snap_deals_wait_deals
      ∷ applying (pre_commits sector_start_packing)
      ∷ applying (pre_commits sector_add_piece)
      ∷ on (upgrade_recovers (sector_abort_upgrade "")) abort_upgrade
      ∷ []))
snap_error_planners snap_deals_deals_expired =
    some (one (on (upgrade_recovers (sector_abort_upgrade "")) abort_upgrade ∷ []))
snap_error_planners snap_deals_recover_deal_ids = some (
    one (
      on (recovers (sector_update_deal_ids [])) submit_replica_update
      ∷ on (upgrade_recovers (sector_abort_upgrade "")) abort_upgrade
      ∷ []))
snap_error_planners abort_upgrade =
    some (one_or_ignore (on (upgrade_recovers sector_revert_upgrade_to_proving) proving ∷ []))
snap_error_planners replica_update_failed = some (
    one (
      on (upgrade_recovers sector_retry_submit_replica_update_wait) replica_update_wait
      ∷ on (upgrade_recovers sector_retry_submit_replica_update) submit_replica_update
      ∷ on (upgrade_recovers sector_retry_replica_update) update_replica
      ∷ on (upgrade_recovers sector_retry_prove_replica_update) prove_replica_update
      ∷ on (recovers (sector_invalid_deal_ids undefined_sector_state)) snap_deals_recover_deal_ids
      ∷ on (commits (sector_deals_expired "")) snap_deals_deals_expired
      ∷ on (upgrade_recovers (sector_abort_upgrade "")) abort_upgrade
      ∷ []))
snap_error_planners release_sector_key_failed =
    some (one (on (upgrades sector_update_active) release_sector_key ∷ []))
snap_error_planners finalize_replica_update_failed =
    some (one (on (commits sector_retry_finalize) finalize_replica_update ∷ []))
snap_error_planners _ = none
