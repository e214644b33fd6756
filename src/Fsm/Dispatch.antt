-- ===== src/Fsm/Dispatch.antt =====
-- storage-sealing/fsm.go: `plan` and `Plan`, which run the planner of the sector's state and choose
-- the handler of the state that it reaches. The notifee, a callback of the owner, is left out.
use venus_sealer.Prelude.{ℕ, Bool, true, false, List, [], ◌∷◌, Option, none, some}
use venus_sealer.Config.{Config}
use venus_sealer.Sector.State.{
  SectorState, release_sector_key_failed, empty, wait_deals, add_piece, packing, get_ticket,
  pre_commit1, pre_commit2, pre_committing, submit_pre_commit_batch, pre_commit_batch_wait,
  pre_commit_wait, wait_seed, committing, submit_commit, submit_commit_aggregate,
  commit_aggregate_wait, commit_wait, commit_finalize, finalize_sector, snap_deals_wait_deals,
  snap_deals_add_piece, snap_deals_packing, update_replica, prove_replica_update,
  submit_replica_update, replica_update_wait, finalize_replica_update, update_activating,
  release_sector_key, add_piece_failed, seal_pre_commit1_failed, seal_pre_commit2_failed,
  pre_commit_failed, compute_proof_failed, commit_failed, commit_finalize_failed, finalize_failed,
  packing_failed, deals_expired, recover_deal_ids, snap_deals_add_piece_failed,
  snap_deals_deals_expired, snap_deals_recover_deal_ids, replica_update_failed,
  finalize_replica_update_failed, abort_upgrade, proving, available, terminating, terminate_wait,
  terminate_finality, terminate_failed, removing, remove_failed, faulty, fault_reported,
}
use venus_sealer.Sector.Info.{SectorInfo}
use venus_sealer.Sector.Event.{Event, global}
use venus_sealer.Stats.{SectorStats, update_sector}
use venus_sealer.Fsm.Planner.{
  PlanError, planner_not_found, log_failed, Planned, planned, panicked, Planner, one, run_planner,
}
use venus_sealer.Fsm.Table.{fsm_planners}

-- The methods that `plan` returns.
pub data Handler : Type 0 where
  handle_wait_deals handle_add_piece handle_packing handle_get_ticket : Handler
  handle_pre_commit1 handle_pre_commit2 handle_pre_committing : Handler
  handle_submit_pre_commit_batch handle_pre_commit_wait handle_wait_seed : Handler
  handle_committing handle_submit_commit handle_submit_commit_aggregate : Handler
  handle_commit_wait handle_finalize_sector handle_replica_update : Handler
  handle_prove_replica_update handle_submit_replica_update : Handler
  handle_replica_update_wait handle_finalize_replica_update : Handler
  handle_update_activating handle_release_sector_key handle_add_piece_failed : Handler
  handle_seal_precommit1_failed handle_seal_precommit2_failed : Handler
  handle_pre_commit_failed handle_compute_proof_failed handle_commit_failed : Handler
  handle_finalize_failed handle_deals_expired handle_recover_deal_ids : Handler
  handle_deals_expired_snap_deals handle_snap_deals_recover_deal_ids : Handler
  handle_submit_replica_update_failed handle_release_sector_key_failed : Handler
  handle_abort_upgrade handle_proving_sector handle_available_sector : Handler
  handle_terminating handle_terminate_wait handle_terminate_finality : Handler
  handle_terminate_failed handle_removing handle_remove_failed handle_faulty : Handler
  handle_fault_reported : Handler

-- The switch of `plan`; `none` is its `nil`.
unfoldable pub handler_of : SectorState → Option Handler
handler_of empty = some handle_wait_deals
handler_of wait_deals = some handle_wait_deals
handler_of add_piece = some handle_add_piece
handler_of packing = some handle_packing
handler_of get_ticket = some handle_get_ticket
handler_of pre_commit1 = some handle_pre_commit1
handler_of pre_commit2 = some handle_pre_commit2
handler_of pre_committing = some handle_pre_committing
handler_of submit_pre_commit_batch = some handle_submit_pre_commit_batch
handler_of pre_commit_batch_wait = some handle_pre_commit_wait
handler_of pre_commit_wait = some handle_pre_commit_wait
handler_of wait_seed = some handle_wait_seed
handler_of committing = some handle_committing
handler_of submit_commit = some handle_submit_commit
handler_of submit_commit_aggregate = some handle_submit_commit_aggregate
handler_of commit_aggregate_wait = some handle_commit_wait
handler_of commit_wait = some handle_commit_wait
handler_of commit_finalize = some handle_finalize_sector
handler_of finalize_sector = some handle_finalize_sector
handler_of snap_deals_wait_deals = some handle_wait_deals
handler_of snap_deals_add_piece = some handle_add_piece
handler_of snap_deals_packing = some handle_packing
handler_of update_replica = some handle_replica_update
handler_of prove_replica_update = some handle_prove_replica_update
handler_of submit_replica_update = some handle_submit_replica_update
handler_of replica_update_wait = some handle_replica_update_wait
handler_of finalize_replica_update = some handle_finalize_replica_update
handler_of update_activating = some handle_update_activating
handler_of release_sector_key = some handle_release_sector_key
handler_of add_piece_failed = some handle_add_piece_failed
handler_of seal_pre_commit1_failed = some handle_seal_precommit1_failed
handler_of seal_pre_commit2_failed = some handle_seal_precommit2_failed
handler_of pre_commit_failed = some handle_pre_commit_failed
handler_of compute_proof_failed = some handle_compute_proof_failed
handler_of commit_failed = some handle_commit_failed
handler_of commit_finalize_failed = some handle_finalize_failed
handler_of finalize_failed = some handle_finalize_failed
handler_of packing_failed = some handle_deals_expired
handler_of deals_expired = some handle_deals_expired
handler_of recover_deal_ids = some handle_recover_deal_ids
handler_of snap_deals_add_piece_failed = some handle_add_piece_failed
handler_of snap_deals_deals_expired = some handle_deals_expired_snap_deals
handler_of snap_deals_recover_deal_ids = some handle_snap_deals_recover_deal_ids
handler_of replica_update_failed = some handle_submit_replica_update_failed
handler_of release_sector_key_failed = some handle_release_sector_key_failed
handler_of finalize_replica_update_failed = some handle_finalize_failed
handler_of abort_upgrade = some handle_abort_upgrade
handler_of proving = some handle_proving_sector
handler_of available = some handle_available_sector
handler_of terminating = some handle_terminating
handler_of terminate_wait = some handle_terminate_wait
handler_of terminate_finality = some handle_terminate_finality
handler_of terminate_failed = some handle_terminate_failed
handler_of removing = some handle_removing
handler_of remove_failed = some handle_remove_failed
handler_of faulty = some handle_faulty
handler_of fault_reported = some handle_fault_reported
handler_of _ = none

-- A state with no planner still takes one global event.
unfoldable pub lone_global : List Event → Option Planner
lone_global (global g ∷ []) = some (one [])
lone_global _ = none

unfoldable pub planner_for : SectorState → List Event → Option Planner
unfolding lone_global
planner_for st events = elim (fsm_planners st) [ some p ↦ some p | none ↦ lone_global events ]

-- What `getConfig` does: it is nil in tests, and it may fail.
pub data ConfigSource : Type 0 where
  unset failing : ConfigSource
  loaded : Config → ConfigSource

-- An error is logged and dropped by the caller.
unfoldable pub on_update_sector : ConfigSource → SectorInfo → SectorStats → SectorStats × Bool
on_update_sector (loaded cfg) s ss = update_sector cfg s.sector_number s.state ss
on_update_sector _ s ss = (ss, false)

-- `update_input` says that `updateInput` is started beside.
pub record PlanResult : Type 0 where
  pub handler : Option Handler
  pub processed : ℕ
  pub error : Option PlanError
  pub sector : SectorInfo
  pub stats : SectorStats
  pub update_input : Bool

-- The deprecated state is rewritten by the switch.
unfoldable pub leave_packing_failed : SectorState → SectorInfo → SectorInfo
leave_packing_failed packing_failed s = record s { state = deals_expired }
leave_packing_failed _ s = s

-- The count that the switch returns, which is not the planner's in one state.
unfoldable pub reported : SectorState → ℕ → ℕ
reported release_sector_key_failed n = 0
reported _ n = n

unfoldable pub finish_plan : ConfigSource → SectorStats → Planned → Option PlanResult
unfolding handler_of on_update_sector leave_packing_failed reported
finish_plan src ss panicked = none
finish_plan src ss (planned n (some e) s) = some (record {
  handler = none;
  processed = n;
  error = some e;
  sector = s;
  stats = ss;
  update_input = false;
})
finish_plan src ss (planned n none s) = some (record {
  handler = handler_of s.state;
  processed = reported s.state n;
  error = none;
  sector = leave_packing_failed s.state s;
  stats = (on_update_sector src s ss).0;
  update_input = (on_update_sector src s ss).1;
})

abbrev refuse : PlanError → SectorInfo → SectorStats → Option PlanResult
refuse e s ss = some (record {
  handler = none;
  processed = 0;
  error = some e;
  sector = s;
  stats = ss;
  update_input = false;
})

-- `logged` says whether `logEvents` could append its entries. `none` is a panic.
unfoldable pub plan :
    ConfigSource → Bool → ℕ → List Event → SectorInfo → SectorStats → Option PlanResult
unfolding planner_for finish_plan
plan src false now events s ss = refuse log_failed s ss
plan src true now events s ss = elim (planner_for s.state events) [
  | none ↦ refuse planner_not_found s ss
  | some p ↦ finish_plan src ss (run_planner now p events s)
]

abbrev hide_error : PlanResult → PlanResult
hide_error r = record r { error = none }

-- `Plan`: an error is logged, and neither it nor a handler is returned.
unfoldable pub plan_logged :
    ConfigSource → Bool → ℕ → List Event → SectorInfo → SectorStats → Option PlanResult
unfolding plan
plan_logged src logged now events s ss = elim (plan src logged now events s ss) [
  | none ↦ none
  | some r ↦ some (hide_error r)
]
