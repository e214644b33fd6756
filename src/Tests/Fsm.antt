-- ===== src/Tests/Fsm.antt =====
-- The theorems on storage-sealing/fsm.go at concrete sectors.
use venus_sealer.Prelude.{◌≡◌, ◌≢◌, ◌↔◌, refl, true, false, [], ◌∷◌, none, some}
use venus_sealer.Sector.State.{
  undefined_sector_state, wait_deals, packing, available, abort_upgrade, proving,
  snap_deals_wait_deals, removed, pre_commit1, recover_deal_ids, release_sector_key,
  release_sector_key_failed, is_listed, other,
}
use venus_sealer.Sector.Info.{SectorInfo, Piece, PieceDealInfo, zero_info}
use venus_sealer.Sector.Event.{
  mutator, sector_faulted_final, pre_commits, commits, upgrades, upgrade_recovers, sector_start,
  sector_start_packing, sector_commit_failed, sector_start_cc_update, sector_abort_upgrade,
  sector_revert_upgrade_to_proving, type_of, same_type,
}
use venus_sealer.Sector.Apply.{apply, update_deal_ids}
use venus_sealer.Stats.{zero_stats}
use venus_sealer.Fsm.Planner.{
  in_committing, run_planner, plan_one, next, is_undefined, find_action, on, plan_one_or_ignore,
}
use venus_sealer.Fsm.Table.{fsm_planners}
use venus_sealer.Fsm.Dispatch.{
  PlanResult, unset, plan, handle_wait_deals, handle_abort_upgrade, handle_proving_sector,
  handle_packing,
}
use venus_sealer.Fsm.Runs.{Runs}
use venus_sealer.Fsm.Progress.{Counts, run_planner-Counts}
use venus_sealer.Fsm.States.{
  is_planned, is_listed-is_planned, Runs-planned, is_unproven, Runs-unproven,
}
use venus_sealer.Fsm.Abort.{Between, abort_restores}
use venus_sealer.Fsm.Abort
use venus_sealer.Fsm.Upgrade.{is_between}

abbrev deal : PieceDealInfo
deal = record {
  deal_id = 7;
  deal_schedule = record { start_epoch = 100; end_epoch = 900 };
  keep_unsealed = false;
}

abbrev filler : Piece
filler = record { piece = record { size = 2048; piece_cid = 1 ∷ [] }; deal_info = none }

abbrev deal_piece : Piece
deal_piece = record { piece = record { size = 2048; piece_cid = 2 ∷ [] }; deal_info = some deal }

-- A committed-capacity sector whose update is started and aborted.
abbrev idle : SectorInfo
idle = record zero_info { state = available; pieces = filler ∷ [] }

abbrev updating : SectorInfo
updating = record idle {
  state = snap_deals_wait_deals;
  cc_update = true;
  cc_pieces = filler ∷ [];
  pieces = [];
}

abbrev aborting : SectorInfo
aborting = record updating { state = abort_upgrade }

abbrev reverted : SectorInfo
reverted = record idle { state = proving }

abbrev begun : PlanResult
begun = record {
  handler = some handle_wait_deals;
  processed = 1;
  error = none;
  sector = updating;
  stats = zero_stats;
  update_input = false;
}

abbrev aborted : PlanResult
aborted = record begun { handler = some handle_abort_upgrade; sector = aborting }

abbrev ended : PlanResult
ended = record begun { handler = some handle_proving_sector; sector = reverted }

run_aborted :
    plan unset true 5
      (mutator (upgrade_recovers (sector_abort_upgrade "no deals")) ∷ [])
      updating
      zero_stats
    ≡ some aborted
unfolding plan fsm_planners run_planner plan_one apply next find_action type_of same_type on
run_aborted = refl

run_begun :
    plan unset true 4 (mutator (upgrades sector_start_cc_update) ∷ []) idle zero_stats ≡ some begun
unfolding plan fsm_planners run_planner plan_one apply next find_action type_of same_type on
run_begun = refl

run_ended :
    plan unset true 6
      (mutator (upgrade_recovers sector_revert_upgrade_to_proving) ∷ [])
      aborting
      zero_stats
    ≡ some ended
unfolding plan fsm_planners run_planner plan_one plan_one_or_ignore apply next find_action type_of
    same_type on
run_ended = refl

abort-Between : Between updating aborting
unfolding is_between
abort-Between = Abort.batch unset true 5 _ zero_stats aborted Abort.start refl run_aborted refl

abort_restores_example :
    (reverted.state ≡ proving)
    × (reverted.pieces ≡ filler ∷ [])
    × (reverted.cc_update ≡ false)
    × (reverted.update_sealed ≡ none)
    × (reverted.update_unsealed ≡ none)
    × (reverted.replica_update_proof ≡ [])
    × (reverted.replica_update_message ≡ "")
abort_restores_example =
    abort_restores unset 4 6 zero_stats zero_stats idle aborting begun ended refl run_begun
      abort-Between refl run_ended

-- A new sector starts, and two events of one batch are planned in two calls.
abbrev started : SectorInfo
started = record zero_info { state = wait_deals; sector_number = 7; sector_type = 3 }

abbrev packed : SectorInfo
packed = record started { state = packing }

abbrev first_result : PlanResult
first_result = record begun { sector = started }

abbrev second_result : PlanResult
second_result = record begun { handler = some handle_packing; sector = packed }

run_start :
    plan unset true 1 (mutator (pre_commits (sector_start 7 3)) ∷ []) zero_info zero_stats
    ≡ some first_result
unfolding plan fsm_planners run_planner plan_one apply next find_action type_of same_type on
run_start = refl

run_packing :
    plan unset true 2
      (mutator (pre_commits sector_start_packing) ∷ mutator (pre_commits sector_start_packing) ∷ [])
      started
      zero_stats
    ≡ some second_result
unfolding plan fsm_planners run_planner plan_one apply next find_action type_of same_type on
run_packing = refl

Runs-planned_example : is_planned packing ≡ true
unfolding is_planned fsm_planners is_undefined
Runs-planned_example = Runs-planned zero_info packed refl refl (
    Runs.batch unset true 2 _ zero_stats second_result
      (Runs.batch unset true 1 _ zero_stats first_result Runs.start ((refl, tt), tt) run_start refl)
      ((refl, tt), ((refl, tt), tt)) run_packing refl)

Runs-unproven_example : is_unproven packing ≡ true
unfolding is_unproven type_of is_undefined
Runs-unproven_example = Runs-unproven zero_info packed refl refl (
    Runs.batch unset true 2 _ zero_stats second_result
      (Runs.batch unset true 1 _ zero_stats first_result Runs.start ((refl, tt), tt) run_start refl)
      ((refl, tt), ((refl, tt), tt)) run_packing refl)

run_planner-Counts_example : Counts 1 2 (
    run_planner 0 in_committing
      (mutator (commits (sector_commit_failed "")) ∷ sector_faulted_final ∷ [])
      zero_info)
run_planner-Counts_example =
    run_planner-Counts 0 in_committing
      (mutator (commits (sector_commit_failed "")) ∷ sector_faulted_final ∷ []) zero_info

abbrev releasing : SectorInfo
releasing = record started { state = release_sector_key }

is_listed-is_planned_example : (is_listed proving ≡ true) ↔ (
    (is_planned proving ≡ true)
    × (proving ≢ undefined_sector_state)
    × (proving ≢ release_sector_key_failed))
is_listed-is_planned_example = is_listed-is_planned proving

abbrev lost : SectorInfo
lost = record started { state = other "Lost" }

abbrev gone : SectorInfo
gone = record started { state = removed }

abbrev with_deal : SectorInfo
with_deal = record started { state = pre_commit1; pieces = filler ∷ deal_piece ∷ [] }

abbrev new_deal : Piece
new_deal = record deal_piece { deal_info = some (record deal { deal_id = 8 }) }

run_updates :
    update_deal_ids ((1, 8) ∷ []) (filler ∷ deal_piece ∷ []) ≡ some (filler ∷ new_deal ∷ [])
unfolding update_deal_ids
run_updates = refl

abbrev stranded : SectorInfo
stranded = record with_deal { state = recover_deal_ids }

run_no_deal : update_deal_ids ((0, 8) ∷ []) (filler ∷ deal_piece ∷ []) ≡ none
unfolding update_deal_ids
run_no_deal = refl
