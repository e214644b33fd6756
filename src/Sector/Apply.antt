-- ===== src/Sector/Apply.antt =====
-- storage-sealing/fsm_events.go: what each event does to a sector's record. `now` is the Unix time.
use venus_sealer.Prelude.{
  ℕ, ◌+◌, Bool, true, false, ◌==◌, if◌then◌else◌, List, [], ◌∷◌, ◌++◌, map, Option, none, some, u64,
  get_elem?, set,
}
use venus_sealer.Sector.State.{terminating, removing}
use venus_sealer.Sector.Info.{Piece, PieceInfo, SectorInfo}
use venus_sealer.Sector.Event.{
  GlobalEvent, sector_restart, sector_fatal_error, sector_force_state, sector_terminate,
  sector_remove, PreCommitEvent, sector_start, sector_start_cc, sector_add_piece,
  sector_piece_added, sector_packed, sector_ticket, sector_pre_commit1, sector_pre_commit2,
  sector_pre_commit_batch_sent, sector_pre_commit_landed, sector_seal_pre_commit1_failed,
  sector_seal_pre_commit2_failed, sector_pre_committed, CommitEvent, sector_seed_ready,
  sector_committed, sector_proof_ready, sector_commit_submitted, sector_commit_aggregate_sent,
  UpgradeEvent, sector_start_cc_update, sector_replica_update, sector_prove_replica_update,
  sector_replica_update_submitted, RecoveryEvent, sector_retry_compute_proof,
  sector_retry_invalid_proof, sector_invalid_deal_ids, sector_update_deal_ids, UpgradeRecoveryEvent,
  sector_revert_upgrade_to_proving, EndEvent, sector_fault_reported, sector_terminating,
  sector_terminated, Mutator, pre_commits, commits, upgrades, recovers, upgrade_recovers, ends,
}

-- The Boolean tells the caller to stop processing events.
unfoldable pub apply_global : GlobalEvent → SectorInfo → SectorInfo × Bool
apply_global sector_restart s = (s, false)
apply_global (sector_fatal_error e) s = (s, true)
apply_global (sector_force_state st) s = (record s { state = st }, true)
apply_global sector_terminate s = (record s { state = terminating }, true)
apply_global sector_remove s = (record s { state = removing }, true)

-- Filler pieces have no deal.
unfoldable pub fillers : List PieceInfo → List Piece
fillers ps = map (λ p. record { piece = p; deal_info = none }) ps

unfoldable pub apply_pre_commit : ℕ → PreCommitEvent → SectorInfo → SectorInfo
unfolding fillers
apply_pre_commit now (sector_start id ty) s = record s { sector_number = id; sector_type = ty }
apply_pre_commit now (sector_start_cc id ty) s = record s { sector_number = id; sector_type = ty }
apply_pre_commit now sector_add_piece s = record s {
  creation_time = if s.creation_time == 0 then now else s.creation_time;
}
apply_pre_commit now (sector_piece_added ps) s = record s { pieces = s.pieces ++ ps }
apply_pre_commit now (sector_packed ps) s = record s { pieces = s.pieces ++ fillers ps }
apply_pre_commit now (sector_ticket v e) s = record s { ticket_value = v; ticket_epoch = e }
apply_pre_commit now (sector_pre_commit1 out) s = record s {
  pre_commit1_out = out;
  pre_commit2_fails = 0;
}
apply_pre_commit now (sector_pre_commit2 sealed unsealed) s = record s {
  comm_d = some unsealed;
  comm_r = some sealed;
}
apply_pre_commit now (sector_pre_commit_batch_sent m) s = record s { pre_commit_message = m }
apply_pre_commit now (sector_pre_commit_landed t) s = record s { pre_commit_tip_set = t }
apply_pre_commit now (sector_seal_pre_commit1_failed e) s = record s {
  invalid_proofs = 0;
  pre_commit2_fails = 0;
}
apply_pre_commit now (sector_seal_pre_commit2_failed e) s = record s {
  invalid_proofs = 0;
  pre_commit2_fails = u64 (s.pre_commit2_fails + 1);
}
apply_pre_commit now (sector_pre_committed m deposit info) s = record s {
  pre_commit_message = m;
  pre_commit_deposit = deposit;
  pre_commit_info = some info;
}
apply_pre_commit now _ s = s

unfoldable pub apply_commit : CommitEvent → SectorInfo → SectorInfo
apply_commit (sector_seed_ready v e) s = record s { seed_epoch = e; seed_value = v }
apply_commit (sector_committed p) s = record s { proof = p }
apply_commit (sector_proof_ready p) s = record s { proof = p }
apply_commit (sector_commit_submitted m) s = record s { commit_message = m }
apply_commit (sector_commit_aggregate_sent m) s = record s { commit_message = m }
apply_commit _ s = s

unfoldable pub apply_upgrade : UpgradeEvent → SectorInfo → SectorInfo
apply_upgrade sector_start_cc_update s = record s {
  cc_update = true;
  cc_pieces = s.pieces;
  pieces = [];
}
apply_upgrade (sector_replica_update sealed unsealed) s = record s {
  update_sealed = some sealed;
  update_unsealed = some unsealed;
}
apply_upgrade (sector_prove_replica_update p) s = record s { replica_update_proof = p }
apply_upgrade (sector_replica_update_submitted m) s = record s { replica_update_message = m }
apply_upgrade _ s = s

-- `pieces[i].DealInfo.DealID = id`: no such piece, or a piece with no deal, is a panic, `none`.
unfoldable pub set_deal_id : ℕ → ℕ → List Piece → Option (List Piece)
set_deal_id i id ps = elim (get_elem? ps i) [
  | none ↦ none
  | some p ↦ elim p.deal_info [
    | none ↦ none
    | some d ↦ some (set ps i (record p { deal_info = some (record d { deal_id = id }) }))
  ]
]

unfoldable pub update_deal_ids : List (ℕ × ℕ) → List Piece → Option (List Piece)
unfolding set_deal_id
update_deal_ids [] ps = some ps
update_deal_ids ((i, id) ∷ updates) ps = elim (set_deal_id i id ps) [
  | none ↦ none
  | some ps' ↦ update_deal_ids updates ps'
]

unfoldable pub apply_recovery : RecoveryEvent → SectorInfo → Option SectorInfo
unfolding update_deal_ids
apply_recovery sector_retry_compute_proof s =
    some (record s { invalid_proofs = u64 (s.invalid_proofs + 1) })
apply_recovery sector_retry_invalid_proof s =
    some (record s { invalid_proofs = u64 (s.invalid_proofs + 1) })
apply_recovery (sector_invalid_deal_ids r) s = some (record s { return_state = r })
apply_recovery (sector_update_deal_ids updates) s = elim (update_deal_ids updates s.pieces) [
  | none ↦ none
  | some ps ↦ some (record s { pieces = ps })
]
apply_recovery _ s = some s

unfoldable pub apply_upgrade_recovery : UpgradeRecoveryEvent → SectorInfo → SectorInfo
apply_upgrade_recovery sector_revert_upgrade_to_proving s = record s {
  cc_update = false;
  update_sealed = none;
  update_unsealed = none;
  replica_update_proof = [];
  replica_update_message = "";
  pieces = s.cc_pieces;
  cc_pieces = [];
}
apply_upgrade_recovery _ s = s

unfoldable pub apply_end : EndEvent → SectorInfo → SectorInfo
apply_end (sector_fault_reported m) s = record s { fault_report_msg = m }
apply_end (sector_terminating m) s = record s { terminate_message = m }
apply_end (sector_terminated at') s = record s { terminated_at = at' }
apply_end _ s = s

-- `mutator.apply`; `none` is a panic.
unfoldable pub apply : ℕ → Mutator → SectorInfo → Option SectorInfo
unfolding apply_pre_commit apply_commit apply_upgrade apply_recovery apply_upgrade_recovery
    apply_end
apply now (pre_commits e) s = some (apply_pre_commit now e s)
apply now (commits e) s = some (apply_commit e s)
apply now (upgrades e) s = some (apply_upgrade e s)
apply now (recovers e) s = apply_recovery e s
apply now (upgrade_recovers e) s = some (apply_upgrade_recovery e s)
apply now (ends e) s = some (apply_end e s)
