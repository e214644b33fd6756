-- ===== src/Fsm/States.antt =====
-- storage-sealing/fsm.go: which states a sector can reach, by which events.
use venus_sealer.Prelude.{
  ℕ, ◌≡◌, ◌≢◌, ◌↔◌, refl, Bool, true, false, not, ◌==◌, ◌&&◌, Option, none, some,
}
use venus_sealer.Sector.State.{
  SectorState, other, is_listed, undefined_sector_state, finalize_sector, proving, available,
  snap_deals_wait_deals, snap_deals_add_piece, snap_deals_packing, update_replica,
  prove_replica_update, submit_replica_update, replica_update_wait, finalize_replica_update,
  update_activating, release_sector_key, failed_unrecoverable, finalize_failed,
  snap_deals_add_piece_failed, snap_deals_deals_expired, snap_deals_recover_deal_ids, abort_upgrade,
  replica_update_failed, release_sector_key_failed, finalize_replica_update_failed, faulty,
  fault_reported, faulted_final, removed,
}
use venus_sealer.Sector.Info.{SectorInfo}
use venus_sealer.Sector.Event.{commits, sector_proving, type_of}
use venus_sealer.Fsm.Table.{fsm_planners}
use venus_sealer.Fsm.Dispatch.{handler_of}
use venus_sealer.Fsm.StateSet.{Admits, Stays, planner_stays, return_stays}
use venus_sealer.Fsm.Runs.{IsClosed, Runs, Runs-Stays}

abbrev pub is_found {ℓ} : {A : Type ℓ} → Option A → Bool
is_found none = false
is_found (some a) = true

-- A state that has an entry in `fsmPlanners`.
unfoldable pub is_planned : SectorState → Bool
is_planned st = is_found (fsm_planners st)

abbrev pub nothing_barred : ℕ → Bool
nothing_barred k = false

planned_closed :
    (st : SectorState)
    → is_planned st ≡ true
    → planner_stays is_planned nothing_barred (fsm_planners st) ≡ true
unfolding fsm_planners is_planned type_of
planned_closed undefined_sector_state h = refl
planned_closed (other t) h = cc
planned_closed _ h = refl

is_planned-IsClosed : IsClosed is_planned nothing_barred
unfolding is_planned fsm_planners
is_planned-IsClosed = record { planners = planned_closed; unpacks = λ h. refl }

-- A sector in a state that has a planner stays in such states, whatever batches of events it is
-- given, unless an event itself (SectorForceState, or SectorInvalidDealIDs with its return state)
-- names a state that has none.
pub Runs-planned :
    (s t : SectorInfo)
    → is_planned s.state ≡ true
    → return_stays is_planned nothing_barred s.return_state ≡ true
    → Runs (Admits is_planned nothing_barred) s t
    → is_planned t.state ≡ true
Runs-planned s t h k r =
    let kept =
      Runs-Stays is_planned nothing_barred is_planned-IsClosed
        (let r0 : Stays is_planned nothing_barred s = record { state_in = h; return_in = k } in r0)
        r in
    kept.state_in

-- The states of a sector that the chain has not been seen to prove.
unfoldable pub is_unproven : SectorState → Bool
is_unproven finalize_sector = false
is_unproven finalize_failed = false
is_unproven proving = false
is_unproven available = false
is_unproven snap_deals_wait_deals = false
is_unproven snap_deals_add_piece = false
is_unproven snap_deals_packing = false
is_unproven update_replica = false
is_unproven prove_replica_update = false
is_unproven submit_replica_update = false
is_unproven replica_update_wait = false
is_unproven finalize_replica_update = false
is_unproven update_activating = false
is_unproven release_sector_key = false
is_unproven snap_deals_add_piece_failed = false
is_unproven snap_deals_deals_expired = false
is_unproven snap_deals_recover_deal_ids = false
is_unproven abort_upgrade = false
is_unproven replica_update_failed = false
is_unproven release_sector_key_failed = false
is_unproven finalize_replica_update_failed = false
is_unproven faulty = false
is_unproven fault_reported = false
is_unproven faulted_final = false
is_unproven _ = true

-- Only SectorProving is left out.
abbrev pub proving_event : ℕ → Bool
proving_event k = k == type_of (commits sector_proving)

unproven_closed :
    (st : SectorState)
    → is_unproven st ≡ true
    → planner_stays is_unproven proving_event (fsm_planners st) ≡ true
unfolding fsm_planners is_unproven type_of
unproven_closed finalize_sector h = cc
unproven_closed finalize_failed h = cc
unproven_closed proving h = cc
unproven_closed available h = cc
unproven_closed snap_deals_wait_deals h = cc
unproven_closed snap_deals_add_piece h = cc
unproven_closed snap_deals_packing h = cc
unproven_closed update_replica h = cc
unproven_closed prove_replica_update h = cc
unproven_closed submit_replica_update h = cc
unproven_closed replica_update_wait h = cc
unproven_closed finalize_replica_update h = cc
unproven_closed update_activating h = cc
unproven_closed release_sector_key h = cc
unproven_closed snap_deals_add_piece_failed h = cc
unproven_closed snap_deals_deals_expired h = cc
unproven_closed snap_deals_recover_deal_ids h = cc
unproven_closed abort_upgrade h = cc
unproven_closed replica_update_failed h = cc
unproven_closed release_sector_key_failed h = cc
unproven_closed finalize_replica_update_failed h = cc
unproven_closed faulty h = cc
unproven_closed fault_reported h = cc
unproven_closed faulted_final h = cc
unproven_closed _ h = refl

is_unproven-IsClosed : IsClosed is_unproven proving_event
unfolding is_unproven
is_unproven-IsClosed = record { planners = unproven_closed; unpacks = λ h. refl }

-- A sector that is not yet proven, and has no proven state stored to return to, becomes finalized,
-- proven, available, updated or faulty only by SectorProving, or by an event that names such a state:
-- no run without these reaches one, whatever fails and is retried on the way.
pub Runs-unproven :
    (s t : SectorInfo)
    → is_unproven s.state ≡ true
    → return_stays is_unproven proving_event s.return_state ≡ true
    → Runs (Admits is_unproven proving_event) s t
    → is_unproven t.state ≡ true
Runs-unproven s t h k r =
    let kept =
      Runs-Stays is_unproven proving_event is_unproven-IsClosed
        (let r0 : Stays is_unproven proving_event s = record { state_in = h; return_in = k } in r0)
        r in
    kept.state_in

-- A state can be named by a user exactly if it has a planner, is not the undefined state of a new
-- sector, and is not ReleaseSectorKeyFailed, which the list leaves out.
pub is_listed-is_planned :
    (st : SectorState)
    → (is_listed st ≡ true)
      ↔ ((is_planned st ≡ true) × (st ≢ undefined_sector_state) × (st ≢ release_sector_key_failed))
unfolding is_listed is_planned fsm_planners
is_listed-is_planned undefined_sector_state = (λ h. cc, λ h. absurd (h.1 refl))
is_listed-is_planned release_sector_key_failed = (λ h. cc, λ h. absurd (h.2 refl))
is_listed-is_planned (other t) = (λ h. cc, λ h. cc h.0)
is_listed-is_planned _ = (λ h. (refl, λ e. cc, λ e. cc), λ h. refl)

-- The states for which `plan` has nothing to run.
abbrev pub is_idle : SectorState → Bool
is_idle undefined_sector_state = true
is_idle removed = true
is_idle failed_unrecoverable = true
is_idle faulted_final = true
is_idle _ = false

-- The states for which `plan` finds a handler are those that have a planner, less the undefined state,
-- Removed, FailedUnrecoverable and FaultedFinal.
pub handler_of-is_planned :
    (st : SectorState) → is_found (handler_of st) ≡ (is_planned st && not (is_idle st))
unfolding handler_of is_planned fsm_planners
handler_of-is_planned undefined_sector_state = refl
handler_of-is_planned _ = refl
