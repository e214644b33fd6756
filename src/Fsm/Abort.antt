-- ===== src/Fsm/Abort.antt =====
-- storage-sealing/fsm.go: an aborted update gives a sector its pieces back.
use mathlib.Core.Option.{some-injective}
use venus_sealer.Prelude.{
  ℕ, ◌≡◌, refl, sym, ap, ◌∙◌, inl, inr, Bool, true, false, List, [], ◌∷◌, Option, none, some,
  Option-cases,
}
use venus_sealer.Sector.State.{
  SectorState, available, abort_upgrade, proving, snap_deals_wait_deals, packing_failed,
}
use venus_sealer.Sector.Info.{SectorInfo, Piece}
use venus_sealer.Sector.Event.{
  Event, global, mutator, sector_faulted_final, upgrades, upgrade_recovers, sector_start_cc_update,
  sector_abort_upgrade, sector_revert_upgrade_to_proving, type_of, same_type,
}
use venus_sealer.Sector.Apply.{apply}
use venus_sealer.Stats.{SectorStats}
use venus_sealer.Fsm.Planner.{
  Planner, one, one_or_ignore, on, plan_one, plan_one_or_ignore, run_planner, next, find_action,
}
use venus_sealer.Fsm.Table.{fsm_planners}
use venus_sealer.Fsm.Dispatch.{
  ConfigSource, PlanResult, leave_packing_failed, lone_global, planner_for, finish_plan, plan,
}
use venus_sealer.Fsm.Runs.{plan-keeps}
use venus_sealer.Fsm.Removal.{plan_found}
use venus_sealer.Fsm.Upgrade.{
  planner_keeps, is_between, between_keeps, SetAside, run_planner-SetAside,
}

lone_global-keeps :
    (es : List Event) (p : Planner) → lone_global es ≡ some p → planner_keeps (some p) ≡ true
unfolding lone_global
lone_global-keeps (global g ∷ []) p e = rw (← some-injective _ p e) refl
lone_global-keeps [] p e = cc
lone_global-keeps (global g ∷ x ∷ es) p e = cc
lone_global-keeps (mutator m ∷ es) p e = cc
lone_global-keeps (sector_faulted_final ∷ es) p e = cc

planner_for-keeps :
    (st : SectorState) (es : List Event) (p : Planner)
    → is_between st ≡ true
    → planner_for st es ≡ some p
    → planner_keeps (some p) ≡ true
unfolding planner_for
planner_for-keeps st es p b e = elim (Option-cases (fsm_planners st)) [
  | inl missing ↦ lone_global-keeps es p (rw (missing, planner_for) at e)
  | inr (q, found) ↦
      rw (← some-injective q p (rw (found, planner_for) at e)) (rw found at (between_keeps st b))
]

leave-SetAside :
    (cs : List Piece) (st : SectorState) (s : SectorInfo)
    → SetAside cs s
    → SetAside cs (leave_packing_failed st s)
unfolding leave_packing_failed
leave-SetAside cs packing_failed s h = h
leave-SetAside cs _ s h = h

plan-SetAside :
    (cs : List Piece) (src : ConfigSource) (logged : Bool) (now : ℕ) (es : List Event)
    (s : SectorInfo) (ss : SectorStats) (r : PlanResult)
    → is_between s.state ≡ true
    → SetAside cs s
    → plan src logged now es s ss ≡ some r
    → SetAside cs r.sector
plan-SetAside cs src logged now es s ss r b h e =
    plan-keeps (SetAside cs) src logged now es s ss r (λ t. leave-SetAside cs t.state t)
      (λ p found. run_planner-SetAside cs now p es s (planner_for-keeps s.state es p b found) h) h e

-- A sector's history from the start of an update to where it is aborted: any batches of any events,
-- as long as the sector does not stand in Available or AbortUpgrade when one is planned.
pub data Between (s : SectorInfo) : SectorInfo → Type 0 where
  start : Between s s
  batch :
      {t u : SectorInfo} (src : ConfigSource) (logged : Bool) (now : ℕ) (es : List Event)
      (ss : SectorStats) (r : PlanResult)
      → Between s t
      → is_between t.state ≡ true
      → plan src logged now es t ss ≡ some r
      → r.sector ≡ u
      → Between s u

Between-SetAside :
    {cs : List Piece} {s t : SectorInfo} → SetAside cs s → Between s t → SetAside cs t
Between-SetAside h start = h
Between-SetAside {cs} h (batch {t = t} src logged now es ss r before b e u) =
    rw (← u) (plan-SetAside cs src logged now es t ss r b (Between-SetAside h before) e)

-- An Available sector that starts an update is set to wait for deals, with its pieces put aside.
pub plan-start_cc_update :
    (src : ConfigSource) (now : ℕ) (s : SectorInfo) (ss : SectorStats)
    → s.state ≡ available
    → (r : PlanResult) × (plan src true now (mutator (upgrades sector_start_cc_update) ∷ []) s ss
        ≡ some r)
      × (r.sector ≡ record s {
        state = snap_deals_wait_deals;
        cc_update = true;
        cc_pieces = s.pieces;
        pieces = [];
      })
unfolding finish_plan fsm_planners planner_for run_planner plan_one apply next find_action type_of
    same_type on
plan-start_cc_update src now s ss h =
    let p : Planner = one (
      on (upgrades sector_start_cc_update) snap_deals_wait_deals
      ∷ on (upgrade_recovers (sector_abort_upgrade "")) proving
      ∷ []) in
    (_, plan_found src now _ s ss p (rw (h, planner_for) refl), refl)

-- In AbortUpgrade, the event that reverts the update puts the pieces that were set aside in place of
-- the sector's pieces, clears what the update had written, and takes the sector to Proving.
pub plan-revert_upgrade :
    (src : ConfigSource) (now : ℕ) (s : SectorInfo) (ss : SectorStats)
    → s.state ≡ abort_upgrade
    → (r : PlanResult) × (plan src true now
          (mutator (upgrade_recovers sector_revert_upgrade_to_proving) ∷ [])
          s
          ss
        ≡ some r)
      × (r.sector ≡ record s {
        state = proving;
        cc_update = false;
        update_sealed = none;
        update_unsealed = none;
        replica_update_proof = [];
        replica_update_message = "";
        pieces = s.cc_pieces;
        cc_pieces = [];
      })
unfolding finish_plan fsm_planners planner_for run_planner plan_one_or_ignore plan_one apply next
    find_action type_of same_type on
plan-revert_upgrade src now s ss h =
    let p : Planner =
      one_or_ignore (on (upgrade_recovers sector_revert_upgrade_to_proving) proving ∷ []) in
    (_, plan_found src now _ s ss p (rw (h, planner_for) refl), refl)

same_sector :
    (o : Option PlanResult) (r r' : PlanResult) → o ≡ some r → o ≡ some r' → r.sector ≡ r'.sector
same_sector o r r' e e' = ap (λ (x : PlanResult). x.sector) (some-injective r r' (sym e ∙ e'))

-- An update that is aborted gives the sector its pieces back. Start one in Available, let any batches
-- of any events follow while the sector is neither in Available nor in AbortUpgrade, and revert it
-- once it stands in AbortUpgrade: the sector is in Proving, with exactly the pieces that it had before
-- the update, not marked as updated, and with no update commitment, proof or message left.
pub abort_restores :
    (src : ConfigSource) (now later : ℕ) (ss ss' : SectorStats) (s t : SectorInfo)
    (begun ended : PlanResult)
    → s.state ≡ available
    → plan src true now (mutator (upgrades sector_start_cc_update) ∷ []) s ss ≡ some begun
    → Between begun.sector t
    → t.state ≡ abort_upgrade
    → plan src true later (mutator (upgrade_recovers sector_revert_upgrade_to_proving) ∷ []) t ss'
      ≡ some ended
    → (ended.sector.state ≡ proving)
      × (ended.sector.pieces ≡ s.pieces)
      × (ended.sector.cc_update ≡ false)
      × (ended.sector.update_sealed ≡ none)
      × (ended.sector.update_unsealed ≡ none)
      × (ended.sector.replica_update_proof ≡ [])
      × (ended.sector.replica_update_message ≡ "")
abort_restores src now later ss ss' s t begun ended a b between at_abort e =
    let (r, run, made) = plan-start_cc_update src now s ss a in
    let (r', run', left) = plan-revert_upgrade src later t ss' at_abort in
    let first = sym (same_sector _ r begun run b) ∙ made in
    let last = sym (same_sector _ r' ended run' e) ∙ left in
    let kept : t.cc_pieces ≡ s.pieces =
      Between-SetAside {cs = s.pieces} (ap (λ (x : SectorInfo). x.cc_pieces) first) between in
    (
      ap (λ (x : SectorInfo). x.state) last,
      ap (λ (x : SectorInfo). x.pieces) last ∙ kept,
      ap (λ (x : SectorInfo). x.cc_update) last,
      ap (λ (x : SectorInfo). x.update_sealed) last,
      ap (λ (x : SectorInfo). x.update_unsealed) last,
      ap (λ (x : SectorInfo). x.replica_update_proof) last,
      ap (λ (x : SectorInfo). x.replica_update_message) last,
    )
