-- ===== src/Sector/Frame.antt =====
-- storage-sealing/fsm_events.go: which events write the state, the stored return state and the pieces
-- set aside for an update.
use mathlib.Core.Option.{some-injective}
use mathlib.Core.Path.{subst}
use venus_sealer.Prelude.{ℕ, ◌≡◌, refl, inl, inr, List, [], some, Option-cases}
use mathlib.Core.Option.{some-injective}
use venus_sealer.Sector.State.{SectorState}
use venus_sealer.Sector.Info.{SectorInfo, Piece}
use venus_sealer.Sector.Event.{
  PreCommitEvent, CommitEvent, UpgradeEvent, RecoveryEvent, UpgradeRecoveryEvent, EndEvent, Mutator,
  pre_commits, commits, upgrades, recovers, upgrade_recovers, ends, sector_start, sector_seed_ready,
  sector_start_cc_update, sector_update_deal_ids, sector_invalid_deal_ids,
  sector_revert_upgrade_to_proving, sector_fault_reported,
}
use venus_sealer.Sector.Apply.{
  apply, apply_pre_commit, apply_commit, apply_upgrade, apply_recovery, update_deal_ids,
  apply_upgrade_recovery, apply_end,
}

abbrev pub new_return : Mutator → SectorInfo → SectorState
new_return (recovers (sector_invalid_deal_ids r)) s = r
new_return _ s = s.return_state

abbrev pub new_cc_pieces : Mutator → SectorInfo → List Piece
new_cc_pieces (upgrades sector_start_cc_update) s = s.pieces
new_cc_pieces (upgrade_recovers sector_revert_upgrade_to_proving) s = []
new_cc_pieces _ s = s.cc_pieces

-- `s'` has the state of `s`, and the other two fields as the event leaves them.
pub record Frame (m : Mutator) (s s' : SectorInfo) : Type 0 where
  pub same_state : s'.state ≡ s.state
  pub returns : s'.return_state ≡ new_return m s
  pub set_aside : s'.cc_pieces ≡ new_cc_pieces m s

abbrev rfl :
    {m : Mutator} {s s' : SectorInfo}
    → s'.state ≡ s.state
    → s'.return_state ≡ new_return m s
    → s'.cc_pieces ≡ new_cc_pieces m s
    → Frame m s s'
rfl a b c = record { same_state = a; returns = b; set_aside = c }

apply_pre_commit-Frame :
    (now : ℕ) (e : PreCommitEvent) (s : SectorInfo)
    → Frame (pre_commits e) s (apply_pre_commit now e s)
unfolding apply_pre_commit
apply_pre_commit-Frame now (sector_start id ty) s = rfl refl refl refl
apply_pre_commit-Frame now _ s = rfl refl refl refl

apply_commit-Frame : (e : CommitEvent) (s : SectorInfo) → Frame (commits e) s (apply_commit e s)
unfolding apply_commit
apply_commit-Frame (sector_seed_ready v e) s = rfl refl refl refl
apply_commit-Frame _ s = rfl refl refl refl

apply_upgrade-Frame : (e : UpgradeEvent) (s : SectorInfo) → Frame (upgrades e) s (apply_upgrade e s)
unfolding apply_upgrade
apply_upgrade-Frame sector_start_cc_update s = rfl refl refl refl
apply_upgrade-Frame _ s = rfl refl refl refl

apply_upgrade_recovery-Frame :
    (e : UpgradeRecoveryEvent) (s : SectorInfo)
    → Frame (upgrade_recovers e) s (apply_upgrade_recovery e s)
unfolding apply_upgrade_recovery
apply_upgrade_recovery-Frame sector_revert_upgrade_to_proving s = rfl refl refl refl
apply_upgrade_recovery-Frame _ s = rfl refl refl refl

apply_end-Frame : (e : EndEvent) (s : SectorInfo) → Frame (ends e) s (apply_end e s)
unfolding apply_end
apply_end-Frame (sector_fault_reported m) s = rfl refl refl refl
apply_end-Frame _ s = rfl refl refl refl

of_eq :
    {m : Mutator} {s t : SectorInfo} (s' : SectorInfo)
    → some t ≡ some s'
    → Frame m s t
    → Frame m s s'
of_eq {m} {s} {t} s' h f = subst (Frame m s) (some-injective t s' h) f

apply_recovery-Frame :
    (e : RecoveryEvent) (s s' : SectorInfo) → apply_recovery e s ≡ some s' → Frame (recovers e) s s'
unfolding apply_recovery
apply_recovery-Frame (sector_update_deal_ids us) s s' h =
    elim (Option-cases (update_deal_ids us s.pieces)) [
      | inl e ↦ cc (rw (e, apply_recovery) at h)
      | inr (ps, e) ↦ of_eq s' (rw (e, apply_recovery) at h) (rfl refl refl refl)
    ]
apply_recovery-Frame _ s s' h = of_eq s' h (rfl refl refl refl)

-- What every mutator leaves alone: the state always, the return state unless the event is
-- `SectorInvalidDealIDs`, the pieces set aside unless it starts or reverts an update.
pub apply-Frame :
    (now : ℕ) (m : Mutator) (s s' : SectorInfo) → apply now m s ≡ some s' → Frame m s s'
unfolding apply
apply-Frame now (pre_commits e) s s' h = of_eq s' h (apply_pre_commit-Frame now e s)
apply-Frame now (commits e) s s' h = of_eq s' h (apply_commit-Frame e s)
apply-Frame now (upgrades e) s s' h = of_eq s' h (apply_upgrade-Frame e s)
apply-Frame now (recovers e) s s' h = apply_recovery-Frame e s s' h
apply-Frame now (upgrade_recovers e) s s' h = of_eq s' h (apply_upgrade_recovery-Frame e s)
apply-Frame now (ends e) s s' h = of_eq s' h (apply_end-Frame e s)
