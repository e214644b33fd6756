-- ===== src/Fsm/Recovery.antt =====
-- storage-sealing/fsm.go: the repair of deal IDs and the failure counters.
use venus_sealer.Prelude.{
  ℕ, ◌+◌, ◌≡◌, refl, ◌∙◌, Bool, true, false, List, [], ◌∷◌, Option, none, some, String,
}
use venus_sealer.Sector.State.{
  SectorState, undefined_sector_state, recover_deal_ids, pre_commit1, pre_commit2, pre_committing,
  submit_pre_commit_batch, pre_commit_failed, commit_failed, committing, compute_proof_failed,
  seal_pre_commit1_failed,
}
use venus_sealer.Sector.Info.{SectorInfo, Piece}
use venus_sealer.Sector.Event.{
  Event, mutator, recovers, pre_commits, sector_invalid_deal_ids, sector_update_deal_ids,
  sector_seal_pre_commit1_failed, type_of, same_type,
}
use venus_sealer.Sector.Apply.{apply, apply_recovery, update_deal_ids}
use venus_sealer.Fsm.Planner.{
  Planned, planned, panicked, returning, Planner, on, on_returning, plan_one, plan_committing,
  advance, run_planner, next, is_undefined, find_action, return_not_set,
}
use venus_sealer.Fsm.Table.{fsm_planners}

-- The states in which SectorInvalidDealIDs sends a sector to RecoverDealIDs.
unfoldable pub may_recover : SectorState → Bool
may_recover pre_commit1 = true
may_recover pre_committing = true
may_recover submit_pre_commit_batch = true
may_recover pre_commit_failed = true
may_recover commit_failed = true
may_recover _ = false

-- A planner, run on one event.
abbrev pub step_with : ℕ → Option Planner → Event → SectorInfo → Planned
step_with now none e s = panicked
step_with now (some p) e s = run_planner now p (e ∷ []) s

-- The planner of the sector's state, run on one event.
abbrev pub step : ℕ → Event → SectorInfo → Planned
step now e s = step_with now (fsm_planners s.state) e s

enter_recovery :
    (now : ℕ) (st r : SectorState) (s : SectorInfo)
    → may_recover st ≡ true
    → step_with now (fsm_planners st) (mutator (recovers (sector_invalid_deal_ids r))) s
      ≡ planned 1 none (record s { state = recover_deal_ids; return_state = r })
unfolding may_recover fsm_planners run_planner plan_one find_action type_of same_type apply next on
enter_recovery now pre_commit1 r s h = refl
enter_recovery now pre_committing r s h = refl
enter_recovery now submit_pre_commit_batch r s h = refl
enter_recovery now pre_commit_failed r s h = refl
enter_recovery now commit_failed r s h = refl
enter_recovery now _ r s h = cc

apply_updates :
    (us : List (ℕ × ℕ)) (s : SectorInfo) (ps : List Piece)
    → update_deal_ids us s.pieces ≡ some ps
    → apply_recovery (sector_update_deal_ids us) s ≡ some (record s { pieces = ps })
unfolding apply_recovery
apply_updates us s ps e = rw (e, apply_recovery)

apply_updates_none :
    (us : List (ℕ × ℕ)) (s : SectorInfo)
    → update_deal_ids us s.pieces ≡ none
    → apply_recovery (sector_update_deal_ids us) s ≡ none
unfolding apply_recovery
apply_updates_none us s e = rw (e, apply_recovery)

-- In RecoverDealIDs, SectorUpdateDealIDs is the event's record handed to `onReturning`.
step_repair :
    (now : ℕ) (us : List (ℕ × ℕ)) (s : SectorInfo)
    → s.state ≡ recover_deal_ids
    → step now (mutator (recovers (sector_update_deal_ids us))) s
      ≡ advance 0 returning (apply_recovery (sector_update_deal_ids us) s) (λ t. planned 1 none t)
unfolding fsm_planners run_planner plan_one find_action type_of same_type apply on_returning
step_repair now us s h = rw h refl

abbrev repaired : SectorInfo → List Piece → SectorInfo
repaired s ps = record s {
  pieces = ps;
  state = s.return_state;
  return_state = undefined_sector_state;
}

return_from_repair :
    (i : ℕ) (s : SectorInfo) (ps : List Piece)
    → is_undefined s.return_state ≡ false
    → advance i returning (some (record s { pieces = ps })) (λ t. planned 1 none t)
      ≡ planned (i + 1) none (repaired s ps)
unfolding advance next
return_from_repair i s ps u = rw u refl

-- A sector that finds its deal IDs invalid, in a state that allows for it, goes to RecoverDealIDs with
-- the state to return to; the event with the new IDs then puts them on the pieces, brings the sector
-- to that state, and clears the stored one. Nothing else of its record changes. The return state may
-- not be the empty one, and the new IDs must name pieces with deals.
pub recovery_returns :
    (now later : ℕ) (r : SectorState) (us : List (ℕ × ℕ)) (ps : List Piece) (s : SectorInfo)
    → may_recover s.state ≡ true
    → is_undefined r ≡ false
    → update_deal_ids us s.pieces ≡ some ps
    → (t : SectorInfo) × (step now (mutator (recovers (sector_invalid_deal_ids r))) s
        ≡ planned 1 none t)
      × (step later (mutator (recovers (sector_update_deal_ids us))) t
          ≡ planned 1 none
              (record s { pieces = ps; state = r; return_state = undefined_sector_state }))
recovery_returns now later r us ps s m u e =
    let t : SectorInfo = record s { state = recover_deal_ids; return_state = r } in
    (
      t,
      enter_recovery now s.state r s m,
      step_repair later us t refl ∙ rw (apply_updates us t ps e) (return_from_repair 0 t ps u),
    )

-- In RecoverDealIDs, with no return state stored, the event with the new IDs is an error, which leaves
-- the sector there with the IDs written.
pub recovery_lost :
    (now : ℕ) (us : List (ℕ × ℕ)) (ps : List Piece) (s : SectorInfo)
    → s.state ≡ recover_deal_ids
    → s.return_state ≡ undefined_sector_state
    → update_deal_ids us s.pieces ≡ some ps
    → step now (mutator (recovers (sector_update_deal_ids us))) s
      ≡ planned 1 (some return_not_set) (record s { pieces = ps })
unfolding advance next is_undefined
recovery_lost now us ps s h u e = step_repair now us s h ∙ rw (apply_updates us s ps e) (rw u refl)

-- In RecoverDealIDs, an event that names a piece that is not there, or one without a deal, panics.
pub recovery_panics :
    (now : ℕ) (us : List (ℕ × ℕ)) (s : SectorInfo)
    → s.state ≡ recover_deal_ids
    → update_deal_ids us s.pieces ≡ none
    → step now (mutator (recovers (sector_update_deal_ids us))) s ≡ panicked
unfolding advance
recovery_panics now us s h e = step_repair now us s h ∙ rw (apply_updates_none us s e) refl

-- The states in which a failed first pre-commit is expected.
unfoldable pub may_fail_pre_commit1 : SectorState → Bool
may_fail_pre_commit1 pre_commit1 = true
may_fail_pre_commit1 pre_commit2 = true
may_fail_pre_commit1 pre_committing = true
may_fail_pre_commit1 submit_pre_commit_batch = true
may_fail_pre_commit1 committing = true
may_fail_pre_commit1 pre_commit_failed = true
may_fail_pre_commit1 compute_proof_failed = true
may_fail_pre_commit1 commit_failed = true
may_fail_pre_commit1 _ = false

-- What becomes of a failure counter when the first pre-commit fails in a state.
abbrev pub reset_in : SectorState → ℕ → ℕ
reset_in committing n = n
reset_in _ n = 0

-- A failed first pre-commit takes a sector from each state in which it is expected to
-- SealPreCommit1Failed and resets both failure counters, except that from Committing the counters are
-- kept.
pub pre_commit1_failed_counters :
    (now : ℕ) (why : String) (st : SectorState) (s : SectorInfo)
    → may_fail_pre_commit1 st ≡ true
    → step_with now (fsm_planners st) (mutator (pre_commits (sector_seal_pre_commit1_failed why))) s
      ≡ planned 1 none (record s {
        state = seal_pre_commit1_failed;
        invalid_proofs = reset_in st s.invalid_proofs;
        pre_commit2_fails = reset_in st s.pre_commit2_fails;
      })
unfolding fsm_planners run_planner plan_one plan_committing find_action type_of same_type apply next
    on may_fail_pre_commit1
pre_commit1_failed_counters now why pre_commit1 s h = refl
pre_commit1_failed_counters now why pre_commit2 s h = refl
pre_commit1_failed_counters now why pre_committing s h = refl
pre_commit1_failed_counters now why submit_pre_commit_batch s h = refl
pre_commit1_failed_counters now why committing s h = refl
pre_commit1_failed_counters now why pre_commit_failed s h = refl
pre_commit1_failed_counters now why compute_proof_failed s h = refl
pre_commit1_failed_counters now why commit_failed s h = refl
pre_commit1_failed_counters now why _ s h = cc
