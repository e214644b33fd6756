-- ===== src/Fsm/Report.antt =====
-- storage-sealing/fsm.go: the count of processed events that `plan` reports to the state machine.
use mathlib.Core.Option.{some-injective}
use venus_sealer.Prelude.{
  ℕ, ◌≤◌, ◌≡◌, ◌≢◌, refl, ◌∙◌, ◌⊎◌, inl, inr, true, List, [], ◌∷◌, none, some, Option-cases, String,
  length, arith,
}
use venus_sealer.Sector.State.{
  SectorState, packing_failed, proving, release_sector_key, release_sector_key_failed,
}
use venus_sealer.Sector.Info.{SectorInfo}
use venus_sealer.Sector.Event.{
  Event, mutator, upgrades, upgrade_recovers, sector_key_released, sector_update_active,
  sector_release_key_failed, type_of, same_type, is_ignorable,
}
use venus_sealer.Sector.Apply.{apply}
use venus_sealer.Stats.{SectorStats}
use venus_sealer.Fsm.Planner.{
  Planned, planned, panicked, unexpected_event, Planner, one, on, plan_one, run_planner, next,
  find_action,
}
use venus_sealer.Fsm.Table.{fsm_planners}
use venus_sealer.Fsm.Dispatch.{
  ConfigSource, PlanResult, handle_release_sector_key_failed, planner_for, finish_plan, reported,
  leave_packing_failed, plan,
}
use venus_sealer.Fsm.Progress.{Counts, least, run_planner-Counts}
use venus_sealer.Fsm.Removal.{plan_found}

reported_cases :
    (st : SectorState) (n : ℕ)
    → (reported st n ≡ n) ⊎ ((reported st n ≡ 0) × (st ≡ release_sector_key_failed))
unfolding reported
reported_cases release_sector_key_failed n = inr (refl, refl)
reported_cases _ n = inl refl

left_state :
    (st : SectorState) (s : SectorInfo)
    → s.state ≡ st
    → st ≡ release_sector_key_failed
    → (leave_packing_failed st s).state ≡ release_sector_key_failed
unfolding leave_packing_failed
left_state packing_failed s e h = cc
left_state _ s e h = e ∙ h

-- What the switch reports, from what the planner counted.
abbrev pub Reports : ℕ → ℕ → PlanResult → Type 0
Reports lo hi r =
    (r.processed ≤ hi)
    × (r.error ≡ none → r.sector.state ≢ release_sector_key_failed → lo ≤ r.processed)

finish_plan-Reports :
    (src : ConfigSource) (ss : SectorStats) (lo hi : ℕ) (p : Planned) (r : PlanResult)
    → finish_plan src ss p ≡ some r
    → Counts lo hi p
    → Reports lo hi r
unfolding finish_plan
finish_plan-Reports src ss lo hi panicked r e c = cc
finish_plan-Reports src ss lo hi (planned n (some x) s) r e c =
    rw (← some-injective _ r e) (c, λ f. cc)
finish_plan-Reports src ss lo hi (planned n none s) r e c =
    rw (← some-injective _ r e) (elim (reported_cases s.state n) [
      | inl same ↦ rw same (c.1, λ f h. c.0)
      | inr (zeroed, at_failed) ↦
          rw zeroed (omega arith, λ f h. absurd (h (left_state s.state s refl at_failed)))
    ])

plan-Reports :
    (src : ConfigSource) (now : ℕ) (es : List Event) (s : SectorInfo) (ss : SectorStats)
    (r : PlanResult)
    → plan src true now es s ss ≡ some r
    → Reports (least es) (length es) r
unfolding plan
plan-Reports src now es s ss r e = elim (Option-cases (planner_for s.state es)) [
  | inl missing ↦ rw (← some-injective _ r (rw (missing, plan) at e)) (omega arith, λ f. cc)
  | inr (p, found) ↦
      finish_plan-Reports src ss _ _ _ r (rw (found, plan) at e) (run_planner-Counts now p es s)
]

-- Where `plan` reports no error and leaves the sector in another state than ReleaseSectorKeyFailed, it
-- has processed at least one event of a batch that is not empty, and no more than there are.
pub plan_processed :
    (src : ConfigSource) (now : ℕ) (es : List Event) (s : SectorInfo) (ss : SectorStats)
    (r : PlanResult)
    → plan src true now es s ss ≡ some r
    → r.error ≡ none
    → r.sector.state ≢ release_sector_key_failed
    → (least es ≤ r.processed) × (r.processed ≤ length es)
plan_processed src now es s ss r e f h =
    let counted = plan-Reports src now es s ss r e in (counted.1 f h, counted.0)

-- A sector that fails to release its key moves to ReleaseSectorKeyFailed, with the handler of that
-- state and no error, but `plan` reports no event as processed. Given the same event again there, it
-- answers with the error of an unexpected event.
pub release_key_failed_unprocessed :
    (src : ConfigSource) (now later : ℕ) (why : String) (s : SectorInfo) (ss ss' : SectorStats)
    → s.state ≡ release_sector_key
    → (r r' : PlanResult) × (plan src true now
          (mutator (upgrade_recovers (sector_release_key_failed why)) ∷ [])
          s
          ss
        ≡ some r)
      × (r.sector ≡ record s { state = release_sector_key_failed })
      × (r.handler ≡ some handle_release_sector_key_failed)
      × (r.error ≡ none)
      × (r.processed ≡ 0)
      × (plan src true later
            (mutator (upgrade_recovers (sector_release_key_failed why)) ∷ [])
            r.sector
            ss'
          ≡ some r')
      × (r'.error ≡ some unexpected_event)
unfolding finish_plan fsm_planners planner_for run_planner plan_one apply next find_action type_of
    same_type on is_ignorable
release_key_failed_unprocessed src now later why s ss ss' h =
    let p : Planner = one (
      on (upgrades sector_key_released) proving
      ∷ on (upgrade_recovers (sector_release_key_failed "")) release_sector_key_failed
      ∷ []) in
    let t : SectorInfo = record s { state = release_sector_key_failed } in
    let q : Planner = one (on (upgrades sector_update_active) release_sector_key ∷ []) in
    (
      _,
      _,
      plan_found src now _ s ss p (rw (h, planner_for) refl),
      refl,
      refl,
      refl,
      refl,
      plan_found src later _ t ss' q refl,
      refl,
    )
