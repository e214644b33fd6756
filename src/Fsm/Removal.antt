-- ===== src/Fsm/Removal.antt =====
-- storage-sealing/fsm.go: the events that apply in every state, and the end of a sector's life.
use venus_sealer.Prelude.{
  ℕ, ◌≡◌, ◌≢◌, refl, ap, ◌∙◌, Bool, true, false, List, [], ◌∷◌, none, some, length,
}
use venus_sealer.Sector.State.{SectorState, removed, removing, remove_failed}
use venus_sealer.Sector.Info.{SectorInfo}
use venus_sealer.Sector.Event.{
  GlobalEvent, Event, global, mutator, ends, sector_remove, sector_removed, sector_remove_failed,
  type_of, same_type,
}
use venus_sealer.Sector.Apply.{apply_global, apply}
use venus_sealer.Stats.{SectorStats}
use venus_sealer.Fsm.Planner.{
  planned, Planner, one, one_or_ignore, in_committing, in_final, in_removed, plan_one,
  plan_one_or_ignore, on, plan_committing, final, final_removed, run_planner, next, find_action,
}
use venus_sealer.Fsm.Table.{fsm_planners}
use venus_sealer.Fsm.Dispatch.{
  ConfigSource, PlanResult, planner_for, finish_plan, plan, handle_removing, reported,
  leave_packing_failed,
}

abbrev pub takes_global : Planner → Bool
takes_global in_removed = false
takes_global _ = true

-- With a planner at hand, `plan` is the planner followed by the switch.
pub plan_found :
    (src : ConfigSource) (now : ℕ) (es : List Event) (s : SectorInfo) (ss : SectorStats)
    (p : Planner)
    → planner_for s.state es ≡ some p
    → plan src true now es s ss ≡ finish_plan src ss (run_planner now p es s)
unfolding plan
plan_found src now es s ss p found = rw (found, plan)

-- A global event that asks to stop is all that a planner reads of a batch that it heads.
pub run_planner-global :
    (now : ℕ) (p : Planner) (g : GlobalEvent) (es : List Event) (s : SectorInfo)
    → takes_global p ≡ true
    → (apply_global g s).1 ≡ true
    → run_planner now p (global g ∷ es) s ≡ planned 1 none (apply_global g s).0
unfolding run_planner plan_one plan_one_or_ignore plan_committing final
run_planner-global now (one ts) g es s t stop = refl
run_planner-global now (one_or_ignore ts) g es s t stop = refl
run_planner-global now in_committing g es s t stop = rw stop
run_planner-global now in_final g es s t stop = refl
run_planner-global now in_removed g es s t stop = cc

lone_planner :
    (st : SectorState) (g : GlobalEvent)
    → st ≢ removed
    → (p : Planner) × (planner_for st (global g ∷ []) ≡ some p) × (takes_global p ≡ true)
unfolding planner_for fsm_planners
lone_planner removed g h = absurd (h refl)
lone_planner _ g h = (_, refl, refl)

-- SectorRemove, alone in its batch, takes a sector from every state but Removed, states without a
-- planner included, to Removing: one event is processed, there is no error, nothing but the state
-- changes, and the handler of Removing is run.
pub plan-sector_remove :
    (src : ConfigSource) (now : ℕ) (s : SectorInfo) (ss : SectorStats)
    → s.state ≢ removed
    → (r : PlanResult) × (plan src true now (global sector_remove ∷ []) s ss ≡ some r)
      × (r.sector ≡ record s { state = removing })
      × (r.processed ≡ 1)
      × (r.error ≡ none)
      × (r.handler ≡ some handle_removing)
unfolding finish_plan apply_global
plan-sector_remove src now s ss h =
    let (p, found, takes) = lone_planner s.state sector_remove h in
    (
      _,
      plan_found src now _ s ss p found
          ∙ ap (finish_plan src ss) (run_planner-global now p sector_remove [] s takes refl),
      refl,
      refl,
      refl,
      refl,
    )

-- A sector in Removing that is told that its files are gone becomes Removed.
pub plan-sector_removed :
    (src : ConfigSource) (now : ℕ) (s : SectorInfo) (ss : SectorStats)
    → s.state ≡ removing
    → (r : PlanResult) × (plan src true now (mutator (ends sector_removed) ∷ []) s ss ≡ some r)
      × (r.sector ≡ record s { state = removed })
unfolding finish_plan fsm_planners planner_for run_planner plan_one_or_ignore plan_one apply next
    find_action type_of same_type on
plan-sector_removed src now s ss h =
    let p : Planner =
      one_or_ignore (
        on (ends sector_removed) removed
        ∷ on (ends (sector_remove_failed "")) remove_failed
        ∷ []) in
    (_, plan_found src now _ s ss p (rw (h, planner_for) refl), refl)

-- A sector in Removed consumes every event of a batch and is left as it is: not even a global event,
-- such as SectorForceState, brings it back.
pub plan-removed :
    (src : ConfigSource) (now : ℕ) (es : List Event) (s : SectorInfo) (ss : SectorStats)
    → s.state ≡ removed
    → (r : PlanResult) × (plan src true now es s ss ≡ some r)
      × (r.sector ≡ s)
      × (r.processed ≡ length es)
      × (r.handler ≡ none)
unfolding finish_plan fsm_planners planner_for run_planner final_removed
plan-removed src now es s ss h = (
  _,
  plan_found src now es s ss in_removed (rw (h, planner_for) refl),
  rw (h, leave_packing_failed) refl,
  rw (h, reported) refl,
  rw h refl,
)
