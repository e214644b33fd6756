-- ===== src/Fsm/Runs.antt =====
-- storage-sealing/fsm.go: what `plan` keeps of a sector's record, and the runs of a sector through
-- any number of batches.
use mathlib.Core.Option.{some-injective}
use venus_sealer.Prelude.{
  ℕ, ◌≡◌, refl, inl, inr, Bool, true, false, List, [], ◌∷◌, none, some, All, Option-cases,
}
use venus_sealer.Sector.State.{SectorState, packing_failed, deals_expired}
use venus_sealer.Sector.Info.{SectorInfo}
use venus_sealer.Sector.Event.{Event, global, mutator, sector_faulted_final}
use venus_sealer.Stats.{SectorStats}
use venus_sealer.Fsm.Planner.{Planned, planned, panicked, Planner, run_planner}
use venus_sealer.Fsm.Table.{fsm_planners}
use venus_sealer.Fsm.Dispatch.{
  ConfigSource, PlanResult, lone_global, planner_for, finish_plan, leave_packing_failed, plan,
}
use venus_sealer.Fsm.Keeps.{Holds}
use venus_sealer.Fsm.StateSet.{planner_stays, Admits, Stays, run_planner-Stays}

finish_plan-keeps :
    (Q : SectorInfo → Type 0) (src : ConfigSource) (ss : SectorStats) (p : Planned) (r : PlanResult)
    → ((t : SectorInfo) → Q t → Q (leave_packing_failed t.state t))
    → finish_plan src ss p ≡ some r
    → Holds Q p
    → Q r.sector
unfolding finish_plan
finish_plan-keeps Q src ss panicked r l e h = cc
finish_plan-keeps Q src ss (planned n (some x) s) r l e h = rw (← some-injective _ r e) h
finish_plan-keeps Q src ss (planned n none s) r l e h = rw (← some-injective _ r e) (l s h)

-- The rule for `plan`: what holds of the record before, of what the planner leaves, and is not undone
-- by leaving `PackingFailed`, holds of the record after.
pub plan-keeps :
    (Q : SectorInfo → Type 0) (src : ConfigSource) (logged : Bool) (now : ℕ) (es : List Event)
    (s : SectorInfo) (ss : SectorStats) (r : PlanResult)
    → ((t : SectorInfo) → Q t → Q (leave_packing_failed t.state t))
    → ((p : Planner) → planner_for s.state es ≡ some p → Holds Q (run_planner now p es s))
    → Q s
    → plan src logged now es s ss ≡ some r
    → Q r.sector
unfolding plan
plan-keeps Q src false now es s ss r l k h e = rw (← some-injective _ r e) h
plan-keeps Q src true now es s ss r l k h e = elim (Option-cases (planner_for s.state es)) [
  | inl no_planner ↦ rw (← some-injective _ r (rw (no_planner, plan) at e)) h
  | inr (p, found) ↦ finish_plan-keeps Q src ss _ r l (rw (found, plan) at e) (k p found)
]

-- A sector's history: any batches, with any configuration and clock, whose events pass `Ok`.
pub data Runs (Ok : Event → Type 0) (s : SectorInfo) : SectorInfo → Type 0 where
  start : Runs Ok s s
  batch :
      {t u : SectorInfo} (src : ConfigSource) (logged : Bool) (now : ℕ) (es : List Event)
      (ss : SectorStats) (r : PlanResult)
      → Runs Ok s t
      → All Ok es
      → plan src logged now es t ss ≡ some r
      → r.sector ≡ u
      → Runs Ok s u

-- A set of states that the map of planners does not leave.
pub record IsClosed (inside : SectorState → Bool) (barred : ℕ → Bool) : Type 0 where
  pub planners :
      (st : SectorState) → inside st ≡ true → planner_stays inside barred (fsm_planners st) ≡ true
  pub unpacks : inside packing_failed ≡ true → inside deals_expired ≡ true

module _ (inside : SectorState → Bool) (barred : ℕ → Bool) (closed : IsClosed inside barred) where
  leave-Stays :
      (st : SectorState) (s : SectorInfo)
      → s.state ≡ st
      → Stays inside barred s
      → Stays inside barred (leave_packing_failed st s)
  unfolding leave_packing_failed
  leave-Stays packing_failed s e h = record {
    state_in = closed.unpacks (rw e at h.state_in);
    return_in = h.return_in;
  }
  leave-Stays _ s e h = h

  lone_global-stays :
      (es : List Event) (p : Planner)
      → lone_global es ≡ some p
      → planner_stays inside barred (some p) ≡ true
  unfolding lone_global
  lone_global-stays (global g ∷ []) p e = rw (← some-injective _ p e) refl
  lone_global-stays [] p e = cc
  lone_global-stays (global g ∷ x ∷ es) p e = cc
  lone_global-stays (mutator m ∷ es) p e = cc
  lone_global-stays (sector_faulted_final ∷ es) p e = cc

  planner_for-stays :
      (st : SectorState) (es : List Event) (p : Planner)
      → inside st ≡ true
      → planner_for st es ≡ some p
      → planner_stays inside barred (some p) ≡ true
  unfolding planner_for
  planner_for-stays st es p i e = elim (Option-cases (fsm_planners st)) [
    | inl missing ↦ lone_global-stays es p (rw (missing, planner_for) at e)
    | inr (q, found) ↦
        rw (← some-injective q p (rw (found, planner_for) at e))
          (rw found at (closed.planners st i))
  ]

  plan-Stays :
      (src : ConfigSource) (logged : Bool) (now : ℕ) (es : List Event) (s : SectorInfo)
      (ss : SectorStats) (r : PlanResult)
      → All (Admits inside barred) es
      → Stays inside barred s
      → plan src logged now es s ss ≡ some r
      → Stays inside barred r.sector
  plan-Stays src logged now es s ss r a h e =
      plan-keeps (Stays inside barred) src logged now es s ss r
        (λ t k. leave-Stays t.state t refl k)
        (λ p found.
          run_planner-Stays inside barred now p es s
            (planner_for-stays s.state es p h.state_in found) a h)
        h e

  -- No run of admitted events leaves a closed set of states.
  pub Runs-Stays :
      {s t : SectorInfo}
      → Stays inside barred s
      → Runs (Admits inside barred) s t
      → Stays inside barred t
  Runs-Stays h start = h
  Runs-Stays h (batch {t = t} src logged now es ss r before a e u) =
      rw (← u) (plan-Stays src logged now es t ss r a (Runs-Stays h before) e)
