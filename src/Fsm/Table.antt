-- ===== src/Fsm/Table.antt =====
-- storage-sealing/fsm.go: the map `fsmPlanners`, in the parts that its comments name.
mod Sealing
mod Upgrade
mod Rest
use venus_sealer.Prelude.{Option, none, some}
use venus_sealer.Sector.State.{SectorState}
use venus_sealer.Fsm.Planner.{Planner, one}
use Sealing.{sealing_planners}
use Upgrade.{snap_planners, snap_error_planners}
use Rest.{sealing_error_planners, post_seal_planners}

abbrev or_else : Option Planner → Option Planner → Option Planner
or_else (some p) q = some p
or_else none q = q

-- A state has an entry in one part at most.
unfoldable pub fsm_planners : SectorState → Option Planner
unfolding sealing_planners snap_planners sealing_error_planners snap_error_planners
    post_seal_planners
fsm_planners st = or_else (sealing_planners st) (
    or_else (snap_planners st) (
      or_else (sealing_error_planners st)
        (or_else (snap_error_planners st) (post_seal_planners st))))
