-- ===== src/Fsm/Planner.antt =====
-- storage-sealing/fsm.go: the planners, which consume the events of a batch one by one.
use venus_sealer.Prelude.{
  ℕ, ◌+◌, Bool, true, false, ◌==◌, ◌&&◌, if◌then◌else◌, List, [], ◌∷◌, Option, none, some, length,
}
use venus_sealer.Sector.State.{
  SectorState, undefined_sector_state, submit_commit, commit_finalize, committing,
  compute_proof_failed, seal_pre_commit1_failed, commit_failed, commit_wait,
}
use venus_sealer.Sector.Info.{Bytes, SectorInfo}
use venus_sealer.Sector.Event.{
  Mutator, Event, pre_commits, commits, recovers, global, mutator, sector_faulted_final,
  sector_seal_pre_commit1_failed, sector_seed_ready, sector_compute_proof_failed,
  sector_commit_failed, sector_committed, sector_proof_ready, sector_retry_commit_wait, same_type,
  is_ignorable,
}
use venus_sealer.Sector.Apply.{apply_global, apply_commit, apply}

pub data PlanError : Type 0 where
  unexpected_event return_not_set unexpected_final_event unknown_event_type : PlanError
  planner_not_found log_failed : PlanError

-- What a planner hands back: the count of events processed, its error, and the record as it left it.
pub data Planned : Type 0 where
  planned : ℕ → Option PlanError → SectorInfo → Planned
  panicked : Planned

-- The second half of `on`, `apply` and `onReturning`.
pub data Action : Type 0 where
  to : SectorState → Action
  stay : Action
  returning : Action

-- The event's prototype and the action; only the type of the prototype is read.
pub record Transition : Type 0 where
  pub mut : Mutator
  pub action : Action

unfoldable pub on : Mutator → SectorState → Transition
on mut st = record { mut = mut; action = to st }

-- Called `apply` in the source.
unfoldable pub applying : Mutator → Transition
applying mut = record { mut = mut; action = stay }

unfoldable pub on_returning : Mutator → Transition
on_returning mut = record { mut = mut; action = returning }

pub record Next : Type 0 where
  pub more : Bool
  pub error : Option PlanError
  pub sector : SectorInfo

unfoldable pub is_undefined : SectorState → Bool
is_undefined undefined_sector_state = true
is_undefined _ = false

unfoldable pub next : Action → SectorInfo → Next
unfolding is_undefined
next (to st) s = record { more = false; error = none; sector = record s { state = st } }
next stay s = record { more = true; error = none; sector = s }
next returning s =
    if is_undefined s.return_state
    then record { more = false; error = some return_not_set; sector = s }
    else record {
      more = false;
      error = none;
      sector = record s { state = s.return_state; return_state = undefined_sector_state };
    }

-- The first transition for the type of the event.
unfoldable pub find_action : Mutator → List Transition → Option Action
find_action m [] = none
find_action m (t ∷ ts) = if same_type m t.mut then some t.action else find_action m ts

-- What `planOne` does with the applied record of the event with index `i`; `rest` is the rest of
-- the loop, and no record means that `apply` panicked.
unfoldable pub advance : ℕ → Action → Option SectorInfo → (SectorInfo → Planned) → Planned
advance i act none rest = panicked
advance i act (some s) rest =
    let n = next act s in if n.more then rest n.sector else planned (i + 1) n.error n.sector

-- The body of the loop of `planOne` at the mutator with index `i`.
unfoldable pub take_action :
    ℕ → ℕ → Mutator → Option Action → SectorInfo → (SectorInfo → Planned) → Planned
unfolding advance
take_action now i m none s rest =
    if is_ignorable m then rest s else planned (i + 1) (some unexpected_event) s
take_action now i m (some act) s rest = advance i act (apply now m s) rest

unfoldable pub plan_one_from : ℕ → List Transition → ℕ → List Event → SectorInfo → Planned
unfolding take_action
plan_one_from now ts i [] s = planned i none s
plan_one_from now ts i (global g ∷ es) s = planned (i + 1) none (apply_global g s).0
plan_one_from now ts i (mutator m ∷ es) s =
    take_action now i m (find_action m ts) s (plan_one_from now ts (i + 1) es)
plan_one_from now ts i (sector_faulted_final ∷ es) s = planned (i + 1) (some unexpected_event) s

unfoldable pub plan_one : ℕ → List Transition → List Event → SectorInfo → Planned
unfolding plan_one_from
plan_one now ts es s = plan_one_from now ts 0 es s

abbrev pub ignore_error : Planned → Planned
ignore_error (planned n e s) = planned n none s
ignore_error panicked = panicked

unfoldable pub plan_one_or_ignore : ℕ → List Transition → List Event → SectorInfo → Planned
unfolding plan_one
plan_one_or_ignore now ts es s = ignore_error (plan_one now ts es s)

unfoldable pub same_bytes : Bytes → Bytes → Bool
same_bytes [] [] = true
same_bytes (a ∷ as') (b ∷ bs) = a == b && same_bytes as' bs
same_bytes _ _ = false

-- The body of the loop of `planCommitting`, with the rest of the loop as for `take_action`.
unfoldable pub committing_step : ℕ → Event → SectorInfo → (SectorInfo → Planned) → Planned
unfolding apply_commit
committing_step i (global g) s rest =
    let (s', stop) = apply_global g s in if stop then planned (i + 1) none s' else rest s'
committing_step i (mutator (commits (sector_committed p))) s rest =
    rest (record (apply_commit (sector_committed p) s) { state = submit_commit })
committing_step i (mutator (commits (sector_proof_ready p))) s rest =
    rest (record (apply_commit (sector_proof_ready p) s) { state = commit_finalize })
committing_step i (mutator (commits (sector_seed_ready v e))) s rest =
    if e == s.seed_epoch && same_bytes v s.seed_value
    then rest s
    else planned (i + 1) none
        (record (apply_commit (sector_seed_ready v e) s) { state = committing })
committing_step i (mutator (commits (sector_compute_proof_failed e))) s rest =
    rest (record s { state = compute_proof_failed })
committing_step i (mutator (pre_commits (sector_seal_pre_commit1_failed e))) s rest =
    rest (record s { state = seal_pre_commit1_failed })
committing_step i (mutator (commits (sector_commit_failed e))) s rest =
    rest (record s { state = commit_failed })
committing_step i (mutator (recovers sector_retry_commit_wait)) s rest =
    rest (record s { state = commit_wait })
committing_step i _ s rest = planned i (some unknown_event_type) s

unfoldable pub plan_committing_from : ℕ → List Event → SectorInfo → Planned
unfolding committing_step
plan_committing_from i [] s = planned i none s
plan_committing_from i (e ∷ es) s = committing_step i e s (plan_committing_from (i + 1) es)

unfoldable pub plan_committing : List Event → SectorInfo → Planned
unfolding plan_committing_from
plan_committing es s = plan_committing_from 0 es s

-- `final` reads the first event only.
unfoldable pub final : List Event → SectorInfo → Planned
final (global g ∷ es) s = planned 1 none (apply_global g s).0
final _ s = planned 0 (some unexpected_final_event) s

unfoldable pub final_removed : List Event → SectorInfo → Planned
final_removed es s = planned (length es) none s

-- The values of the map `fsmPlanners`.
pub data Planner : Type 0 where
  one : List Transition → Planner
  one_or_ignore : List Transition → Planner
  in_committing in_final in_removed : Planner

unfoldable pub run_planner : ℕ → Planner → List Event → SectorInfo → Planned
unfolding plan_one plan_one_or_ignore plan_committing final final_removed
run_planner now (one ts) es s = plan_one now ts es s
run_planner now (one_or_ignore ts) es s = plan_one_or_ignore now ts es s
run_planner now in_committing es s = plan_committing es s
run_planner now in_final es s = final es s
run_planner now in_removed es s = final_removed es s
