-- ===== src/Fsm/Upgrade.antt =====
-- storage-sealing/fsm.go: an update of a committed-capacity sector that is aborted.
use venus_sealer.Prelude.{
  ℕ, ◌+◌, ◌≡◌, refl, ◌∙◌, inl, inr, Bool, true, false, not, ◌==◌, ◌&&◌, ◌||◌, ==_iff, and-true,
  not-true, List, [], ◌∷◌, Option, none, some, All, Bool-cases,
}
use venus_sealer.Sector.State.{SectorState, available, abort_upgrade}
use venus_sealer.Sector.Info.{SectorInfo, Piece}
use venus_sealer.Sector.Event.{
  GlobalEvent, Mutator, Event, global, mutator, sector_faulted_final, sector_force_state, commits,
  pre_commits, recovers, sector_committed, sector_proof_ready, sector_seed_ready,
  sector_compute_proof_failed, sector_seal_pre_commit1_failed, sector_commit_failed,
  sector_retry_commit_wait, upgrades, upgrade_recovers, sector_start_cc_update,
  sector_revert_upgrade_to_proving, type_of, same_type,
}
use venus_sealer.Sector.Apply.{apply, apply_global, apply_commit}
use venus_sealer.Sector.Frame.{new_cc_pieces, apply-Frame}
use venus_sealer.Fsm.Planner.{
  Planned, planned, panicked, Action, to, stay, returning, Transition, next, is_undefined,
  find_action, plan_one, on, ignore_error, plan_one_or_ignore, committing_step,
  plan_committing_from, plan_committing, same_bytes, final, final_removed, Planner, one,
  one_or_ignore, in_committing, in_final, in_removed, run_planner,
}
use venus_sealer.Fsm.Table.{fsm_planners}
use venus_sealer.Fsm.Keeps.{Holds, LoopRule, plan_one_from-Holds}

-- The two events that write the pieces set aside for an update.
abbrev pub moves_pieces : ℕ → Bool
moves_pieces k =
    k == type_of (upgrades sector_start_cc_update)
    || k == type_of (upgrade_recovers sector_revert_upgrade_to_proving)

-- No transition of the table is for one of them.
abbrev pub sets_nothing_aside : List Transition → Bool
sets_nothing_aside [] = true
sets_nothing_aside (t ∷ ts) = not (moves_pieces (type_of t.mut)) && sets_nothing_aside ts

abbrev pub planner_keeps : Option Planner → Bool
planner_keeps none = true
planner_keeps (some (one ts)) = sets_nothing_aside ts
planner_keeps (some (one_or_ignore ts)) = sets_nothing_aside ts
planner_keeps (some in_committing) = true
planner_keeps (some in_final) = true
planner_keeps (some in_removed) = true

-- The states other than the two in which those events are expected.
unfoldable pub is_between : SectorState → Bool
is_between available = false
is_between abort_upgrade = false
is_between _ = true

pub between_keeps :
    (st : SectorState) → is_between st ≡ true → planner_keeps (fsm_planners st) ≡ true
unfolding fsm_planners is_between type_of
between_keeps available h = cc
between_keeps abort_upgrade h = cc
between_keeps _ h = refl

find_action-unmoved :
    (m : Mutator) (ts : List Transition) (act : Action)
    → sets_nothing_aside ts ≡ true
    → find_action m ts ≡ some act
    → moves_pieces (type_of m) ≡ false
unfolding find_action same_type
find_action-unmoved m [] act t f = cc
find_action-unmoved m (x ∷ ts) act t f = elim (Bool-cases (type_of m == type_of x.mut)) [
  | inl e ↦
      let same : type_of m ≡ type_of x.mut = (==_iff _ _).0 e in
      rw same (not-true (moves_pieces (type_of x.mut)) (and-true _ (sets_nothing_aside ts) t).0)
  | inr e ↦ find_action-unmoved m ts act (and-true _ _ t).1 (rw e at f)
]

-- Only those events change the field.
new_cc_pieces-unmoved :
    (m : Mutator) (s : SectorInfo)
    → moves_pieces (type_of m) ≡ false
    → new_cc_pieces m s ≡ s.cc_pieces
unfolding type_of
new_cc_pieces-unmoved (upgrades sector_start_cc_update) s h = cc
new_cc_pieces-unmoved (upgrade_recovers sector_revert_upgrade_to_proving) s h = cc
new_cc_pieces-unmoved _ s h = refl

-- The pieces set aside are the list `cs`.
abbrev pub SetAside : List Piece → SectorInfo → Type 0
SetAside cs s = s.cc_pieces ≡ cs

-- Every event is let through.
abbrev Any : Event → Type 0
Any e = Unit {0}

All-Any : (es : List Event) → All Any es
All-Any [] = tt
All-Any (e ∷ es) = (tt, All-Any es)

global-SetAside :
    (cs : List Piece) (g : GlobalEvent) (s : SectorInfo)
    → SetAside cs s
    → SetAside cs (apply_global g s).0
unfolding apply_global
global-SetAside cs (sector_force_state st) s h = h
global-SetAside cs _ s h = h

next-SetAside :
    (cs : List Piece) (act : Action) (s : SectorInfo)
    → SetAside cs s
    → SetAside cs (next act s).sector
unfolding next
next-SetAside cs (to st) s h = h
next-SetAside cs stay s h = h
next-SetAside cs returning s h = elim (Bool-cases (is_undefined s.return_state)) [
  | inl e ↦ rw e h
  | inr e ↦ rw e h
]

module _ (cs : List Piece) where
  apply-SetAside :
      (now : ℕ) (m : Mutator) (s s' : SectorInfo)
      → moves_pieces (type_of m) ≡ false
      → apply now m s ≡ some s'
      → SetAside cs s
      → SetAside cs s'
  apply-SetAside now m s s' u e h =
      (apply-Frame now m s s' e).set_aside ∙ new_cc_pieces-unmoved m s u ∙ h

  SetAside-LoopRule :
      (now : ℕ) (ts : List Transition)
      → sets_nothing_aside ts ≡ true
      → LoopRule now ts Any (SetAside cs) (SetAside cs)
  SetAside-LoopRule now ts t = record {
    leave = λ s h. h;
    at_global = λ g s ok h. global-SetAside cs g s h;
    at_stay = λ m s s' ok f e h. apply-SetAside now m s s' (find_action-unmoved m ts stay t f) e h;
    at_move = λ m act s s' ok f e h.
        next-SetAside cs act s' (apply-SetAside now m s s' (find_action-unmoved m ts act t f) e h);
  }

  plan_one-SetAside :
      (now : ℕ) (ts : List Transition) (es : List Event) (s : SectorInfo)
      → sets_nothing_aside ts ≡ true
      → SetAside cs s
      → Holds (SetAside cs) (plan_one now ts es s)
  unfolding plan_one
  plan_one-SetAside now ts es s t h =
      plan_one_from-Holds now ts Any (SetAside cs) (SetAside cs) (SetAside-LoopRule now ts t) 0 es s
        (All-Any es) h

  ignore_error-SetAside :
      (p : Planned) → Holds (SetAside cs) p → Holds (SetAside cs) (ignore_error p)
  ignore_error-SetAside (planned n e s) h = h
  ignore_error-SetAside panicked h = tt

  committing_step-SetAside :
      (i : ℕ) (e : Event) (s : SectorInfo) (rest : SectorInfo → Planned)
      → SetAside cs s
      → ((t : SectorInfo) → SetAside cs t → Holds (SetAside cs) (rest t))
      → Holds (SetAside cs) (committing_step i e s rest)
  unfolding committing_step apply_commit
  committing_step-SetAside i (global g) s rest h r = elim (Bool-cases (apply_global g s).1) [
    | inl stop ↦ rw stop (global-SetAside cs g s h)
    | inr on ↦ rw on (r _ (global-SetAside cs g s h))
  ]
  committing_step-SetAside i (mutator (commits (sector_committed p))) s rest h r = r _ h
  committing_step-SetAside i (mutator (commits (sector_proof_ready p))) s rest h r = r _ h
  committing_step-SetAside i (mutator (commits (sector_seed_ready v e))) s rest h r =
      elim (Bool-cases (e == s.seed_epoch && same_bytes v s.seed_value)) [
        | inl same ↦ rw same (r s h)
        | inr changed ↦ rw changed h
      ]
  committing_step-SetAside i (mutator (commits (sector_compute_proof_failed e))) s rest h r = r _ h
  committing_step-SetAside i (mutator (pre_commits (sector_seal_pre_commit1_failed e))) s rest h r =
      r _ h
  committing_step-SetAside i (mutator (commits (sector_commit_failed e))) s rest h r = r _ h
  committing_step-SetAside i (mutator (recovers sector_retry_commit_wait)) s rest h r = r _ h
  committing_step-SetAside i _ s rest h r = h

  plan_committing_from-SetAside :
      (i : ℕ) (es : List Event) (s : SectorInfo)
      → SetAside cs s
      → Holds (SetAside cs) (plan_committing_from i es s)
  unfolding plan_committing_from
  plan_committing_from-SetAside i [] s h = h
  plan_committing_from-SetAside i (e ∷ es) s h =
      committing_step-SetAside i e s _ h (λ t h'. plan_committing_from-SetAside (i + 1) es t h')

  final-SetAside :
      (es : List Event) (s : SectorInfo) → SetAside cs s → Holds (SetAside cs) (final es s)
  unfolding final
  final-SetAside [] s h = h
  final-SetAside (global g ∷ es) s h = global-SetAside cs g s h
  final-SetAside (mutator m ∷ es) s h = h
  final-SetAside (sector_faulted_final ∷ es) s h = h

  pub run_planner-SetAside :
      (now : ℕ) (p : Planner) (es : List Event) (s : SectorInfo)
      → planner_keeps (some p) ≡ true
      → SetAside cs s
      → Holds (SetAside cs) (run_planner now p es s)
  unfolding run_planner plan_one_or_ignore plan_committing final_removed
  run_planner-SetAside now (one ts) es s t h = plan_one-SetAside now ts es s t h
  run_planner-SetAside now (one_or_ignore ts) es s t h =
      ignore_error-SetAside _ (plan_one-SetAside now ts es s t h)
  run_planner-SetAside now in_committing es s t h = plan_committing_from-SetAside 0 es s h
  run_planner-SetAside now in_final es s t h = final-SetAside es s h
  run_planner-SetAside now in_removed es s t h = h
