-- ===== src/Fsm/Progress.antt =====
-- storage-sealing/fsm.go: how many events of a batch a planner consumes.
use venus_sealer.Prelude.{
  ℕ, suc, ◌+◌, ◌≤◌, ◌≡◌, inl, inr, ◌&&◌, ◌==◌, List, [], ◌∷◌, Option, none, some, arith, length,
  Bool-cases,
}
use native.Mathlib.Nat.{zero-add}
use venus_sealer.Sector.Info.{SectorInfo}
use venus_sealer.Sector.Event.{
  Mutator, Event, pre_commits, commits, recovers, global, mutator, sector_faulted_final,
  is_ignorable, sector_seal_pre_commit1_failed, sector_seed_ready, sector_compute_proof_failed,
  sector_commit_failed, sector_committed, sector_proof_ready, sector_retry_commit_wait,
}
use venus_sealer.Sector.Apply.{apply, apply_global}
use venus_sealer.Fsm.Planner.{
  advance, Planned, planned, panicked, Action, Transition, next, find_action, take_action,
  plan_one_from, plan_one, ignore_error, same_bytes, plan_one_or_ignore, committing_step,
  plan_committing_from, plan_committing, final, final_removed, Planner, one, one_or_ignore,
  in_committing, in_final, in_removed, run_planner,
}

-- The count stays within the batch, and reaches `lo` where there is no error.
abbrev pub Counts : ℕ → ℕ → Planned → Type 0
Counts lo hi (planned n none s) = (lo ≤ n) × (n ≤ hi)
Counts lo hi (planned n (some e) s) = n ≤ hi
Counts lo hi panicked = Unit {0}

-- The same where an error makes no difference.
abbrev pub Within : ℕ → ℕ → Planned → Type 0
Within lo hi (planned n e s) = (lo ≤ n) × (n ≤ hi)
Within lo hi panicked = Unit {0}

Within-Counts : (lo hi : ℕ) (p : Planned) → Within lo hi p → Counts lo hi p
Within-Counts lo hi (planned n none s) w = w
Within-Counts lo hi (planned n (some e) s) w = w.1
Within-Counts lo hi panicked w = tt

Within-weaken : (lo lo' hi : ℕ) (p : Planned) → lo' ≤ lo → Within lo hi p → Within lo' hi p
Within-weaken lo lo' hi (planned n e s) h w = (omega arith, w.1)
Within-weaken lo lo' hi panicked h w = tt

Counts-weaken : (lo lo' hi : ℕ) (p : Planned) → lo' ≤ lo → Counts lo hi p → Counts lo' hi p
Counts-weaken lo lo' hi (planned n none s) h c = (omega arith, c.1)
Counts-weaken lo lo' hi (planned n (some e) s) h c = c
Counts-weaken lo lo' hi panicked h c = tt

-- A batch that is not empty counts from 1.
abbrev pub least : List Event → ℕ
least [] = 0
least (e ∷ es) = 1

advance-Within :
    (i hi : ℕ) (act : Action) (o : Option SectorInfo) (rest : SectorInfo → Planned)
    → i + 1 ≤ hi
    → ((t : SectorInfo) → Within (i + 1) hi (rest t))
    → Within (i + 1) hi (advance i act o rest)
unfolding advance
advance-Within i hi act none rest h r = tt
advance-Within i hi act (some s) rest h r = elim (Bool-cases (next act s).more) [
  | inl on ↦ rw on (r (next act s).sector)
  | inr off ↦ rw off (omega arith, h)
]

take_action-Within :
    (now i hi : ℕ) (m : Mutator) (act : Option Action) (s : SectorInfo)
    (rest : SectorInfo → Planned)
    → i + 1 ≤ hi
    → ((t : SectorInfo) → Within (i + 1) hi (rest t))
    → Within (i + 1) hi (take_action now i m act s rest)
unfolding take_action
take_action-Within now i hi m none s rest h r = elim (Bool-cases (is_ignorable m)) [
  | inl e ↦ rw e (r s)
  | inr e ↦ rw e (omega arith, h)
]
take_action-Within now i hi m (some act) s rest h r =
    advance-Within i hi act (apply now m s) rest h r

-- The loop at an event, from what is known of the rest of the loop.
plan_one_from-Within_cons :
    (now : ℕ) (ts : List Transition) (i hi : ℕ) (e : Event) (es : List Event) (s : SectorInfo)
    → i + 1 ≤ hi
    → ((t : SectorInfo) → Within (i + 1) hi (plan_one_from now ts (i + 1) es t))
    → Within (i + 1) hi (plan_one_from now ts i (e ∷ es) s)
unfolding plan_one_from
plan_one_from-Within_cons now ts i hi (global g) es s h r = (omega arith, h)
plan_one_from-Within_cons now ts i hi (mutator m) es s h r =
    take_action-Within now i hi m (find_action m ts) s _ h r
plan_one_from-Within_cons now ts i hi sector_faulted_final es s h r = (omega arith, h)

plan_one_from-Within :
    (now : ℕ) (ts : List Transition) (i hi : ℕ) (es : List Event) (s : SectorInfo)
    → i + length es ≡ hi
    → Within i hi (plan_one_from now ts i es s)
unfolding plan_one_from
plan_one_from-Within now ts i hi [] s h = (omega arith, omega arith)
plan_one_from-Within now ts i hi (e ∷ es) s h = Within-weaken (i + 1) i hi _ (omega arith) (
    plan_one_from-Within_cons now ts i hi e es s (omega arith)
      (λ t. plan_one_from-Within now ts (i + 1) hi es t (omega arith)))

plan_one-Within :
    (now : ℕ) (ts : List Transition) (es : List Event) (s : SectorInfo)
    → Within (least es) (length es) (plan_one now ts es s)
unfolding plan_one
plan_one-Within now ts [] s = plan_one_from-Within now ts 0 0 [] s (omega arith)
plan_one-Within now ts (e ∷ es) s = rw zero-add at (
    plan_one_from-Within_cons now ts 0 (suc (length es)) e es s (omega arith)
      (λ t. plan_one_from-Within now ts (0 + 1) (suc (length es)) es t (omega arith)))

committing_step-Counts :
    (i hi : ℕ) (e : Event) (s : SectorInfo) (rest : SectorInfo → Planned)
    → i + 1 ≤ hi
    → ((t : SectorInfo) → Counts (i + 1) hi (rest t))
    → Counts (i + 1) hi (committing_step i e s rest)
unfolding committing_step
committing_step-Counts i hi (global g) s rest h r = elim (Bool-cases (apply_global g s).1) [
  | inl stop ↦ rw stop (omega arith, h)
  | inr on ↦ rw on (r (apply_global g s).0)
]
committing_step-Counts i hi (mutator (commits (sector_committed p))) s rest h r = r _
committing_step-Counts i hi (mutator (commits (sector_proof_ready p))) s rest h r = r _
committing_step-Counts i hi (mutator (commits (sector_seed_ready v e))) s rest h r =
    elim (Bool-cases (e == s.seed_epoch && same_bytes v s.seed_value)) [
      | inl same ↦ rw same (r s)
      | inr changed ↦ rw changed (omega arith, h)
    ]
committing_step-Counts i hi (mutator (commits (sector_compute_proof_failed e))) s rest h r = r _
committing_step-Counts i hi (mutator (pre_commits (sector_seal_pre_commit1_failed e))) s rest h r =
    r _
committing_step-Counts i hi (mutator (commits (sector_commit_failed e))) s rest h r = r _
committing_step-Counts i hi (mutator (recovers sector_retry_commit_wait)) s rest h r = r _
committing_step-Counts i hi _ s rest h r = omega arith

plan_committing_from-Counts :
    (i hi : ℕ) (es : List Event) (s : SectorInfo)
    → i + length es ≡ hi
    → Counts i hi (plan_committing_from i es s)
unfolding plan_committing_from
plan_committing_from-Counts i hi [] s h = (omega arith, omega arith)
plan_committing_from-Counts i hi (e ∷ es) s h = Counts-weaken (i + 1) i hi _ (omega arith) (
    committing_step-Counts i hi e s _ (omega arith)
      (λ t. plan_committing_from-Counts (i + 1) hi es t (omega arith)))

plan_committing-Counts :
    (es : List Event) (s : SectorInfo) → Counts (least es) (length es) (plan_committing es s)
unfolding plan_committing plan_committing_from
plan_committing-Counts [] s = (omega arith, omega arith)
plan_committing-Counts (e ∷ es) s = rw zero-add at (
    committing_step-Counts 0 (suc (length es)) e s _ (omega arith)
      (λ t. plan_committing_from-Counts (0 + 1) (suc (length es)) es t (omega arith)))

final-Counts : (es : List Event) (s : SectorInfo) → Counts (least es) (length es) (final es s)
unfolding final
final-Counts [] s = omega arith
final-Counts (global g ∷ es) s = (omega arith, omega arith)
final-Counts (mutator m ∷ es) s = omega arith
final-Counts (sector_faulted_final ∷ es) s = omega arith

least-le-length : (es : List Event) → least es ≤ length es
least-le-length [] = omega arith
least-le-length (e ∷ es) = omega arith

ignore_error-Counts : (lo hi : ℕ) (p : Planned) → Within lo hi p → Counts lo hi (ignore_error p)
ignore_error-Counts lo hi (planned n e s) w = w
ignore_error-Counts lo hi panicked w = tt

-- Whatever the planner, it consumes no more events than there are, and where it reports no error it
-- consumes at least one event of a batch that is not empty. (A panic counts nothing.)
pub run_planner-Counts :
    (now : ℕ) (p : Planner) (es : List Event) (s : SectorInfo)
    → Counts (least es) (length es) (run_planner now p es s)
unfolding run_planner plan_one_or_ignore final_removed
run_planner-Counts now (one ts) es s = Within-Counts _ _ _ (plan_one-Within now ts es s)
run_planner-Counts now (one_or_ignore ts) es s =
    ignore_error-Counts _ _ _ (plan_one-Within now ts es s)
run_planner-Counts now in_committing es s = plan_committing-Counts es s
run_planner-Counts now in_final es s = final-Counts es s
run_planner-Counts now in_removed es s = (least-le-length es, omega arith)
