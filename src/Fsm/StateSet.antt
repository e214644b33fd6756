-- ===== src/Fsm/StateSet.antt =====
-- storage-sealing/fsm.go: sets of states that the planners do not leave.
use mathlib.Core.Option.{some-injective}
use venus_sealer.Prelude.{
  ℕ, ◌+◌, ◌≡◌, refl, inl, inr, Bool, true, false, ◌&&◌, ◌||◌, ◌==◌, ==_iff, List, [], ◌∷◌, Option,
  none, some, All, Bool-cases, arith,
}
use venus_sealer.Sector.State.{
  SectorState, submit_commit, commit_finalize, committing, compute_proof_failed,
  seal_pre_commit1_failed, commit_failed, commit_wait, removing, terminating,
}
use venus_sealer.Sector.Info.{SectorInfo}
use venus_sealer.Sector.Event.{
  GlobalEvent, Mutator, Event, global, mutator, sector_faulted_final, recovers, commits,
  pre_commits, sector_invalid_deal_ids, sector_restart, sector_fatal_error, sector_force_state,
  sector_terminate, sector_remove, type_of, same_type, sector_seal_pre_commit1_failed,
  sector_seed_ready, sector_compute_proof_failed, sector_commit_failed, sector_committed,
  sector_proof_ready, sector_retry_commit_wait,
}
use venus_sealer.Sector.Apply.{apply, apply_global, apply_commit}
use venus_sealer.Sector.Frame.{new_return, apply-Frame}
use venus_sealer.Fsm.Planner.{
  Planned, planned, panicked, Action, to, stay, returning, Transition, next, is_undefined,
  find_action, plan_one, ignore_error, plan_one_or_ignore, committing_step, plan_committing_from,
  plan_committing, same_bytes, final, final_removed, Planner, one, one_or_ignore, in_committing,
  in_final, in_removed, run_planner,
}
use venus_sealer.Fsm.Keeps.{Holds, LoopRule, plan_one_from-Holds}

-- A set of states, and the types of the mutators that are left out.
module _ (inside : SectorState → Bool) (barred : ℕ → Bool) where
  abbrev pub action_stays : Action → Bool
  action_stays (to st) = inside st
  action_stays stay = true
  action_stays returning = true

  -- Each transition stays in the set or is barred.
  abbrev pub table_stays : List Transition → Bool
  table_stays [] = true
  table_stays (t ∷ ts) = (barred (type_of t.mut) || action_stays t.action) && table_stays ts

  -- The targets of `planCommitting`.
  abbrev pub committing_stays : Bool
  committing_stays =
      inside submit_commit
      && inside commit_finalize
      && inside committing
      && inside compute_proof_failed
      && inside seal_pre_commit1_failed
      && inside commit_failed
      && inside commit_wait

  abbrev pub planner_stays : Option Planner → Bool
  planner_stays none = true
  planner_stays (some (one ts)) = table_stays ts
  planner_stays (some (one_or_ignore ts)) = table_stays ts
  planner_stays (some in_committing) = committing_stays
  planner_stays (some in_final) = true
  planner_stays (some in_removed) = true

  abbrev pub return_stays : SectorState → Bool
  return_stays r = is_undefined r || inside r

  -- A return state that an event stores is in the set too.
  abbrev pub ReturnAdmits : Mutator → Type 0
  ReturnAdmits (recovers (sector_invalid_deal_ids r)) = return_stays r ≡ true
  ReturnAdmits _ = Unit {0}

  -- The events that are not barred and name no state outside of the set.
  abbrev pub Admits : Event → Type 0
  Admits (global sector_restart) = Unit {0}
  Admits (global (sector_fatal_error e)) = Unit {0}
  Admits (global (sector_force_state st)) = inside st ≡ true
  Admits (global sector_terminate) = inside terminating ≡ true
  Admits (global sector_remove) = inside removing ≡ true
  Admits (mutator m) = (barred (type_of m) ≡ false) × ReturnAdmits m
  Admits sector_faulted_final = Unit {0}

  pub record Stays (s : SectorInfo) : Type 0 where
    pub state_in : inside s.state ≡ true
    pub return_in : return_stays s.return_state ≡ true

  find_action-stays :
      (m : Mutator) (ts : List Transition) (act : Action)
      → table_stays ts ≡ true
      → barred (type_of m) ≡ false
      → find_action m ts ≡ some act
      → action_stays act ≡ true
  unfolding find_action same_type
  find_action-stays m [] act t b f = cc
  find_action-stays m (x ∷ ts) act t b f = elim (Bool-cases (type_of m == type_of x.mut)) [
    | inl e ↦
        let same : type_of m ≡ type_of x.mut = (==_iff _ _).0 e in
        let open' : barred (type_of x.mut) ≡ false = rw (← same) b in
        let hit : x.action ≡ act = some-injective _ _ (rw e at f) in rw (← hit) (ground arith)
    | inr e ↦ find_action-stays m ts act (ground arith) b (rw e at f)
  ]

  new_return-stays :
      (m : Mutator) (s : SectorInfo)
      → ReturnAdmits m
      → return_stays s.return_state ≡ true
      → return_stays (new_return m s) ≡ true
  new_return-stays (recovers (sector_invalid_deal_ids r)) s a h = a
  new_return-stays _ s a h = h

  apply-Stays :
      (now : ℕ) (m : Mutator) (s s' : SectorInfo)
      → ReturnAdmits m
      → apply now m s ≡ some s'
      → Stays s
      → Stays s'
  apply-Stays now m s s' a e h =
      let f = apply-Frame now m s s' e in
      record {
        state_in = rw f.same_state h.state_in;
        return_in = rw f.returns (new_return-stays m s a h.return_in);
      }

  global-Stays :
      (g : GlobalEvent) (s : SectorInfo) → Admits (global g) → Stays s → Stays (apply_global g s).0
  unfolding apply_global
  global-Stays sector_restart s a h = h
  global-Stays (sector_fatal_error e) s a h = h
  global-Stays (sector_force_state st) s a h = record { state_in = a; return_in = h.return_in }
  global-Stays sector_terminate s a h = record { state_in = a; return_in = h.return_in }
  global-Stays sector_remove s a h = record { state_in = a; return_in = h.return_in }

  next-Stays :
      (act : Action) (s : SectorInfo)
      → action_stays act ≡ true
      → Stays s
      → Stays (next act s).sector
  unfolding next
  next-Stays (to st) s a h = record { state_in = a; return_in = h.return_in }
  next-Stays stay s a h = h
  next-Stays returning s a h = elim (Bool-cases (is_undefined s.return_state)) [
    | inl e ↦ rw e h
    | inr e ↦ rw e (record { state_in = rw e at h.return_in; return_in = refl })
  ]

  Stays-LoopRule :
      (now : ℕ) (ts : List Transition) → table_stays ts ≡ true → LoopRule now ts Admits Stays Stays
  Stays-LoopRule now ts t = record {
    leave = λ s h. h;
    at_global = global-Stays;
    at_stay = λ m s s' ok f e h. apply-Stays now m s s' ok.1 e h;
    at_move = λ m act s s' ok f e h.
        next-Stays act s' (find_action-stays m ts act t ok.0 f) (apply-Stays now m s s' ok.1 e h);
  }

  plan_one-Stays :
      (now : ℕ) (ts : List Transition) (es : List Event) (s : SectorInfo)
      → table_stays ts ≡ true
      → All Admits es
      → Stays s
      → Holds Stays (plan_one now ts es s)
  unfolding plan_one
  plan_one-Stays now ts es s t a h =
      plan_one_from-Holds now ts Admits Stays Stays (Stays-LoopRule now ts t) 0 es s a h

  ignore_error-Holds : (p : Planned) → Holds Stays p → Holds Stays (ignore_error p)
  ignore_error-Holds (planned n e s) h = h
  ignore_error-Holds panicked h = tt

  committing_step-Stays :
      (i : ℕ) (e : Event) (s : SectorInfo) (rest : SectorInfo → Planned)
      → committing_stays ≡ true
      → Admits e
      → Stays s
      → ((t : SectorInfo) → Stays t → Holds Stays (rest t))
      → Holds Stays (committing_step i e s rest)
  unfolding committing_step apply_commit
  committing_step-Stays i (global g) s rest c a h r = elim (Bool-cases (apply_global g s).1) [
    | inl stop ↦ rw stop (global-Stays g s a h)
    | inr on ↦ rw on (r _ (global-Stays g s a h))
  ]
  committing_step-Stays i (mutator (commits (sector_committed p))) s rest c a h r =
      r _ (record { state_in = ground arith; return_in = h.return_in })
  committing_step-Stays i (mutator (commits (sector_proof_ready p))) s rest c a h r =
      r _ (record { state_in = ground arith; return_in = h.return_in })
  committing_step-Stays i (mutator (commits (sector_seed_ready v e))) s rest c a h r =
      elim (Bool-cases (e == s.seed_epoch && same_bytes v s.seed_value)) [
        | inl same ↦ rw same (r s h)
        | inr changed ↦ rw changed (record { state_in = ground arith; return_in = h.return_in })
      ]
  committing_step-Stays i (mutator (commits (sector_compute_proof_failed e))) s rest c a h r =
      r _ (record { state_in = ground arith; return_in = h.return_in })
  committing_step-Stays i (mutator (pre_commits (sector_seal_pre_commit1_failed e))) s rest c a h
        r =
      r _ (record { state_in = ground arith; return_in = h.return_in })
  committing_step-Stays i (mutator (commits (sector_commit_failed e))) s rest c a h r =
      r _ (record { state_in = ground arith; return_in = h.return_in })
  committing_step-Stays i (mutator (recovers sector_retry_commit_wait)) s rest c a h r =
      r _ (record { state_in = ground arith; return_in = h.return_in })
  committing_step-Stays i _ s rest c a h r = h

  plan_committing_from-Stays :
      (i : ℕ) (es : List Event) (s : SectorInfo)
      → committing_stays ≡ true
      → All Admits es
      → Stays s
      → Holds Stays (plan_committing_from i es s)
  unfolding plan_committing_from
  plan_committing_from-Stays i [] s c a h = h
  plan_committing_from-Stays i (e ∷ es) s c a h =
      committing_step-Stays i e s _ c a.0 h
        (λ t h'. plan_committing_from-Stays (i + 1) es t c a.1 h')

  final-Stays :
      (es : List Event) (s : SectorInfo) → All Admits es → Stays s → Holds Stays (final es s)
  unfolding final
  final-Stays [] s a h = h
  final-Stays (global g ∷ es) s a h = global-Stays g s a.0 h
  final-Stays (mutator m ∷ es) s a h = h
  final-Stays (sector_faulted_final ∷ es) s a h = h

  pub run_planner-Stays :
      (now : ℕ) (p : Planner) (es : List Event) (s : SectorInfo)
      → planner_stays (some p) ≡ true
      → All Admits es
      → Stays s
      → Holds Stays (run_planner now p es s)
  unfolding run_planner plan_one_or_ignore plan_committing final_removed
  run_planner-Stays now (one ts) es s t a h = plan_one-Stays now ts es s t a h
  run_planner-Stays now (one_or_ignore ts) es s t a h =
      ignore_error-Holds _ (plan_one-Stays now ts es s t a h)
  run_planner-Stays now in_committing es s t a h = plan_committing_from-Stays 0 es s t a h
  run_planner-Stays now in_final es s t a h = final-Stays es s a h
  run_planner-Stays now in_removed es s t a h = h
