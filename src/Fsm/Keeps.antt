-- ===== src/Fsm/Keeps.antt =====
-- storage-sealing/fsm.go: rules for what a planner keeps of a sector's record.
use venus_sealer.Prelude.{
  ℕ, ◌+◌, ◌≡◌, refl, inl, inr, List, [], ◌∷◌, Option, none, some, All, Bool-cases,
}
use venus_sealer.Sector.Info.{SectorInfo}
use venus_sealer.Sector.Event.{
  GlobalEvent, Mutator, Event, global, mutator, sector_faulted_final, is_ignorable,
}
use venus_sealer.Sector.Apply.{apply, apply_global}
use venus_sealer.Fsm.Planner.{
  Planned, planned, panicked, Action, to, stay, returning, Transition, next, is_undefined,
  find_action, advance, take_action, plan_one_from,
}

-- What holds of the record that a planner leaves.
abbrev pub Holds : (SectorInfo → Type 0) → Planned → Type 0
Holds Q (planned n e s) = Q s
Holds Q panicked = Unit {0}

-- The rule for the loop of `planOne`: `R` holds while the loop goes on, `Q` where it ends.
pub record LoopRule (now : ℕ) (ts : List Transition) (Ok : Event → Type 0)
    (R Q : SectorInfo → Type 0) : Type 0 where
  pub leave : (s : SectorInfo) → R s → Q s
  pub at_global : (g : GlobalEvent) (s : SectorInfo) → Ok (global g) → R s → Q (apply_global g s).0
  pub at_stay :
      (m : Mutator) (s s' : SectorInfo)
      → Ok (mutator m)
      → find_action m ts ≡ some stay
      → apply now m s ≡ some s'
      → R s
      → R s'
  pub at_move :
      (m : Mutator) (act : Action) (s s' : SectorInfo)
      → Ok (mutator m)
      → find_action m ts ≡ some act
      → apply now m s ≡ some s'
      → R s
      → Q (next act s').sector

module _ (now : ℕ) (ts : List Transition) (Ok : Event → Type 0) (R Q : SectorInfo → Type 0)
    (rule : LoopRule now ts Ok R Q) where
  advance-Holds :
      (i : ℕ) (m : Mutator) (act : Action) (s : SectorInfo) (o : Option SectorInfo)
      (rest : SectorInfo → Planned)
      → ((t : SectorInfo) → R t → Holds Q (rest t))
      → Ok (mutator m)
      → find_action m ts ≡ some act
      → apply now m s ≡ o
      → R s
      → Holds Q (advance i act o rest)
  unfolding advance next
  advance-Holds i m act s none rest go ok f a r = tt
  advance-Holds i m (to st) s (some s') rest go ok f a r = rule.at_move m (to st) s s' ok f a r
  advance-Holds i m stay s (some s') rest go ok f a r = go s' (rule.at_stay m s s' ok f a r)
  advance-Holds i m returning s (some s') rest go ok f a r =
      let moved : Q (next returning s').sector = rule.at_move m returning s s' ok f a r in
      elim (Bool-cases (is_undefined s'.return_state)) [
        | inl e ↦ rw e (rw e at moved)
        | inr e ↦ rw e (rw e at moved)
      ]

  take_action-Holds :
      (i : ℕ) (m : Mutator) (act : Option Action) (s : SectorInfo) (rest : SectorInfo → Planned)
      → ((t : SectorInfo) → R t → Holds Q (rest t))
      → Ok (mutator m)
      → find_action m ts ≡ act
      → R s
      → Holds Q (take_action now i m act s rest)
  unfolding take_action
  take_action-Holds i m none s rest go ok f r = elim (Bool-cases (is_ignorable m)) [
    | inl e ↦ rw e (go s r)
    | inr e ↦ rw e (rule.leave s r)
  ]
  take_action-Holds i m (some act) s rest go ok f r =
      advance-Holds i m act s (apply now m s) rest go ok f refl r

  pub plan_one_from-Holds :
      (i : ℕ) (es : List Event) (s : SectorInfo)
      → All Ok es
      → R s
      → Holds Q (plan_one_from now ts i es s)
  unfolding plan_one_from
  plan_one_from-Holds i [] s oks r = rule.leave s r
  plan_one_from-Holds i (global g ∷ es) s oks r = rule.at_global g s oks.0 r
  plan_one_from-Holds i (mutator m ∷ es) s oks r =
      take_action-Holds i m (find_action m ts) s _ (λ t h. plan_one_from-Holds (i + 1) es t oks.1 h)
        oks.0 refl r
  plan_one_from-Holds i (sector_faulted_final ∷ es) s oks r = rule.leave s r
