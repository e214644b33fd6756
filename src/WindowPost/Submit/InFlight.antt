-- ===== src/WindowPost/Submit/InFlight.antt =====
-- storage/wdpost_changehandler.go: the submissions of a window whose results have not arrived yet.
use venus_sealer.Prelude.{
  ℕ, suc, ◌+◌, ◌<◌, ◌≤◌, ◌≡◌, ◌≢◌, refl, ◌∙◌, ap, Bool, true, false, ◌==◌, ◌&&◌, ◌||◌, ltb, leb,
  ==_iff, if◌then◌else◌, List, [], ◌∷◌, Option, none, some, arith, Bool-cases, Option-cases, inl,
  inr, All, and-true,
}
use venus_sealer.WindowPost.{Deadline, PostsCache, posts_get}
use venus_sealer.WindowPost.Submit.{
  SubmitState, submit_state_start, submit_state_submitting, submit_state_complete, PostWindow,
  SubmitEffect, abort_submit, start_submit_post, record_submit_failure, on_submit_abort, is_start,
  is_complete, is_submitting, is_reverted, is_empty, submit_if_ready, reset_window, replace_window,
}

-- The submissions in flight, each with the number of its window.
abbrev pub in_flight_after : List SubmitEffect → List (ℕ × ℕ) → List (ℕ × ℕ)
in_flight_after [] fs = fs
in_flight_after (start_submit_post n i ∷ es) fs = in_flight_after es ((n, i) ∷ fs)
in_flight_after (abort_submit a ∷ es) fs = in_flight_after es fs
in_flight_after (record_submit_failure i ∷ es) fs = in_flight_after es fs
in_flight_after (on_submit_abort i ∷ es) fs = in_flight_after es fs

-- Those of one window.
abbrev pub of_window : ℕ → List (ℕ × ℕ) → List ℕ
of_window i [] = []
of_window i ((n, j) ∷ fs) = if j == i then n ∷ of_window i fs else of_window i fs

abbrev pub AllBelow : ℕ → List (ℕ × ℕ) → Type 0
AllBelow number fs = All (λ f. f.1 < number) fs

-- What the window says of its submission.
abbrev pub submission : SubmitState → Option ℕ → List ℕ
submission submit_state_submitting (some a) = a ∷ []
submission _ _ = []

-- The window's own submission is the one in flight for it, and it can be aborted.
pub record IsTracked (number : ℕ) (w : PostWindow) (fs : List (ℕ × ℕ)) : Type 0 where
  pub own : of_window w.id fs ≡ submission w.submit_state w.abort
  pub abortable : w.submit_state ≡ submit_state_submitting → w.abort ≢ none
  pub numbered : w.id < number
  pub below : AllBelow number fs

pub below_later : (a b : ℕ) (fs : List (ℕ × ℕ)) → a ≤ b → AllBelow a fs → AllBelow b fs
below_later a b [] le below = below
below_later a b (f ∷ fs) le below = (omega (arith, le, below.0), below_later a b fs le below.1)

-- A new number has nothing in flight.
of_fresh : (i : ℕ) (fs : List (ℕ × ℕ)) → AllBelow i fs → of_window i fs ≡ []
of_fresh i [] below = refl
of_fresh i ((n, j) ∷ fs) below = elim (Bool-cases (j == i)) [
  | inl same ↦ let here = (==_iff j i).0 same in let less = below.0 in absurd (omega arith)
  | inr other ↦ rw other (of_fresh i fs below.1)
]

pub of_own : (n i : ℕ) (fs : List (ℕ × ℕ)) → of_window i ((n, i) ∷ fs) ≡ n ∷ of_window i fs
of_own n i fs = rw ((==_iff i i).1 refl) refl

if_either {ℓ κ} :
    {X : Type ℓ} (P : X → Type κ) (b : Bool) (x y : X)
    → (b ≡ true → P x)
    → (b ≡ false → P y)
    → P (if b then x else y)
if_either P true x y p q = p refl
if_either P false x y p q = q refl

start_idle : (st : SubmitState) (a : Option ℕ) → is_start st ≡ true → submission st a ≡ []
start_idle submit_state_start a h = refl
start_idle submit_state_submitting a h = cc
start_idle submit_state_complete a h = cc

complete_idle : (st : SubmitState) (a : Option ℕ) → is_complete st ≡ true → submission st a ≡ []
complete_idle submit_state_complete a h = refl
complete_idle submit_state_submitting a h = cc
complete_idle submit_state_start a h = cc

submitting_iff : (st : SubmitState) → is_submitting st ≡ true → st ≡ submit_state_submitting
submitting_iff submit_state_submitting h = refl
submitting_iff submit_state_start h = cc
submitting_iff submit_state_complete h = cc

-- A window that is not submitting and has nothing in flight is tracked.
pub idle-IsTracked :
    (number i : ℕ) (d : Deadline) (st : SubmitState) (a : Option ℕ) (fs : List (ℕ × ℕ))
    → st ≢ submit_state_submitting
    → of_window i fs ≡ []
    → i < number
    → AllBelow number fs
    → IsTracked number (record { id = i; di = d; submit_state = st; abort = a }) fs
idle-IsTracked number i d submit_state_submitting a fs idle none_own lt below = absurd (idle refl)
idle-IsTracked number i d submit_state_start a fs idle none_own lt below = record {
  own = none_own;
  abortable = λ h. absurd (idle h);
  numbered = lt;
  below = below;
}
idle-IsTracked number i d submit_state_complete a fs idle none_own lt below = record {
  own = none_own;
  abortable = λ h. absurd (idle h);
  numbered = lt;
  below = below;
}

-- The window and the submissions in flight after a step.
abbrev pub StepTracked : ℕ → List (ℕ × ℕ) → List SubmitEffect × PostWindow → Type 0
StepTracked number fs r = IsTracked number r.1 (in_flight_after r.0 fs)

pub later-IsTracked :
    (number : ℕ) (w : PostWindow) (fs : List (ℕ × ℕ))
    → IsTracked number w fs
    → IsTracked (suc number) w fs
later-IsTracked number w fs t = record {
  own = t.own;
  abortable = t.abortable;
  numbered = omega (arith, t.numbered);
  below = below_later number (suc number) fs (omega arith) t.below;
}

pub submit_if_ready-IsTracked :
    {A : Type 0} (c : PostsCache A) (number height : ℕ) (w : PostWindow) (fs : List (ℕ × ℕ))
    → IsTracked (suc number) w fs
    → StepTracked (suc number) fs (submit_if_ready c number height w)
unfolding submit_if_ready
submit_if_ready-IsTracked c number height w fs t =
    if_either (StepTracked (suc number) fs) (leb w.di.close height) _ _ (λ over. t)
      λ open_still.
        if_either (StepTracked (suc number) fs) (is_start w.submit_state) _ _
          (λ start.
            if_either (StepTracked (suc number) fs) (ltb height (w.di.open_at + 4)) _ _ (λ early. t)
              (λ ripe. ready start))
          (λ busy. t)
  where
    ready :
        is_start w.submit_state ≡ true
        → StepTracked (suc number) fs (elim (posts_get c w.di) [
          | none ↦ ([], w)
          | some posts ↦
              if is_empty posts then ([], record w { submit_state = submit_state_complete }) else (
                start_submit_post number w.id ∷ [],
                record w { submit_state = submit_state_submitting; abort = some number },
              )
        ])
    ready start =
        let idle = t.own ∙ start_idle w.submit_state w.abort start in
        elim (Option-cases (posts_get c w.di)) [
          | inl unproved ↦ rw unproved t
          | inr (posts, proved) ↦ rw proved (
              if_either (StepTracked (suc number) fs) (is_empty posts) _ _
                (λ nothing.
                  idle-IsTracked (suc number) w.id w.di submit_state_complete w.abort fs (λ h. cc)
                    idle t.numbered t.below)
                (λ something. record {
                  own = of_own number w.id fs ∙ ap (λ ns. number ∷ ns) idle;
                  abortable = λ h k. cc;
                  numbered = t.numbered;
                  below = (t.numbered, t.below);
                }))
        ]

pub reset_window-IsTracked :
    (number : ℕ) (revert : Option ℕ) (height : ℕ) (w : PostWindow) (fs : List (ℕ × ℕ))
    → IsTracked number w fs
    → StepTracked (suc number) fs (reset_window number revert height w)
unfolding reset_window replace_window
reset_window-IsTracked number revert height w fs t =
    if_either (StepTracked (suc number) fs)
      (is_submitting w.submit_state && (is_reverted revert w.di || leb w.di.close height))
      (replace_window number w) _
      (λ stop. elim (Option-cases w.abort) [
        | inl missing ↦
            absurd (t.abortable (submitting_iff w.submit_state (and-true _ _ stop).0) missing)
        | inr (a, running) ↦ rw running (
            idle-IsTracked (suc number) number w.di submit_state_start none fs (λ h. cc)
              (of_fresh number fs t.below) (omega arith)
              (below_later number (suc number) fs (omega arith) t.below))
      ])
      (λ keep.
        if_either (StepTracked (suc number) fs)
          (is_complete w.submit_state && is_reverted revert w.di) _ _
          (λ again.
            idle-IsTracked (suc number) w.id w.di submit_state_start w.abort fs (λ h. cc)
              (t.own ∙ complete_idle w.submit_state w.abort (and-true _ _ again).0)
              (omega (arith, t.numbered))
              (below_later number (suc number) fs (omega arith) t.below))
          (λ same. later-IsTracked number w fs t))
