-- ===== src/WindowPost/Submit/Life.antt =====
-- storage/wdpost_changehandler.go: the life of one window, with the results of its submissions and of
-- those of the objects that it has replaced.
use venus_sealer.Prelude.{
  ℕ, suc, ◌≤◌, ◌≡◌, ◌≢◌, refl, sym, ◌∙◌, ap, Bool, true, false, ◌==◌, ==_iff, if◌then◌else◌, List,
  [], ◌∷◌, ◌++◌, length, Option, none, some, arith, Bool-cases, inl, inr,
}
use venus_sealer.WindowPost.{Deadline, PostsCache}
use venus_sealer.WindowPost.Submit.{
  SubmitState, submit_state_start, submit_state_submitting, submit_state_complete, PostWindow,
  SubmitEffect, abort_submit, start_submit_post, record_submit_failure, on_submit_abort,
  submit_if_ready, reset_window, process_head_change_for_pw, settle_window,
}
use venus_sealer.WindowPost.Submit.InFlight.{
  in_flight_after, of_window, AllBelow, submission, IsTracked, StepTracked,
  submit_if_ready-IsTracked, reset_window-IsTracked, later-IsTracked, idle-IsTracked,
}

in_flight_after-++ :
    (es es' : List SubmitEffect) (fs : List (ℕ × ℕ))
    → in_flight_after (es ++ es') fs ≡ in_flight_after es' (in_flight_after es fs)
in_flight_after-++ [] es' fs = refl
in_flight_after-++ (start_submit_post n i ∷ es) es' fs = in_flight_after-++ es es' ((n, i) ∷ fs)
in_flight_after-++ (abort_submit a ∷ es) es' fs = in_flight_after-++ es es' fs
in_flight_after-++ (record_submit_failure i ∷ es) es' fs = in_flight_after-++ es es' fs
in_flight_after-++ (on_submit_abort i ∷ es) es' fs = in_flight_after-++ es es' fs

pub process_head_change_for_pw-IsTracked :
    {A : Type 0} (c : PostsCache A) (number : ℕ) (revert : Option ℕ) (height : ℕ) (w : PostWindow)
    (fs : List (ℕ × ℕ))
    → IsTracked number w fs
    → StepTracked (suc number) fs (process_head_change_for_pw c number revert height w)
unfolding process_head_change_for_pw
process_head_change_for_pw-IsTracked c number revert height w fs t =
    rw
      (in_flight_after-++ (reset_window number revert height w).0
        (submit_if_ready c number height (reset_window number revert height w).1).0 fs)
      (submit_if_ready-IsTracked c number height (reset_window number revert height w).1 _
        (reset_window-IsTracked number revert height w fs t))

submission-le-1 : (st : SubmitState) (a : Option ℕ) → length (submission st a) ≤ 1
submission-le-1 submit_state_submitting (some a) = omega arith
submission-le-1 submit_state_submitting none = omega arith
submission-le-1 submit_state_start a = omega arith
submission-le-1 submit_state_complete a = omega arith

nothing_left : (ns : List ℕ) → length ns ≡ 0 → ns ≡ []
nothing_left [] e = refl
nothing_left (n ∷ ns) e = absurd (omega (arith, e))

module _ (n i : ℕ) where
  length-arrived :
      (xs ys : List (ℕ × ℕ))
      → length (of_window i (xs ++ (n, i) ∷ ys)) ≡ suc (length (of_window i (xs ++ ys)))
  length-arrived [] ys = rw ((==_iff i i).1 refl) refl
  length-arrived ((m, j) ∷ xs) ys = elim (Bool-cases (j == i)) [
    | inl same ↦ rw same (ap suc (length-arrived xs ys))
    | inr other ↦ rw other (length-arrived xs ys)
  ]

  of_window-arrived :
      (xs ys : List (ℕ × ℕ)) (st : SubmitState) (a : Option ℕ)
      → of_window i (xs ++ (n, i) ∷ ys) ≡ submission st a
      → of_window i (xs ++ ys) ≡ []
  of_window-arrived xs ys st a e =
      let counted = ap length e in
      nothing_left _ (omega (arith, length-arrived xs ys, submission-le-1 st a, counted))

  of_window-other :
      (j : ℕ) (xs ys : List (ℕ × ℕ))
      → (i == j) ≡ false
      → of_window j (xs ++ (n, i) ∷ ys) ≡ of_window j (xs ++ ys)
  of_window-other j [] ys h = rw h refl
  of_window-other j (x ∷ xs) ys h = rw (of_window-other j xs ys h) refl

  below-arrived :
      (number : ℕ) (xs ys : List (ℕ × ℕ))
      → AllBelow number (xs ++ (n, i) ∷ ys)
      → AllBelow number (xs ++ ys)
  below-arrived number [] ys below = below.1
  below-arrived number (x ∷ xs) ys below = (below.0, below-arrived number xs ys below.1)

after_result : Bool → SubmitState
after_result true = submit_state_complete
after_result false = submit_state_start

-- A result of the window's own submission, or of an object that it has replaced.
pub settle_window-IsTracked :
    (n i number : ℕ) (ok : Bool) (w : PostWindow) (xs ys : List (ℕ × ℕ))
    → IsTracked number w (xs ++ (n, i) ∷ ys)
    → IsTracked number (settle_window i ok w) (xs ++ ys)
unfolding settle_window
settle_window-IsTracked n i number ok w xs ys t = elim (Bool-cases (w.id == i)) [
  | inr other ↦
      let apart = other_way other in
      rw other record {
        own = sym (of_window-other n i w.id xs ys apart) ∙ t.own;
        abortable = t.abortable;
        numbered = t.numbered;
        below = below-arrived n i number xs ys t.below;
      }
  | inl same ↦
      let here = (==_iff w.id i).0 same in
      let left =
        ap (λ k. of_window k (xs ++ ys)) here
        ∙ of_window-arrived n i xs ys w.submit_state w.abort
            (sym (ap (λ k. of_window k (xs ++ (n, i) ∷ ys)) here) ∙ t.own) in
      rw same (
        idle-IsTracked number w.id w.di _ w.abort (xs ++ ys) (not_submitting ok) left t.numbered
          (below-arrived n i number xs ys t.below))
]
  where
    other_way : (w.id == i) ≡ false → (i == w.id) ≡ false
    other_way h = ground arith

    not_submitting :
        (b : Bool)
        → (if b then submit_state_complete else submit_state_start) ≢ submit_state_submitting
    not_submitting true = λ h. cc
    not_submitting false = λ h. cc

-- What happens to a window from when it is first tracked: head changes, a proof that is ready, and
-- the results of the submissions in flight, those of aborted ones included, in any order. The
-- arguments are the next unused number, the window and what is in flight.
pub data Life (A : Type 0) : ℕ → PostWindow → List (ℕ × ℕ) → Type 0 where
  is_tracked :
      (i : ℕ) (d : Deadline)
      → Life A
          (suc i)
          (record { id = i; di = d; submit_state = submit_state_start; abort = none })
          []
  head_changes :
      (c : PostsCache A) (number : ℕ) (revert : Option ℕ) (height : ℕ) (w : PostWindow)
      (fs : List (ℕ × ℕ))
      → Life A number w fs
      → Life A
          (suc number)
          (process_head_change_for_pw c number revert height w).1
          (in_flight_after (process_head_change_for_pw c number revert height w).0 fs)
  is_ready :
      (c : PostsCache A) (number height : ℕ) (w : PostWindow) (fs : List (ℕ × ℕ))
      → Life A number w fs
      → Life A
          (suc number)
          (submit_if_ready c number height w).1
          (in_flight_after (submit_if_ready c number height w).0 fs)
  result_arrives :
      (number n i : ℕ) (ok : Bool) (w : PostWindow) (xs ys : List (ℕ × ℕ))
      → Life A number w (xs ++ (n, i) ∷ ys)
      → Life A number (settle_window i ok w) (xs ++ ys)

-- Through any such life, at most one submission is in flight for the window itself: the one that the
-- window can abort while it is submitting, and none otherwise. The results of aborted submissions do
-- not disturb it.
pub Life-IsTracked :
    {A : Type 0} (number : ℕ) (w : PostWindow) (fs : List (ℕ × ℕ))
    → Life A number w fs
    → IsTracked number w fs
Life-IsTracked number w fs (is_tracked i d) =
    idle-IsTracked (suc i) i d submit_state_start none [] (λ h. cc) refl (omega arith) tt
Life-IsTracked number w fs (head_changes c k revert height v gs l) =
    process_head_change_for_pw-IsTracked c k revert height v gs (Life-IsTracked k v gs l)
Life-IsTracked number w fs (is_ready c k height v gs l) =
    submit_if_ready-IsTracked c k height v gs (later-IsTracked k v gs (Life-IsTracked k v gs l))
Life-IsTracked number w fs (result_arrives k n i ok v xs ys l) =
    settle_window-IsTracked n i k ok v xs ys (Life-IsTracked k v (xs ++ (n, i) ∷ ys) l)
