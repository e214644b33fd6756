-- ===== src/WindowPost/Submit.antt =====
-- storage/wdpost_changehandler.go: the handler that submits the proofs. A window that it tracks is an
-- object that results in flight still refer to, so it has a number.
pub mod InFlight
pub mod Life
use venus_sealer.Prelude.{
  ℕ, zero, suc, ◌+◌, Bool, true, false, ◌==◌, ◌&&◌, ◌||◌, ltb, leb, if◌then◌else◌, List, [], ◌∷◌,
  ◌++◌, Option, none, some,
}
use venus_sealer.WindowPost.{Deadline, PostsCache, posts_get}

pub data SubmitState : Type 0 where
  submit_state_start : SubmitState
  submit_state_submitting : SubmitState
  submit_state_complete : SubmitState

-- `abort` is the number of the submission that it cancels.
pub record PostWindow : Type 0 where
  pub id : ℕ
  pub di : Deadline
  pub submit_state : SubmitState
  pub abort : Option ℕ

abbrev pub submit_confidence : ℕ
submit_confidence = 4

-- A submission is started with its own number and that of its window.
pub data SubmitEffect : Type 0 where
  abort_submit : ℕ → SubmitEffect
  start_submit_post : ℕ → ℕ → SubmitEffect
  record_submit_failure : ℕ → SubmitEffect
  on_submit_abort : ℕ → SubmitEffect

abbrev pub is_empty {ℓ} : {A : Type ℓ} → List A → Bool
is_empty [] = true
is_empty (x ∷ xs) = false

abbrev pub is_start : SubmitState → Bool
is_start submit_state_start = true
is_start _ = false

abbrev pub is_submitting : SubmitState → Bool
is_submitting submit_state_submitting = true
is_submitting _ = false

abbrev pub is_complete : SubmitState → Bool
is_complete submit_state_complete = true
is_complete _ = false

-- `number` is the number of the submission, if one is started.
unfoldable pub submit_if_ready :
    {A : Type 0} → PostsCache A → ℕ → ℕ → PostWindow → List SubmitEffect × PostWindow
submit_if_ready c number height w =
    if leb w.di.close height
    then ([], w)
    else if is_start w.submit_state
    then if ltb height (w.di.open_at + submit_confidence)
      then ([], w)
      else elim (posts_get c w.di) [
        | none ↦ ([], w)
        | some posts ↦
            if is_empty posts then ([], record w { submit_state = submit_state_complete }) else (
              start_submit_post number w.id ∷ [],
              record w { submit_state = submit_state_submitting; abort = some number },
            )
      ]
    else ([], w)

abbrev pub is_reverted : Option ℕ → Deadline → Bool
is_reverted none d = false
is_reverted (some height) d = ltb height d.open_at

-- A new object takes the place of a window whose submission is aborted; `fresh` is its number.
unfoldable pub replace_window : ℕ → PostWindow → List SubmitEffect × PostWindow
replace_window fresh w = elim w.abort [
  | none ↦ ([], w)
  | some a ↦ (
    abort_submit a ∷ [],
    record { id = fresh; di = w.di; submit_state = submit_state_start; abort = none },
  )
]

unfoldable pub reset_window : ℕ → Option ℕ → ℕ → PostWindow → List SubmitEffect × PostWindow
unfolding replace_window
reset_window fresh revert height w =
    let reverted = is_reverted revert w.di in
    if is_submitting w.submit_state && (reverted || leb w.di.close height)
    then replace_window fresh w
    else if is_complete w.submit_state && reverted
    then ([], record w { submit_state = submit_state_start })
    else ([], w)

unfoldable pub process_head_change_for_pw :
    {A : Type 0} → PostsCache A → ℕ → Option ℕ → ℕ → PostWindow → List SubmitEffect × PostWindow
unfolding reset_window submit_if_ready
process_head_change_for_pw c number revert height w =
    let (es, w') = reset_window number revert height w in
    let (es', w'') = submit_if_ready c number height w' in (es ++ es', w'')

-- A result for the window of the number: it leaves every other window as it is.
unfoldable pub settle_window : ℕ → Bool → PostWindow → PostWindow
settle_window i ok w =
    if w.id == i
    then record w { submit_state = if ok then submit_state_complete else submit_state_start }
    else w

-- `numbers` is the next number for a window or a submission.
pub record SubmitHandler : Type 0 where
  pub current_height : ℕ
  pub post_windows : List (ℕ × PostWindow)
  pub numbers : ℕ

-- Start to track the window of the deadline if none is tracked.
unfoldable pub track_window : Deadline → ℕ → List (ℕ × PostWindow) → List (ℕ × PostWindow)
track_window d number [] =
    (d.open_at, record { id = number; di = d; submit_state = submit_state_start; abort = none })
    ∷ []
track_window d number ((k, w) ∷ ws) =
    if k == d.open_at then (k, w) ∷ ws else (k, w) ∷ track_window d number ws

unfoldable pub change_windows :
    {A : Type 0}
    → PostsCache A
    → ℕ
    → Option ℕ
    → ℕ
    → List (ℕ × PostWindow)
    → List SubmitEffect × List (ℕ × PostWindow) × ℕ
unfolding process_head_change_for_pw
change_windows c number revert height [] = ([], [], number)
change_windows c number revert height ((k, w) ∷ ws) =
    let (es, w') = process_head_change_for_pw c number revert height w in
    let (es', ws', number') = change_windows c (suc number) revert height ws in
    (es ++ es', (k, w') ∷ ws', number')

unfoldable pub process_head_change :
    {A : Type 0}
    → PostsCache A
    → Option ℕ
    → ℕ
    → Deadline
    → SubmitHandler
    → List SubmitEffect × SubmitHandler
unfolding track_window change_windows
process_head_change c revert height d s =
    let ws = track_window d s.numbers s.post_windows in
    let (es, ws', number) = change_windows c (suc s.numbers) revert height ws in
    (es, record { current_height = height; post_windows = ws'; numbers = number })

unfoldable pub ready_windows :
    {A : Type 0}
    → PostsCache A
    → ℕ
    → ℕ
    → Deadline
    → List (ℕ × PostWindow)
    → List SubmitEffect × List (ℕ × PostWindow)
unfolding submit_if_ready
ready_windows c number height d [] = ([], [])
ready_windows c number height d ((k, w) ∷ ws) =
    let (es, w') = submit_if_ready c number height w in
    let (es', ws') = ready_windows c number height d ws in
    if k == d.open_at then (es, (k, w') ∷ ws) else (es', (k, w) ∷ ws')

unfoldable pub process_post_ready :
    {A : Type 0} → PostsCache A → Deadline → SubmitHandler → List SubmitEffect × SubmitHandler
unfolding ready_windows
process_post_ready c d s =
    let (es, ws) = ready_windows c s.numbers s.current_height d s.post_windows in
    (es, record s { post_windows = ws; numbers = suc s.numbers })

abbrev pub settle_windows : ℕ → Bool → List (ℕ × PostWindow) → List (ℕ × PostWindow)
settle_windows i ok [] = []
settle_windows i ok ((k, w) ∷ ws) = (k, settle_window i ok w) ∷ settle_windows i ok ws

unfoldable pub process_submit_result : ℕ → Bool → SubmitHandler → List SubmitEffect × SubmitHandler
unfolding settle_window
process_submit_result i ok s = (
  if ok then [] else record_submit_failure i ∷ on_submit_abort i ∷ [],
  record s { post_windows = settle_windows i ok s.post_windows },
)
