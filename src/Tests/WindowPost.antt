-- ===== src/Tests/WindowPost.antt =====
-- The theorems on storage/wdpost_changehandler.go on a network with windows of 60 epochs.
use venus_sealer.Prelude.{
  ℕ, ◌+◌, ◌*◌, ◌≡◌, refl, ltb, lt→ltb, true, if◌then◌else◌, List, [], ◌∷◌, none, some, arith,
}
use venus_sealer.WindowPost.{
  Deadline, Network, next_deadline, PostsCache, posts_get, posts_add, skip_proved, CurrentPost,
  ProveHandler, Effect, abort, start_generate_post, generated, expire, start_proof,
  process_head_change, process_post_result,
}
use venus_sealer.WindowPost.Skip.{IsNetwork, windows_on, AllProved, skip_proved-unproved}
use venus_sealer.WindowPost.Single.{
  remove_id, running_after, current_ids, Runs, begins, head_changes, Runs-running,
  stale_success-two,
}
use venus_sealer.WindowPost.Submit.{
  PostWindow, submit_state_start, submit_state_submitting, submit_if_ready, replace_window,
  reset_window, process_head_change_for_pw, settle_window,
}
use venus_sealer.WindowPost.Submit.InFlight.{IsTracked}
use venus_sealer.WindowPost.Submit.Life.{
  Life, is_tracked, head_changes as window_head_changes, is_ready, result_arrives, Life-IsTracked,
}

abbrev day : Network
day = record {
  new_info = λ s i e. record {
    current_epoch = e;
    period_start = s;
    index = i;
    open_at = if ltb i 48 then s + i * 60 else s + 2880;
    close = if ltb i 48 then s + i * 60 + 60 else s + 2880;
    challenge = s + i * 60;
  };
  period_deadlines = 48;
  proving_period = 2880;
}

day-IsNetwork : IsNetwork day 60
day-IsNetwork = record {
  keeps_start = λ s i e. refl;
  keeps_index = λ s i e. refl;
  opens = λ s i e lt. rw (lt→ltb i 48 lt) refl;
  period = refl;
  window_positive = omega arith;
}

-- The last window of the first period, and the first of the next.
abbrev last_window : Deadline
last_window = day.new_info 0 47 2825

abbrev last_proved : PostsCache ℕ
last_proved = (2820, 5 ∷ []) ∷ []

next_period : skip_proved 2 day last_proved last_window ≡ some (day.new_info 2880 0 2825)
unfolding skip_proved posts_get next_deadline
next_period = refl

skip_proved-unproved_example :
    (k : ℕ) × (skip_proved 2 day last_proved last_window ≡ some (windows_on day k last_window))
    × (posts_get last_proved (windows_on day k last_window) ≡ none)
    × AllProved day last_proved k last_window
skip_proved-unproved_example =
    skip_proved-unproved day 60 last_proved 2 last_window day-IsNetwork (refl, omega arith)
      (omega arith)

abbrev idle : ProveHandler ℕ
idle = record { current = none; posts = []; started = 0 }

abbrev first_proof : CurrentPost
first_proof = record { id = 0; di = day.new_info 0 0 15 }

abbrev second_proof : CurrentPost
second_proof = record { id = 1; di = day.new_info 0 1 75 }

abbrev proving_first : ProveHandler ℕ
proving_first = record { current = some first_proof; posts = []; started = 1 }

abbrev proving_second : ProveHandler ℕ
proving_second = record { current = some second_proof; posts = []; started = 2 }

-- The first window is proved from epoch 15 on, and at epoch 75 it is over.
proving_second-Runs : Runs ℕ proving_second (1 ∷ [])
unfolding process_head_change expire start_proof skip_proved posts_get
proving_second-Runs =
    head_changes 1 day 75 (day.new_info 0 1 75) proving_first proving_second
      (abort 0 ∷ start_generate_post 1 (day.new_info 0 1 75) ∷ []) (0 ∷ [])
      (head_changes 1 day 15 (day.new_info 0 0 15) idle proving_first
        (start_generate_post 0 (day.new_info 0 0 15) ∷ []) [] begins refl)
      refl

Runs-running_example : ◌≡◌ {A = List ℕ} (1 ∷ []) (current_ids proving_second.current)
Runs-running_example = Runs-running proving_second (1 ∷ []) proving_second-Runs

window_unproved :
    skip_proved 2 day (posts_add first_proof.di (9 ∷ []) proving_second.posts) (day.new_info 0 1 80)
    ≡ some (day.new_info 0 1 80)
unfolding skip_proved posts_add posts_get
window_unproved = refl

-- The first proof succeeds after it was aborted.
stale_success-two_example :
    (es : List Effect) × (q : ProveHandler ℕ) × (process_head_change 2 day 80
        (day.new_info 0 1 80)
        (process_post_result first_proof (generated (9 ∷ [])) proving_second).1
      ≡ some (es, q))
    × (running_after es (remove_id 0 (current_ids proving_second.current)) ≡ 2 ∷ 1 ∷ [])
stale_success-two_example =
    stale_success-two 2 day 80 (day.new_info 0 1 80) (day.new_info 0 1 80) proving_second
      first_proof second_proof (9 ∷ []) refl (omega arith) window_unproved refl

-- The window at epoch 0 is submitted at epoch 5, a revert aborts that, and the submission that follows
-- has its result before the aborted one.
abbrev window : Deadline
window = day.new_info 0 1 65

abbrev window_proved : PostsCache ℕ
window_proved = (60, 8 ∷ []) ∷ []

abbrev first_submission : PostWindow
first_submission = record {
  id = 0;
  di = window;
  submit_state = submit_state_submitting;
  abort = some 1;
}

abbrev second_submission : PostWindow
second_submission = record {
  id = 2;
  di = window;
  submit_state = submit_state_submitting;
  abort = some 3;
}

second_submission-Life : Life ℕ 4 second_submission ((3, 2) ∷ (1, 0) ∷ [])
unfolding process_head_change_for_pw reset_window replace_window submit_if_ready posts_get
second_submission-Life =
    is_ready window_proved 3 70
      (record { id = 2; di = window; submit_state = submit_state_start; abort = none })
      ((1, 0) ∷ [])
      (window_head_changes window_proved 2 (some 50) 61 first_submission ((1, 0) ∷ []) (
        is_ready window_proved 1 65
          (record { id = 0; di = window; submit_state = submit_state_start; abort = none }) []
          (is_tracked 0 window)))

settled-Life : Life ℕ 4 (settle_window 0 true second_submission) ((3, 2) ∷ [])
settled-Life = result_arrives 4 1 0 true second_submission ((3, 2) ∷ []) [] second_submission-Life

Life-IsTracked_example : IsTracked 4 (settle_window 0 true second_submission) ((3, 2) ∷ [])
Life-IsTracked_example =
    Life-IsTracked 4 (settle_window 0 true second_submission) ((3, 2) ∷ []) settled-Life
