-- ===== src/Tests/Calls.antt =====
-- The theorems on sector-storage/manager_calltracker.go and sector-storage/worker_tracked.go, for
-- work 3 that call 8 does.
use venus_sealer.Prelude.{ℕ, ◌≡◌, refl, true, false, none, some, put}
use venus_sealer.Running.{WorkTracker, no_calls, track_call, on_done}
use venus_sealer.Running.Tracked.{Tracked, begins, takes, returns, IsTracked, Tracked-IsTracked}
use venus_sealer.Calls.{
  Manager, returned, get_work, start_work, return_result, wake, wait_work, crashed, undef_call,
  ws_started,
}
use venus_sealer.Calls.Delivery.{IsNew, IsCleared, while_waiting, deliver, deliver_lem}
use venus_sealer.Calls.Stray.{second_waiter}
use venus_sealer.Calls.Failure.{failed_store}

-- Jobs and results are numbers.
abbrev idle : Manager ℕ ℕ
idle = record {
  tracker = no_calls;
  work = λ w. none;
  call_to_work = λ c. none;
  call_res = λ c. none;
  results = λ w. none;
  wait_res = λ w. false;
}

abbrev asked : Manager ℕ ℕ
asked = (get_work 3 idle).1

asked-IsNew : IsNew 3 8 asked
unfolding get_work
asked-IsNew = record {
  state = record { status = ws_started; worker_call = undef_call; work_error = none };
  begun = refl;
  started = refl;
  no_mapping = refl;
  no_channel = refl;
  no_result = refl;
  no_waiter = refl;
}

-- Call 8 returns before the tracker hears that it was taken.
abbrev early : WorkTracker ℕ
early = track_call 8 5 (on_done 8 no_calls)

early-Tracked : Tracked ℕ early (put 8 true (λ c. false)) (put 8 true (λ c. false))
early-Tracked =
    takes 8 5 (on_done 8 no_calls) (λ c. false) (put 8 true (λ c. false))
      (returns 8 no_calls (λ c. false) (λ c. false) begins refl) refl

Tracked-IsTracked_example : IsTracked early (put 8 true (λ c. false)) (put 8 true (λ c. false)) 8
Tracked-IsTracked_example =
    Tracked-IsTracked early (put 8 true (λ c. false)) (put 8 true (λ c. false)) 8 early-Tracked

deliver_lem_example :
    ((deliver 3 8 40 while_waiting asked).0 ≡ returned (some 40))
    × IsCleared 3 asked (deliver 3 8 40 while_waiting asked).1
deliver_lem_example = deliver_lem 3 8 40 while_waiting asked asked-IsNew

abbrev going_on : Manager ℕ ℕ
going_on = (start_work 3 8 asked).1

second_waiter_example :
    ((wake 3 8 true (return_result 8 40 going_on).1).0 ≡ returned (some 40))
    × ((wake 3 8 true (wake 3 8 true (return_result 8 40 going_on).1).1).0 ≡ returned none)
unfolding start_work get_work
second_waiter_example = second_waiter 8 40 going_on 3 refl refl

failed_store_example :
    ((wait_work 3 false (start_work 3 8 (return_result 8 40 asked).1).1).0 ≡ crashed)
    × ((wait_work 3 false (return_result 8 40 (start_work 3 8 asked).1).1).0 ≡ returned (some 40))
failed_store_example = failed_store 3 8 40 asked asked-IsNew
