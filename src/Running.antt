-- ===== src/Running.antt =====
-- sector-storage/worker_tracked.go: which calls run on workers. Each function runs under the mutex `lk`
-- from one unlock to the next. A CallID and a uuid are numbers; the tracked jobs are of any type.
pub mod Tracked
use venus_sealer.Prelude.{ℕ, Bool, true, false, if◌then◌else◌, Option, none, some, put}

-- `workTracker`.
pub record WorkTracker (J : Type 0) : Type 0 where
  pub done : ℕ → Bool
  pub running : ℕ → Option J
  pub prepared : ℕ → Option J

abbrev pub no_calls : {J : Type 0} → WorkTracker J
no_calls = record { done = λ c. false; running = λ c. none; prepared = λ u. none }

module _ {J : Type 0} where
  unfoldable pub on_done : ℕ → WorkTracker J → WorkTracker J
  on_done call wt = elim (wt.running call) [
    | none ↦ record wt { done = put call true wt.done }
    | some j ↦ record wt { running = put call none wt.running }
  ]

  -- `track` while the task waits for its resources, and when it stops waiting or is cancelled.
  unfoldable pub prepare : ℕ → J → WorkTracker J → WorkTracker J
  prepare u j wt = record wt { prepared = put u (some j) wt.prepared }

  unfoldable pub end_prepare : ℕ → WorkTracker J → WorkTracker J
  end_prepare u wt = record wt { prepared = put u none wt.prepared }

  -- `track` once the worker has taken the call, without an error.
  unfoldable pub track_call : ℕ → J → WorkTracker J → WorkTracker J
  track_call call j wt =
      if wt.done call
      then record wt { done = put call false wt.done }
      else record wt { running = put call (some j) wt.running }
