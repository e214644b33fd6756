-- ===== src/Running/Tracked.antt =====
-- sector-storage/worker_tracked.go: `workTracker` against the calls that were taken and returned.
use venus_sealer.Prelude.{ℕ, ◌≡◌, refl, Bool, true, false, not, ◌&&◌, ==_iff, is_some, put, arith}
use venus_sealer.Running.{WorkTracker, no_calls, on_done, prepare, end_prepare, track_call}

-- A run of the tracker, with the calls that workers have taken and those that have returned, each at
-- most once and in either order.
pub data Tracked (J : Type 0) : WorkTracker J → (ℕ → Bool) → (ℕ → Bool) → Type 0 where
  begins : Tracked J no_calls (λ c. false) (λ c. false)
  prepares :
      (u : ℕ) (j : J) (wt : WorkTracker J) (taken back : ℕ → Bool)
      → Tracked J wt taken back
      → Tracked J (prepare u j wt) taken back
  stops_preparing :
      (u : ℕ) (wt : WorkTracker J) (taken back : ℕ → Bool)
      → Tracked J wt taken back
      → Tracked J (end_prepare u wt) taken back
  takes :
      (call : ℕ) (j : J) (wt : WorkTracker J) (taken back : ℕ → Bool)
      → Tracked J wt taken back
      → taken call ≡ false
      → Tracked J (track_call call j wt) (put call true taken) back
  returns :
      (call : ℕ) (wt : WorkTracker J) (taken back : ℕ → Bool)
      → Tracked J wt taken back
      → back call ≡ false
      → Tracked J (on_done call wt) taken (put call true back)

-- What the tracker holds of a call.
pub record IsTracked {J : Type 0} (wt : WorkTracker J) (taken back : ℕ → Bool) (c : ℕ)
    : Type 0 where
  pub runs : is_some (wt.running c) ≡ (taken c && not (back c))
  pub waits : wt.done c ≡ (back c && not (taken c))

module _ {J : Type 0} (wt : WorkTracker J) (taken back : ℕ → Bool) (call : ℕ) where
  track_call-IsTracked :
      (j : J) (c : ℕ)
      → taken call ≡ false
      → IsTracked wt taken back call
      → IsTracked wt taken back c
      → IsTracked (track_call call j wt) (put call true taken) back c
  unfolding track_call
  track_call-IsTracked j c new here there = ground (arith, ==_iff c call)

  on_done-IsTracked :
      (c : ℕ)
      → back call ≡ false
      → IsTracked wt taken back call
      → IsTracked wt taken back c
      → IsTracked (on_done call wt) taken (put call true back) c
  unfolding on_done
  on_done-IsTracked c new here there = ground (arith, ==_iff c call)

  prepare-IsTracked :
      (j : J) (c : ℕ) → IsTracked wt taken back c → IsTracked (prepare call j wt) taken back c
  unfolding prepare
  prepare-IsTracked j c t = record { runs = t.runs; waits = t.waits }

  end_prepare-IsTracked :
      (c : ℕ) → IsTracked wt taken back c → IsTracked (end_prepare call wt) taken back c
  unfolding end_prepare
  end_prepare-IsTracked c t = record { runs = t.runs; waits = t.waits }

-- Whichever of a call's two reports comes first, the tracker forgets it when both have come: a call is
-- running exactly if a worker has taken it and it has not returned, and it is kept as done exactly if
-- it has returned and its taking has not been reported.
pub Tracked-IsTracked :
    {J : Type 0} (wt : WorkTracker J) (taken back : ℕ → Bool) (c : ℕ)
    → Tracked J wt taken back
    → IsTracked wt taken back c
Tracked-IsTracked wt taken back c begins = record { runs = refl; waits = refl }
Tracked-IsTracked wt taken back c (prepares u j v _ _ t) =
    prepare-IsTracked v taken back u j c (Tracked-IsTracked v taken back c t)
Tracked-IsTracked wt taken back c (stops_preparing u v _ _ t) =
    end_prepare-IsTracked v taken back u c (Tracked-IsTracked v taken back c t)
Tracked-IsTracked wt taken back c (takes call j v old _ t new) =
    track_call-IsTracked v old back call j c new (Tracked-IsTracked v old back call t)
      (Tracked-IsTracked v old back c t)
Tracked-IsTracked wt taken back c (returns call v _ old t new) =
    on_done-IsTracked v taken old call c new (Tracked-IsTracked v taken old call t)
      (Tracked-IsTracked v taken old c t)
