-- ===== src/Calls/Failure.antt =====
-- sector-storage/manager_calltracker.go: a result whose work the store fails to delete.
use venus_sealer.Prelude.{ℕ, ◌≡◌, refl, false, ==_iff, some, put_same}
use venus_sealer.Calls.{
  WorkState, ws_running, ws_done, Manager, returned, crashed, is_started, start_work, return_result,
  take_early, wait_work,
}
use venus_sealer.Calls.Delivery.{
  IsNew, on_hold, going, reported, return_early, return_mapped, start_lem, wait_ready,
}

module _ {J R : Type 0} (wid call : ℕ) (r : R) (m : Manager J R) where
  crashes_lem :
      (ws : WorkState)
      → m.work wid ≡ some ws
      → is_started ws.status ≡ false
      → ws.worker_call ≡ call
      → m.call_to_work call ≡ some wid
      → m.call_res call ≡ some (some r)
      → (wait_work wid false m).0 ≡ crashed
  unfolding wait_work take_early
  crashes_lem ws b s w c d = rw (wait_work, b, s, w, c, (==_iff wid wid).1 refl, d, take_early) refl

module _ {J R : Type 0} (wid call : ℕ) (r : R) (m : Manager J R) where
  abbrev running : WorkState → WorkState
  running ws = record ws { status = ws_running; worker_call = call }

  -- The store fails to delete the record of the work. A result that came before the work was noted is
  -- lost in a crash, the unlocking of a mutex that is not locked; one that came after reaches the waiter.
  pub failed_store :
      IsNew wid call m
      → ((wait_work wid false (start_work wid call (return_result call r m).1).1).0 ≡ crashed)
        × ((wait_work wid false (return_result call r (start_work wid call m).1).1).0
            ≡ returned (some r))
  failed_store new = (
    rw
        (
          return_early wid call r m new.no_mapping new.no_channel,
          start_lem wid call r (on_hold wid call r m) new.state new.begun new.no_result,
        )
        (crashes_lem wid call r (going wid call r new.state (on_hold wid call r m))
          (running new.state) (put_same wid _ m.work) refl refl (put_same call _ m.call_to_work)
          (put_same call _ m.call_res)),
    rw
        (
          start_lem wid call r m new.state new.begun new.no_result,
          return_mapped wid call r (going wid call r new.state m) (running new.state)
              (put_same call _ m.call_to_work) new.no_result (put_same wid _ m.work),
          wait_ready wid call r
              (reported wid call r (running new.state) (going wid call r new.state m))
              (record new.state { status = ws_done; worker_call = call }) false
              (put_same wid _ (going wid call r new.state m).work) refl refl
              (put_same call _ m.call_to_work) new.no_channel (put_same wid _ m.results),
        )
        refl,
  )
