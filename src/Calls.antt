-- ===== src/Calls.antt =====
-- sector-storage/manager_calltracker.go: how the result of a call finds the work that waits for it.
-- Each function runs under the mutex `workLk` from one unlock to the next. A CallID and a WorkID are
-- numbers; the zero CallID is 0. The results and the tracked jobs are of any type.
pub mod Delivery
pub mod Stray
pub mod Failure
use venus_sealer.Prelude.{
  ℕ, ◌+◌, Bool, true, false, not, ◌&&◌, ◌==◌, if◌then◌else◌, String, List, [], ◌∷◌, Option, none,
  some, is_some, put,
}
use venus_sealer.Running.{WorkTracker, on_done}

pub data WorkStatus : Type 0 where
  ws_started : WorkStatus
  ws_running : WorkStatus
  ws_done : WorkStatus

-- The host name and the start time are recorded and never read here.
pub record WorkState : Type 0 where
  pub status : WorkStatus
  pub worker_call : ℕ
  pub work_error : Option String

abbrev pub undef_call : ℕ
undef_call = 0

-- The tables of `Manager`. A channel of `callRes` holds one result or none, a channel of `waitRes` is
-- there or not. `work` is the state store: a reliable map, unless it is said that it fails.
pub record Manager (J R : Type 0) : Type 0 where
  pub tracker : WorkTracker J
  pub work : ℕ → Option WorkState
  pub call_to_work : ℕ → Option ℕ
  pub call_res : ℕ → Option (Option R)
  pub results : ℕ → Option R
  pub wait_res : ℕ → Bool

pub data CallError : Type 0 where
  no_work : CallError
  not_started : CallError
  wrong_call : CallError
  has_response : CallError
  already_reported : CallError
  other_waiter : CallError
  waits_for_work : CallError

-- `crashed` is the unlocking of a mutex that is not locked; `waits` is the wait for the channel of
-- `waitRes`; a result that is `none` is the zero value.
pub data WaitOutcome (R : Type 0) : Type 0 where
  returned : Option R → WaitOutcome R
  refused : CallError → WaitOutcome R
  waits : WaitOutcome R
  crashed : WaitOutcome R

abbrev pub cancel_status : WorkStatus → ℕ → Bool
cancel_status ws_started call = true
cancel_status ws_done call = call == undef_call
cancel_status ws_running call = false

abbrev pub mark_done : Option WorkState → Option WorkState
mark_done none = none
mark_done (some ws) = some (record ws { status = ws_done })

abbrev pub is_started : WorkStatus → Bool
is_started ws_started = true
is_started _ = false

abbrev pub is_work : ℕ → Option ℕ → Bool
is_work wid none = false
is_work wid (some w) = w == wid

module _ {J R : Type 0} where
  -- The Boolean tells that the work is tracked already.
  unfoldable pub get_work : ℕ → Manager J R → Bool × Manager J R
  get_work wid m = elim (m.work wid) [
    | some ws ↦ (true, m)
    | none ↦ (
      false,
      record m {
        work =
            put wid
              (some (record { status = ws_started; worker_call = undef_call; work_error = none }))
              m.work;
      },
    )
  ]

  -- The cancel function that `getWork` returns for new work.
  unfoldable pub cancel_work : ℕ → Manager J R → Manager J R
  cancel_work wid m = elim (m.work wid) [
    | none ↦ m
    | some ws ↦
        if cancel_status ws.status ws.worker_call
        then record m { work = put wid none m.work }
        else m
  ]

  -- `startWork` with the call that a worker has taken; the Boolean is its error.
  unfoldable pub start_work : ℕ → ℕ → Manager J R → Bool × Manager J R
  start_work wid call m = elim (m.work wid) [
    | none ↦ (true, m)
    | some ws ↦
        let st = if is_some (m.results wid) then ws_done else ws_running in
        (
          false,
          record m {
            work = put wid (some (record ws { status = st; worker_call = call })) m.work;
            call_to_work = put call (some wid) m.call_to_work;
          },
        )
  ]

  -- `startWork` with the error of a worker that has not taken the call.
  unfoldable pub start_work_failed : ℕ → String → Manager J R → Manager J R
  start_work_failed wid e m = elim (m.work wid) [
    | none ↦ m
    | some ws ↦ record m {
      work = put wid (some (record ws { status = ws_done; work_error = some e })) m.work;
    }
  ]

  unfoldable pub return_result : ℕ → R → Manager J R → Option CallError × Manager J R
  unfolding on_done
  return_result call r m =
      let m' = record m { tracker = on_done call m.tracker } in
      elim (m.call_to_work call) [
        | none ↦ elim (m.call_res call) [
          | none ↦ (none, record m' { call_res = put call (some (some r)) m.call_res })
          | some buffer ↦
              if is_some buffer
              then (some has_response, m')
              else (none, record m' { call_res = put call (some (some r)) m.call_res })
        ]
        | some wid ↦ if is_some (m.results wid) then (some already_reported, m') else (
          none,
          record m' {
            results = put wid (some r) m.results;
            work = put wid (mark_done (m.work wid)) m.work;
            wait_res = put wid false m.wait_res;
          },
        )
      ]

  -- `done` of `waitWork`. `stored` tells that the store has deleted the record; where it has not, that
  -- is only logged.
  unfoldable pub end_work : ℕ → ℕ → Bool → Manager J R → Manager J R
  end_work wid call stored m = record m {
    results = put wid none m.results;
    call_to_work = put call none m.call_to_work;
    work = if stored then put wid none m.work else m.work;
  }

  -- `waitWork` for a call with a channel of its own: the result came before the work was started.
  unfoldable pub take_early : ℕ → ℕ → Bool → Option R → Manager J R → WaitOutcome R × Manager J R
  take_early wid call stored none m =
      (refused other_waiter, record m { call_to_work = put call none m.call_to_work })
  take_early wid call stored (some r) m =
      if stored
      then (
        returned (some r),
        record m {
          call_to_work = put call none m.call_to_work;
          work = put wid none m.work;
          call_res = put call none m.call_res;
        },
      )
      else (
        crashed,
        record m {
          call_to_work = put call none m.call_to_work;
          call_res = put call none m.call_res;
        },
      )

  -- `waitWork` up to where it returns or waits.
  unfoldable pub wait_work : ℕ → Bool → Manager J R → WaitOutcome R × Manager J R
  unfolding take_early end_work
  wait_work wid stored m = elim (m.work wid) [
    | none ↦ (refused no_work, m)
    | some ws ↦
        if is_started ws.status
        then (refused not_started, m)
        else if not (is_work wid (m.call_to_work ws.worker_call))
        then (refused wrong_call, m)
        else elim (m.call_res ws.worker_call) [
          | some buffer ↦ take_early wid ws.worker_call stored buffer m
          | none ↦ elim (m.results wid) [
            | some r ↦ (returned (some r), end_work wid ws.worker_call stored m)
            | none ↦ (waits, record m { wait_res = put wid true m.wait_res })
          ]
        ]
  ]

  -- `waitWork` after its channel was closed; `call` is the one that it read before.
  unfoldable pub wake : ℕ → ℕ → Bool → Manager J R → WaitOutcome R × Manager J R
  unfolding end_work
  wake wid call stored m = (returned (m.results wid), end_work wid call stored m)

  -- `waitCall`, for calls that belong to no work: it makes the channel if there is none, ...
  unfoldable pub wait_call : ℕ → Manager J R → Option CallError × Manager J R
  wait_call call m =
      if is_some (m.call_to_work call) then (some waits_for_work, m) else elim (m.call_res call) [
        | some buffer ↦ (none, m)
        | none ↦ (none, record m { call_res = put call (some none) m.call_res })
      ]

  -- ... and takes the result, if one has come, or gives up; the channel is dropped either way.
  unfoldable pub end_wait_call : ℕ → Manager J R → Option R × Manager J R
  end_wait_call call m =
      let m' = record m { call_res = put call none m.call_res } in
      elim (m.call_res call) [ none ↦ (none, m') | some buffer ↦ (buffer, m') ]

  -- `setupWorkTracker` over the stored states; the Boolean is LOTUS_MINER_ABORT_UNFINISHED_WORK.
  unfoldable pub restore_work : Bool → ℕ → WorkState → Manager J R → Manager J R
  restore_work drop_all wid ws m =
      let st = if drop_all then ws_done else ws.status in
      elim st [
        | ws_started ↦ record m { work = put wid none m.work }
        | ws_done ↦ record m { work = put wid none m.work }
        | ws_running ↦ record m { call_to_work = put ws.worker_call (some wid) m.call_to_work }
      ]

  unfoldable pub setup_work_tracker : Bool → List (ℕ × WorkState) → Manager J R → Manager J R
  unfolding restore_work
  setup_work_tracker drop_all [] m = m
  setup_work_tracker drop_all ((wid, ws) ∷ ids) m =
      setup_work_tracker drop_all ids (restore_work drop_all wid ws m)
