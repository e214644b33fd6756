-- ===== src/Calls/Delivery.antt =====
-- sector-storage/manager_calltracker.go: the result of a work's call reaches the one who waits for the
-- work.
use venus_sealer.Prelude.{
  ℕ, ◌≡◌, refl, ap, ◌∙◌, Bool, true, false, ◌==◌, ==_iff, if◌then◌else◌, none, some, put, put_same,
  arith,
}
use venus_sealer.Running.{on_done}
use venus_sealer.Calls.{
  WorkState, ws_started, ws_running, ws_done, Manager, WaitOutcome, returned, waits, start_work,
  return_result, take_early, end_work, wait_work, wake, is_started,
}

-- Work that `getWork` has begun, and a call that the manager has not heard of.
pub record IsNew {J R : Type 0} (wid call : ℕ) (m : Manager J R) : Type 0 where
  pub state : WorkState
  pub begun : m.work wid ≡ some state
  pub started : state.status ≡ ws_started
  pub no_mapping : m.call_to_work call ≡ none
  pub no_channel : m.call_res call ≡ none
  pub no_result : m.results wid ≡ none
  pub no_waiter : m.wait_res wid ≡ false

-- The tables are as before, without the work.
pub record IsCleared {J R : Type 0} (wid : ℕ) (m m' : Manager J R) : Type 0 where
  pub work : (j : ℕ) → m'.work j ≡ (if j == wid then none else m.work j)
  pub call_to_work : (j : ℕ) → m'.call_to_work j ≡ m.call_to_work j
  pub call_res : (j : ℕ) → m'.call_res j ≡ m.call_res j
  pub results : (j : ℕ) → m'.results j ≡ m.results j
  pub wait_res : (j : ℕ) → m'.wait_res j ≡ m.wait_res j

-- When the worker's result comes: before the manager has noted the call, before it waits for the work,
-- or while it waits.
pub data Arrival : Type 0 where
  before_start : Arrival
  before_wait : Arrival
  while_waiting : Arrival

module _ {A : Type 0} (k : ℕ) (f : ℕ → A) (j : ℕ) (d : A) where
  -- An entry that is as it was before.
  as_before : f k ≡ d → put k d f j ≡ f j
  as_before e = ground (arith, ==_iff j k)

  put_back : (v : A) → f k ≡ d → put k d (put k v f) j ≡ f j
  put_back v e = ground (arith, ==_iff j k)

  put_over : (v : A) → put k d (put k v f) j ≡ put k d f j
  put_over v = ground (arith, ==_iff j k)

-- The tables after the steps, where these go through.
module _ {J R : Type 0} (wid call : ℕ) (r : R) where
  unfoldable pub deliver : Arrival → Manager J R → WaitOutcome R × Manager J R
  deliver before_start m = wait_work wid true (start_work wid call (return_result call r m).1).1
  deliver before_wait m = wait_work wid true (return_result call r (start_work wid call m).1).1
  deliver while_waiting m =
      wake wid call true (return_result call r (wait_work wid true (start_work wid call m).1).1).1

  abbrev pub on_hold : Manager J R → Manager J R
  on_hold m = record m {
    tracker = on_done call m.tracker;
    call_res = put call (some (some r)) m.call_res;
  }

  abbrev pub going : WorkState → Manager J R → Manager J R
  going ws m = record m {
    work = put wid (some (record ws { status = ws_running; worker_call = call })) m.work;
    call_to_work = put call (some wid) m.call_to_work;
  }

  abbrev taken_early : Manager J R → Manager J R
  taken_early m = record m {
    call_to_work = put call none m.call_to_work;
    work = put wid none m.work;
    call_res = put call none m.call_res;
  }

  abbrev pub reported : WorkState → Manager J R → Manager J R
  reported ws m = record m {
    tracker = on_done call m.tracker;
    results = put wid (some r) m.results;
    work = put wid (some (record ws { status = ws_done })) m.work;
    wait_res = put wid false m.wait_res;
  }

  pub return_early :
      (m : Manager J R)
      → m.call_to_work call ≡ none
      → m.call_res call ≡ none
      → return_result call r m ≡ (none, on_hold m)
  unfolding return_result
  return_early m c d = rw (return_result, c, d) refl

  module _ (m : Manager J R) (ws : WorkState) where
    pub return_mapped :
        m.call_to_work call ≡ some wid
        → m.results wid ≡ none
        → m.work wid ≡ some ws
        → return_result call r m ≡ (none, reported ws m)
    unfolding return_result
    return_mapped c e b = rw (return_result, c, e, b) refl

    pub start_lem :
        m.work wid ≡ some ws → m.results wid ≡ none → start_work wid call m ≡ (false, going ws m)
    unfolding start_work
    start_lem b e = rw (start_work, b, e) refl

    wait_early :
        m.work wid ≡ some ws
        → is_started ws.status ≡ false
        → ws.worker_call ≡ call
        → m.call_to_work call ≡ some wid
        → m.call_res call ≡ some (some r)
        → wait_work wid true m ≡ (returned (some r), taken_early m)
    unfolding wait_work take_early
    wait_early b s w c d =
        rw (wait_work, b, s, w, c, (==_iff wid wid).1 refl, d, take_early, w) refl

    pub wait_ready :
        (stored : Bool)
        → m.work wid ≡ some ws
        → is_started ws.status ≡ false
        → ws.worker_call ≡ call
        → m.call_to_work call ≡ some wid
        → m.call_res call ≡ none
        → m.results wid ≡ some r
        → wait_work wid stored m ≡ (returned (some r), end_work wid call stored m)
    unfolding wait_work
    wait_ready stored b s w c d e =
        rw (wait_work, b, s, w, c, (==_iff wid wid).1 refl, d, e, w) refl

    wait_waits :
        m.work wid ≡ some ws
        → is_started ws.status ≡ false
        → ws.worker_call ≡ call
        → m.call_to_work call ≡ some wid
        → m.call_res call ≡ none
        → m.results wid ≡ none
        → wait_work wid true m ≡ (waits, record m { wait_res = put wid true m.wait_res })
    unfolding wait_work
    wait_waits b s w c d e = rw (wait_work, b, s, w, c, (==_iff wid wid).1 refl, d, e) refl

  module _ (m : Manager J R) (new : IsNew wid call m) where
    before_start_lem :
        ((deliver before_start m).0 ≡ returned (some r))
        × IsCleared wid m (deliver before_start m).1
    unfolding deliver
    before_start_lem =
        rw
          (
            deliver,
            return_early m new.no_mapping new.no_channel,
            start_lem (on_hold m) new.state new.begun new.no_result,
            wait_early (going new.state (on_hold m))
                (record new.state { status = ws_running; worker_call = call })
                (put_same wid _ m.work) refl refl (put_same call _ m.call_to_work)
                (put_same call _ m.call_res),
          )
          (
            refl,
            record {
              work = λ j. put_over wid m.work j none _;
              call_to_work = λ j. put_back call m.call_to_work j none _ new.no_mapping;
              call_res = λ j. put_back call m.call_res j none _ new.no_channel;
              results = λ j. refl;
              wait_res = λ j. refl;
            },
          )

    before_wait_lem :
        ((deliver before_wait m).0 ≡ returned (some r)) × IsCleared wid m (deliver before_wait m).1
    unfolding deliver end_work
    before_wait_lem =
        rw
          (
            deliver,
            start_lem m new.state new.begun new.no_result,
            return_mapped (going new.state m)
                (record new.state { status = ws_running; worker_call = call })
                (put_same call _ m.call_to_work) new.no_result (put_same wid _ m.work),
            wait_ready
                (reported (record new.state { status = ws_running; worker_call = call })
                  (going new.state m))
                (record new.state { status = ws_done; worker_call = call }) true
                (put_same wid _ (going new.state m).work) refl refl (put_same call _ m.call_to_work)
                new.no_channel (put_same wid _ m.results),
          )
          (
            refl,
            record {
              work = λ j. put_over wid (put wid _ m.work) j none _ ∙ put_over wid m.work j none _;
              call_to_work = λ j. put_back call m.call_to_work j none _ new.no_mapping;
              call_res = λ j. refl;
              results = λ j. put_back wid m.results j none _ new.no_result;
              wait_res = λ j. as_before wid m.wait_res j false new.no_waiter;
            },
          )

    while_waiting_lem :
        ((deliver while_waiting m).0 ≡ returned (some r))
        × IsCleared wid m (deliver while_waiting m).1
    unfolding deliver end_work wake
    while_waiting_lem =
        rw
          (
            deliver,
            start_lem m new.state new.begun new.no_result,
            wait_waits (going new.state m)
                (record new.state { status = ws_running; worker_call = call })
                (put_same wid _ m.work) refl refl (put_same call _ m.call_to_work) new.no_channel
                new.no_result,
            return_mapped (record (going new.state m) { wait_res = put wid true m.wait_res })
                (record new.state { status = ws_running; worker_call = call })
                (put_same call _ m.call_to_work) new.no_result (put_same wid _ m.work),
          )
          (
            ap returned (put_same wid _ m.results),
            record {
              work = λ j. put_over wid (put wid _ m.work) j none _ ∙ put_over wid m.work j none _;
              call_to_work = λ j. put_back call m.call_to_work j none _ new.no_mapping;
              call_res = λ j. refl;
              results = λ j. put_back wid m.results j none _ new.no_result;
              wait_res = λ j. put_back wid m.wait_res j false true new.no_waiter;
            },
          )

-- A result of a call that a worker has taken for new work reaches the one who waits for the work,
-- whenever it comes, and leaves nothing of the work or the call in the tables.
pub deliver_lem :
    {J R : Type 0} (wid call : ℕ) (r : R) (at : Arrival) (m : Manager J R)
    → IsNew wid call m
    → ((deliver wid call r at m).0 ≡ returned (some r))
      × IsCleared wid m (deliver wid call r at m).1
deliver_lem wid call r before_start m new = before_start_lem wid call r m new
deliver_lem wid call r before_wait m new = before_wait_lem wid call r m new
deliver_lem wid call r while_waiting m new = while_waiting_lem wid call r m new
