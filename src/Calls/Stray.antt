-- ===== src/Calls/Stray.antt =====
-- sector-storage/manager_calltracker.go: results that come twice or late, and work that two wait for.
use venus_sealer.Prelude.{
  ℕ, ◌≡◌, refl, sym, ap, ◌∙◌, inl, inr, true, false, arith, Option-cases, none, some, put, put_same,
}
use venus_sealer.Running.{on_done}
use venus_sealer.Calls.{
  Manager, mark_done, CallError, returned, has_response, already_reported, return_result, end_work,
  wake,
}
use venus_sealer.Calls.Delivery.{return_early, on_hold}

-- The tables that hold results and work are as before.
pub record SameResults {J R : Type 0} (m m' : Manager J R) : Type 0 where
  pub work : m'.work ≡ m.work
  pub call_to_work : m'.call_to_work ≡ m.call_to_work
  pub call_res : m'.call_res ≡ m.call_res
  pub results : m'.results ≡ m.results
  pub wait_res : m'.wait_res ≡ m.wait_res

module _ {J R : Type 0} (call : ℕ) (s : R) (m : Manager J R) where
  abbrev noted : Manager J R
  noted = record m { tracker = on_done call m.tracker }

  has_response_lem :
      (r : R)
      → m.call_to_work call ≡ none
      → m.call_res call ≡ some (some r)
      → return_result call s m ≡ (some has_response, noted)
  unfolding return_result
  has_response_lem r c d = rw (return_result, c, d) refl

  already_reported_lem :
      (r : R) (wid : ℕ)
      → m.call_to_work call ≡ some wid
      → m.results wid ≡ some r
      → return_result call s m ≡ (some already_reported, noted)
  unfolding return_result
  already_reported_lem r wid c d = rw (return_result, c, d) refl

module _ {J R : Type 0} (call : ℕ) (r : R) (m : Manager J R) where
  abbrev reported_any : ℕ → Manager J R
  reported_any wid = record m {
    tracker = on_done call m.tracker;
    results = put wid (some r) m.results;
    work = put wid (mark_done (m.work wid)) m.work;
    wait_res = put wid false m.wait_res;
  }

  return_any :
      (wid : ℕ)
      → m.call_to_work call ≡ some wid
      → m.results wid ≡ none
      → return_result call r m ≡ (none, reported_any wid)
  unfolding return_result
  return_any wid c e = rw (return_result, c, e) refl

  return_waiting :
      m.call_to_work call ≡ none
      → m.call_res call ≡ some none
      → return_result call r m ≡ (none, on_hold 0 call r m)
  unfolding return_result
  return_waiting c d = rw (return_result, c, d) refl

  -- Two wait for the same work, and each has read the same call: the first to be woken after the result
  -- gets it, the second gets neither a result nor an error.
  pub second_waiter :
      (wid : ℕ)
      → m.call_to_work call ≡ some wid
      → m.results wid ≡ none
      → ((wake wid call true (return_result call r m).1).0 ≡ returned (some r))
        × ((wake wid call true (wake wid call true (return_result call r m).1).1).0 ≡ returned none)
  unfolding wake end_work
  second_waiter wid c e = rw (return_any wid c e) (
    ap returned (put_same wid (some r) m.results),
    ap returned (put_same wid none (reported_any wid).results),
  )

module _ {J R : Type 0} (call : ℕ) (r s : R) (m : Manager J R) where
  -- What a second result of a call does after the first.
  abbrev pub SecondRefused : Type 0
  SecondRefused =
      (e : CallError) × ((return_result call s (return_result call r m).1).0 ≡ some e)
      × SameResults (return_result call r m).1 (return_result call s (return_result call r m).1).1

  then_has_response :
      m.call_to_work call ≡ none
      → return_result call r m ≡ (none, on_hold 0 call r m)
      → SecondRefused
  then_has_response c e =
      rw (e, has_response_lem call s (on_hold 0 call r m) r c (put_same call _ m.call_res))
        (
          has_response,
          refl,
          record {
            work = refl;
            call_to_work = refl;
            call_res = refl;
            results = refl;
            wait_res = refl;
          },
        )

  then_reported : (wid : ℕ) → m.call_to_work call ≡ some wid → m.results wid ≡ none → SecondRefused
  then_reported wid c e =
      rw
        (
          return_any call r m wid c e,
          already_reported_lem call s (reported_any call r m wid) r wid c
              (put_same wid _ m.results),
        )
        (
          already_reported,
          refl,
          record {
            work = refl;
            call_to_work = refl;
            call_res = refl;
            results = refl;
            wait_res = refl;
          },
        )

  not_refused : (e : CallError) → some e ≡ none → SecondRefused
  not_refused e h = ground arith

  -- After a result that the manager has accepted, a second one of the same call is refused, whether
  -- the manager had noted the call's work or not, and the results, the channels and the work stay as
  -- the first has left them.
  pub second_result : (return_result call r m).0 ≡ none → SecondRefused
  second_result ok = elim (Option-cases (m.call_to_work call)) [
    | inl c ↦ elim (Option-cases (m.call_res call)) [
      | inl d ↦ then_has_response c (return_early 0 call r m c d)
      | inr (none, d) ↦ then_has_response c (return_waiting call r m c d)
      | inr (some x, d) ↦ not_refused _ (sym (ap (λ p. p.0) (has_response_lem call r m x c d)) ∙ ok)
    ]
    | inr (wid, c) ↦ elim (Option-cases (m.results wid)) [
      | inl e ↦ then_reported wid c e
      | inr (x, e) ↦
          not_refused _ (sym (ap (λ p. p.0) (already_reported_lem call r m x wid c e)) ∙ ok)
    ]
  ]
