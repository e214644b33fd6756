-- ===== src/Batch/Queue/Wait.antt =====
-- batchWait of storage-sealing/precommit_batch.go and storage-sealing/commit_batch.go: the timer against
-- the cutoffs.
use mathlib.Core.Bool.{false≢true}
use venus_sealer.Prelude.{
  ℕ, ◌+◌, ◌-◌, ◌≤◌, ◌≡◌, ◌⊎◌, refl, sym, inl, inr, ◌==◌, ==_iff, ltb, true, false, Bool-cases, List,
  [], ◌∷◌, Option, some, arith,
}
use venus_sealer.Batch.Queue.{earlier, earliest, batch_wait, time_of}
use venus_sealer.Batch.Queue.Cleared.{elem}

-- A time that is set and not after another.
abbrev IsBy : ℕ → ℕ → Type 0
IsBy t cutoff = ((t == 0) ≡ false) × (t ≤ cutoff)

earlier_this : (t s : ℕ) → (s == 0) ≡ false → IsBy (earlier t s) s
unfolding earlier
earlier_this t s h = ground arith

earlier_before : (t s cutoff : ℕ) → IsBy t cutoff → IsBy (earlier t s) cutoff
unfolding earlier
earlier_before t s cutoff (set, by) = ground (set, by, arith)

module _ (cutoffs : ℕ → Option ℕ) where
  earliest_before :
      (sns : List ℕ) (t cutoff : ℕ) → IsBy t cutoff → IsBy (earliest cutoffs sns t) cutoff
  unfolding earliest
  earliest_before [] t cutoff by = by
  earliest_before (sn ∷ sns) t cutoff by =
      earliest_before sns (earlier t (time_of (cutoffs sn))) cutoff
        (earlier_before t (time_of (cutoffs sn)) cutoff by)

  earliest_here :
      (sns : List ℕ) (t sn cutoff : ℕ)
      → cutoffs sn ≡ some cutoff
      → (cutoff == 0) ≡ false
      → elem sn sns ≡ true
      → IsBy (earliest cutoffs sns t) cutoff
  unfolding earliest
  earliest_here [] t sn cutoff is set listed = absurd (false≢true listed)
  earliest_here (x ∷ sns) t sn cutoff is set listed = elim (Bool-cases (sn == x)) [
    | inl h ↦
        earliest_before sns (earlier t (time_of (cutoffs x))) cutoff
          (rw (sym ((==_iff sn x).0 h), is) (earlier_this t cutoff set))
    | inr h ↦
        earliest_here sns (earlier t (time_of (cutoffs x))) sn cutoff is set (rw h at (listed))
  ]

  -- The timer of a batcher fires in time for every sector that is to be sent and has a cutoff: at
  -- least the slack before the cutoff, or at once. It never waits longer than it is configured to, but
  -- for the one nanosecond that stands for at once.
  pub batch_wait-in_time :
      (max_wait slack now : ℕ) (todo waiting : List ℕ) (sn cutoff : ℕ)
      → cutoffs sn ≡ some cutoff
      → (cutoff == 0) ≡ false
      → elem sn todo ≡ true
      → (batch_wait max_wait slack now cutoffs todo waiting ≡ 1)
        ⊎ ((now + batch_wait max_wait slack now cutoffs todo waiting ≤ cutoff - slack)
            × (batch_wait max_wait slack now cutoffs todo waiting ≤ max_wait))
  unfolding batch_wait
  batch_wait-in_time max_wait slack now [] waiting sn cutoff is set listed =
      absurd (false≢true listed)
  batch_wait-in_time max_wait slack now (x ∷ todo) waiting sn cutoff is set listed =
      let first = earliest cutoffs waiting (earliest cutoffs (x ∷ todo) 0) in
      let (some_time, by) =
        earliest_before waiting (earliest cutoffs (x ∷ todo) 0) cutoff
          (earliest_here (x ∷ todo) 0 sn cutoff is set listed) in
      elim (Bool-cases (ltb (first - slack) now)) [
        | inl h ↦ rw (batch_wait, some_time, h) (inl refl)
        | inr h ↦ elim (Bool-cases (ltb max_wait (first - slack - now))) [
          | inl i ↦ rw (batch_wait, some_time, h, i) (inr (ground arith, omega arith))
          | inr i ↦ rw (batch_wait, some_time, h, i) (inr (ground arith, ground arith))
        ]
      ]
