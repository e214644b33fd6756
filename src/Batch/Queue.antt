-- ===== src/Batch/Queue.antt =====
-- The maps that PreCommitBatcher and CommitBatcher keep under their mutex, and what both do with them:
-- storage-sealing/precommit_batch.go and storage-sealing/commit_batch.go. The channel on which a
-- caller waits is a number. A map is a function; a loop over it takes the keys in an order that is
-- an argument, as the language leaves the order open.
pub mod Once
pub mod Cleared
pub mod Sound
pub mod Wait
use venus_sealer.Prelude.{
  ℕ, suc, ◌-◌, ◌==◌, ltb, not, ◌&&◌, ◌||◌, if◌then◌else◌, List, [], ◌∷◌, ◌++◌, map, Option, none,
  some, put,
}

-- The errors that the batchers return or send.
pub data Failure : Type 0 where
  no_config chain_head_failed base_fee_failed network_version_failed : Failure
  miner_info_failed balance_failed serialize_failed aggregate_fee_failed : Failure
  no_good_address sending_failed : Failure
  no_miner_id unsupported_version aggregating_failed : Failure
  pre_commit_info_failed pre_commit_info_missing pledge_failed : Failure
  deadline_failed location_failed location_missing : Failure
  partitions_failed live_failed for_each_failed : Failure

-- The entries of type `E` to send, the channels that wait and those that were answered, with the
-- results of type `R` in the order in which they were sent. `next` is the next channel that is made.
pub record Queue (E R : Type 0) : Type 0 where
  pub cutoffs : ℕ → Option ℕ
  pub todo : ℕ → Option E
  pub waiting : ℕ → List ℕ
  pub next : ℕ
  pub sent : List (ℕ × R)

module _ {E : Type 0} where
  -- The entries that a loop over the map meets.
  abbrev pub met : ℕ → Option E → List (ℕ × E) → List (ℕ × E)
  met sn none rest = rest
  met sn (some e) rest = (sn, e) ∷ rest

  unfoldable pub entries : List ℕ → (ℕ → Option E) → List (ℕ × E)
  entries [] todo = []
  entries (sn ∷ order) todo = met sn (todo sn) (entries order todo)

module _ {E R : Type 0} where
  -- The maps of a new batcher.
  abbrev pub empty_queue : Queue E R
  empty_queue = record {
    cutoffs = λ sn. none;
    todo = λ sn. none;
    waiting = λ sn. [];
    next = 0;
    sent = [];
  }

  -- What `AddPreCommit` and `AddCommit` do under the mutex.
  unfoldable pub enqueue : ℕ → ℕ → E → Queue E R → Queue E R
  enqueue sn cutoff e b = record {
    cutoffs = put sn (some cutoff) b.cutoffs;
    todo = put sn (some e) b.todo;
    waiting = put sn (b.waiting sn ++ (b.next ∷ [])) b.waiting;
    next = suc b.next;
    sent = b.sent;
  }

  -- The loop body over the sectors of a result.
  unfoldable pub answer_sector : R → ℕ → Queue E R → Queue E R
  answer_sector r sn b = record {
    cutoffs = put sn none b.cutoffs;
    todo = put sn none b.todo;
    waiting = put sn [] b.waiting;
    next = b.next;
    sent = b.sent ++ map (λ c. (c, r)) (b.waiting sn);
  }

  unfoldable pub answer_sectors : R → List ℕ → Queue E R → Queue E R
  answer_sectors r [] b = b
  answer_sectors r (sn ∷ sns) b = answer_sectors r sns (answer_sector r sn b)

  -- The loop over the results; `with_error` sets the error in the loop's copy of a result.
  unfoldable pub answer_results : (R → List ℕ) → (R → R) → List R → Queue E R → Queue E R
  answer_results sectors_of with_error [] b = b
  answer_results sectors_of with_error (r ∷ rs) b =
      answer_results sectors_of with_error rs (answer_sectors (with_error r) (sectors_of r) b)

-- The zero time, which `IsZero` tests for and which a map without the key returns.
abbrev pub time_of : Option ℕ → ℕ
time_of none = 0
time_of (some t) = t

-- An iteration of the loops of `batchWait`.
unfoldable pub earlier : ℕ → ℕ → ℕ
earlier cutoff sector_cutoff =
    if (cutoff == 0) || (not (sector_cutoff == 0) && ltb sector_cutoff cutoff)
    then sector_cutoff
    else cutoff

unfoldable pub earliest : (ℕ → Option ℕ) → List ℕ → ℕ → ℕ
earliest cutoffs [] cutoff = cutoff
earliest cutoffs (sn ∷ sns) cutoff = earliest cutoffs sns (earlier cutoff (time_of (cutoffs sn)))

-- `batchWait` at the time `now`, for the keys of `todo` and of `waiting`. Times and durations count
-- nanoseconds.
unfoldable pub batch_wait : ℕ → ℕ → ℕ → (ℕ → Option ℕ) → List ℕ → List ℕ → ℕ
batch_wait max_wait slack now cutoffs [] waiting = max_wait
batch_wait max_wait slack now cutoffs (sn ∷ sns) waiting =
    let cutoff = earliest cutoffs waiting (earliest cutoffs (sn ∷ sns) 0) in
    if cutoff == 0
    then max_wait
    else if ltb (cutoff - slack) now
    then 1
    else if ltb max_wait (cutoff - slack - now)
    then max_wait
    else cutoff - slack - now
