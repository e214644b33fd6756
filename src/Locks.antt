-- ===== src/Locks.antt =====
-- sector-storage/stores/index_locks.go: the locks on a sector's files. Every critical section holds
-- the lock's mutex, so each function here is one step. `uint` is taken as 64 bits wide.
pub mod Compatible
pub mod Holders
pub mod Entries
use Prim.Native.Nat.{bit_and, bit_or}
use venus_sealer.Prelude.{
  put, ℕ, ◌+◌, ◌≡◌, Bool, true, false, not, ◌&&◌, ◌==◌, ltb, if◌then◌else◌, Option, none, some, all,
  u64,
}
use venus_sealer.FileType.{has_type, type_indices}
use venus_sealer.FileType.Bits.{and_not}

-- What a caller wants to lock: the file types to read and those to write.
pub record Request : Type 0 where
  pub read : ℕ
  pub write : ℕ

-- `r` holds the readers of each type, `w` the set of the types being written.
pub record SectorLock : Type 0 where
  pub r : ℕ → ℕ
  pub w : ℕ

abbrev pub fresh_lock : SectorLock
fresh_lock = record { r = λ i. 0; w = 0 }

unfoldable pub can_lock : SectorLock → Request → Bool
can_lock l q =
    all (λ i. not (has_type q.write i && ltb 0 (l.r i))) type_indices
    && ((bit_and l.w q.read == 0) && (bit_and l.w q.write == 0))

-- The Boolean tells whether the lock was taken.
unfoldable pub try_lock : SectorLock → Request → Bool × SectorLock
unfolding can_lock
try_lock l q =
    if can_lock l q
    then (
      true,
      record {
        r = λ i. if has_type q.read i then u64 (l.r i + 1) else l.r i;
        w = bit_or l.w q.write;
      },
    )
    else (false, l)

unfoldable pub unlock : SectorLock → Request → SectorLock
unlock l q = record {
  r = λ i. if has_type q.read i then u64 (l.r i + 18446744073709551615) else l.r i;
  w = and_not l.w q.write;
}

-- A sector's lock, and how many callers refer to it.
pub record Entry : Type 0 where
  pub lock : SectorLock
  pub refs : ℕ

-- The map of `indexLocks`. The miner's actor is fixed, so a sector is its number.
abbrev pub IndexLocks : Type 0
IndexLocks = ℕ → Option Entry

abbrev pub no_locks : IndexLocks
no_locks id = none

-- A missing entry is made when it is first asked for.
abbrev pub entry_of : Option Entry → Entry
entry_of none = record { lock = fresh_lock; refs = 0 }
entry_of (some e) = e

pub data LockResult : Type 0 where
  granted : LockResult
  refused : LockResult
  unknown_file_types : LockResult

-- The entry counts the caller before it knows whether the lock is granted.
unfoldable pub attempt_lock : ℕ → Request → IndexLocks → LockResult × IndexLocks
unfolding try_lock
attempt_lock id q m =
    let e = entry_of (m id) in
    let (ok, l) = try_lock e.lock q in
    (
      if ok then granted else refused,
      put id (some (record { lock = l; refs = u64 (e.refs + 1) })) m,
    )

-- `StorageTryLock`, that is `lockWith` with `tryLockSafe`.
unfoldable pub storage_try_lock : ℕ → Request → IndexLocks → LockResult × IndexLocks
unfolding attempt_lock
storage_try_lock id q m =
    if bit_or q.read q.write == 0
    then (refused, m)
    else if ltb 31 (bit_or q.read q.write)
    then (unknown_file_types, m)
    else attempt_lock id q m

-- An entry goes when no caller refers to it.
abbrev pub kept_entry : Entry → Option Entry
kept_entry e = if e.refs == 0 then none else some e

-- What `lockWith` leaves to run when the caller's context is done.
unfoldable pub storage_release : ℕ → Request → IndexLocks → IndexLocks
unfolding unlock
storage_release id q m =
    let e = entry_of (m id) in
    let e' : Entry = record {
      lock = unlock e.lock q;
      refs = u64 (e.refs + 18446744073709551615);
    } in
    put id (kept_entry e') m
