-- ===== src/Tests/Locks.antt =====
-- The theorems on sector-storage/stores/index_locks.go with two callers of one sector.
use venus_sealer.Prelude.{◌≡◌, refl, true, false, [], ◌∷◌, all, if◌then◌else◌, arith}
use venus_sealer.FileType.{has_type}
use venus_sealer.Locks.{
  Request, SectorLock, fresh_lock, try_lock, can_lock, IndexLocks, no_locks, storage_try_lock,
  attempt_lock,
}
use venus_sealer.Locks.Compatible.{compatible, compatible_at}
use venus_sealer.Locks.Holders.{IsHeld, fresh_lock-IsHeld, try_lock-IsHeld}
use venus_sealer.Locks.Entries.{IsAsked, IsEntry, Reach, begins, tries, Reach-IsEntry}

-- One caller reads the cache and writes the sealed file, the other reads the cache.
abbrev sealer : Request
sealer = record { read = 4; write = 2 }

abbrev reader : Request
reader = record { read = 4; write = 0 }

abbrev cleaner : Request
cleaner = record { read = 0; write = 4 }

sealer-IsAsked : IsAsked sealer
sealer-IsAsked = record {
  known = record { read = omega arith; write = omega arith };
  some_type = refl;
  five_types = refl;
}

reader-IsAsked : IsAsked reader
reader-IsAsked = record {
  known = record { read = omega arith; write = omega arith };
  some_type = refl;
  five_types = refl;
}

cleaner-IsAsked : IsAsked cleaner
cleaner-IsAsked = record {
  known = record { read = omega arith; write = omega arith };
  some_type = refl;
  five_types = refl;
}

read_together : compatible sealer reader ≡ true
unfolding compatible compatible_at has_type
read_together = refl

not_cleaned : compatible cleaner reader ≡ false
unfolding compatible compatible_at has_type
not_cleaned = refl

abbrev by_sealer : SectorLock
by_sealer = (try_lock fresh_lock sealer).1

by_sealer-IsHeld : IsHeld by_sealer (sealer ∷ [])
by_sealer-IsHeld =
    (try_lock-IsHeld fresh_lock [] sealer fresh_lock-IsHeld sealer-IsAsked.known (omega arith)).1

try_lock-IsHeld_example :
    ((try_lock by_sealer reader).0 ≡ all (compatible reader) (sealer ∷ []))
    × IsHeld
        (try_lock by_sealer reader).1
        (if all (compatible reader) (sealer ∷ []) then reader ∷ sealer ∷ [] else sealer ∷ [])
try_lock-IsHeld_example =
    try_lock-IsHeld by_sealer (sealer ∷ []) reader by_sealer-IsHeld reader-IsAsked.known
      (omega arith)

by_both-IsHeld : IsHeld (try_lock by_sealer reader).1 (reader ∷ sealer ∷ [])
unfolding compatible compatible_at has_type
by_both-IsHeld = try_lock-IsHeld_example.1

-- The reader holds sector 7, and the cleaner is refused.
abbrev contended : IndexLocks
contended = (storage_try_lock 7 cleaner (storage_try_lock 7 reader no_locks).1).1

contended-Reach : Reach 7 contended (reader ∷ []) 1
unfolding storage_try_lock attempt_lock try_lock can_lock has_type
contended-Reach =
    tries (storage_try_lock 7 reader no_locks).1 (reader ∷ []) 0 cleaner
      (tries no_locks [] 0 reader begins reader-IsAsked (omega arith)) cleaner-IsAsked (omega arith)

Reach-IsEntry_example : IsEntry (contended 7) (reader ∷ []) 1
Reach-IsEntry_example = Reach-IsEntry 7 contended (reader ∷ []) 1 contended-Reach
