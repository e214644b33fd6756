-- ===== src/Locks/Entries.antt =====
-- sector-storage/stores/index_locks.go: the entries of the map of locks under any sequence of tries
-- and releases.
use Prim.Native.Nat.{bit_or}
use venus_sealer.Prelude.{
  put_same, put_other, ℕ, suc, ◌+◌, ◌<◌, ◌≡◌, ◌≢◌, ◌↔◌, refl, Bool, true, false, ◌==◌, ltb, ==_iff,
  if◌then◌else◌, List, [], ◌∷◌, ◌++◌, length, Option, none, some, arith, u64, Bool-cases, inl, inr,
}
use venus_sealer.Locks.{
  Request, SectorLock, try_lock, unlock, Entry, IndexLocks, no_locks, entry_of, LockResult, granted,
  refused, attempt_lock, storage_try_lock, kept_entry, storage_release,
}
use venus_sealer.Locks.Holders.{IsKnown, IsHeld, fresh_lock-IsHeld, try_lock-IsHeld, unlock-IsHeld}

-- The request passes the guards of `lockWith`.
pub record IsAsked (q : Request) : Type 0 where
  pub known : IsKnown q
  pub some_type : (bit_or q.read q.write == 0) ≡ false
  pub five_types : ltb 31 (bit_or q.read q.write) ≡ false

abbrev pub holders_after : LockResult → Request → List Request → List Request
holders_after granted q hs = q ∷ hs
holders_after _ q hs = hs

abbrev pub failures_after : LockResult → ℕ → ℕ
failures_after granted f = f
failures_after _ f = suc f

-- A run of tries and releases, with the requests that hold the sector `id` and the number of tries
-- that were refused there.
pub data Reach (id : ℕ) : IndexLocks → List Request → ℕ → Type 0 where
  begins : Reach id no_locks [] 0
  tries :
      (m : IndexLocks) (hs : List Request) (f : ℕ) (q : Request)
      → Reach id m hs f
      → IsAsked q
      → suc (length hs + f) < 18446744073709551616
      → Reach id
          (storage_try_lock id q m).1
          (holders_after (storage_try_lock id q m).0 q hs)
          (failures_after (storage_try_lock id q m).0 f)
  releases :
      (m : IndexLocks) (xs ys : List Request) (f : ℕ) (q : Request)
      → Reach id m (xs ++ q ∷ ys) f
      → IsKnown q
      → Reach id (storage_release id q m) (xs ++ ys) f
  tries_elsewhere :
      (m : IndexLocks) (hs : List Request) (f : ℕ) (q : Request) (j : ℕ)
      → Reach id m hs f
      → id ≢ j
      → Reach id (storage_try_lock j q m).1 hs f
  releases_elsewhere :
      (m : IndexLocks) (hs : List Request) (f : ℕ) (q : Request) (j : ℕ)
      → Reach id m hs f
      → id ≢ j
      → Reach id (storage_release j q m) hs f

-- The entry against the holders and the refused tries: it is there while there are any, and it
-- counts both.
pub record IsEntry (o : Option Entry) (hs : List Request) (f : ℕ) : Type 0 where
  pub held : IsHeld (entry_of o).lock hs
  pub counted : (entry_of o).refs ≡ length hs + f
  pub bounded : length hs + f < 18446744073709551616
  pub present : (o ≡ none) ↔ (length hs + f ≡ 0)

length-front :
    (xs ys : List Request) (q : Request) → length (xs ++ q ∷ ys) ≡ suc (length (xs ++ ys))
length-front [] ys q = refl
length-front (x ∷ xs) ys q = omega (arith, length-front xs ys q)

empty : (xs : List Request) → length xs ≡ 0 → xs ≡ []
empty [] e = refl
empty (x ∷ xs) e = absurd (omega (arith, e))

-- An entry that is there.
some-IsEntry :
    (e : Entry) (hs : List Request) (f : ℕ)
    → IsHeld e.lock hs
    → e.refs ≡ length hs + f
    → length hs + f < 18446744073709551616
    → length hs + f ≢ 0
    → IsEntry (some e) hs f
some-IsEntry e hs f held counted bounded nonzero = record {
  held = held;
  counted = counted;
  bounded = bounded;
  present = (λ h. cc, λ h. absurd (nonzero h));
}

settled :
    (ok free : Bool) (l : SectorLock) (refs : ℕ) (q : Request) (hs : List Request) (f : ℕ)
    → ok ≡ free
    → IsHeld l (if free then q ∷ hs else hs)
    → refs ≡ length hs + f
    → suc (length hs + f) < 18446744073709551616
    → IsEntry
        (some (record { lock = l; refs = u64 (refs + 1) }))
        (holders_after (if ok then granted else refused) q hs)
        (failures_after (if ok then granted else refused) f)
settled true true l refs q hs f e held c few =
    some-IsEntry _ (q ∷ hs) f held (omega arith) (omega arith) (omega arith)
settled false false l refs q hs f e held c few =
    some-IsEntry _ hs (suc f) held (omega arith) (omega arith) (omega arith)
settled true false l refs q hs f e held c few = cc
settled false true l refs q hs f e held c few = cc

attempt_lock-IsEntry :
    (id : ℕ) (m : IndexLocks) (hs : List Request) (f : ℕ) (q : Request)
    → IsEntry (m id) hs f
    → IsKnown q
    → suc (length hs + f) < 18446744073709551616
    → IsEntry
        ((attempt_lock id q m).1 id)
        (holders_after (attempt_lock id q m).0 q hs)
        (failures_after (attempt_lock id q m).0 f)
unfolding attempt_lock
attempt_lock-IsEntry id m hs f q entry known few =
    let (exact, held) =
      try_lock-IsHeld (entry_of (m id)).lock hs q entry.held known (omega arith) in
    rw
      (put_same id
        (some (record {
          lock = (try_lock (entry_of (m id)).lock q).1;
          refs = u64 ((entry_of (m id)).refs + 1);
        }))
        m)
      (settled _ _ _ _ q hs f exact held entry.counted few)

dropped :
    (e : Entry) (hs : List Request) (f : ℕ)
    → IsHeld e.lock hs
    → e.refs ≡ length hs + f
    → length hs + f < 18446744073709551616
    → IsEntry (kept_entry e) hs f
dropped e hs f held counted bounded = elim (Bool-cases (e.refs == 0)) [
  | inl gone ↦
      let zero_refs = (==_iff e.refs 0).0 gone in
      rw (gone, empty hs (omega arith))
        record {
          held = fresh_lock-IsHeld;
          counted = omega arith;
          bounded = omega arith;
          present = (λ h. omega arith, λ h. refl);
        }
  | inr stays ↦ rw stays (
      some-IsEntry e hs f held counted bounded (λ z. cc ((==_iff e.refs 0).1 (omega arith), stays)))
]

release-IsEntry :
    (id : ℕ) (m : IndexLocks) (xs ys : List Request) (f : ℕ) (q : Request)
    → IsEntry (m id) (xs ++ q ∷ ys) f
    → IsKnown q
    → IsEntry (storage_release id q m id) (xs ++ ys) f
unfolding storage_release
release-IsEntry id m xs ys f q entry known =
    let counted = entry.counted in
    let bounded = entry.bounded in
    let longer = length-front xs ys q in
    rw
      (put_same id
        (kept_entry (record {
          lock = unlock (entry_of (m id)).lock q;
          refs = u64 ((entry_of (m id)).refs + 18446744073709551615);
        }))
        m)
      (dropped _ (xs ++ ys) f (unlock-IsHeld _ xs ys q entry.held known (omega arith)) (omega arith)
        (omega arith))

try_elsewhere :
    (id j : ℕ) (q : Request) (m : IndexLocks) → id ≢ j → (storage_try_lock j q m).1 id ≡ m id
unfolding storage_try_lock attempt_lock
try_elsewhere id j q m n = elim (Bool-cases (bit_or q.read q.write == 0)) [
  | inl nothing ↦ rw nothing refl
  | inr some_type ↦ elim (Bool-cases (ltb 31 (bit_or q.read q.write))) [
    | inl unknown ↦ rw (some_type, unknown) refl
    | inr known ↦ rw (some_type, known) (put_other id j _ m n)
  ]
]

release_elsewhere :
    (id j : ℕ) (q : Request) (m : IndexLocks) → id ≢ j → storage_release j q m id ≡ m id
unfolding storage_release
release_elsewhere id j q m n = put_other id j _ m n

asked :
    (id : ℕ) (q : Request) (m : IndexLocks)
    → IsAsked q
    → storage_try_lock id q m ≡ attempt_lock id q m
unfolding storage_try_lock
asked id q m a = rw (a.some_type, a.five_types) refl

-- However callers interleave their tries and releases, the entry of a sector agrees with them: the
-- requests that hold it are pairwise compatible, its lock is what they make it, `refs` is the number
-- of holders and of refused tries, and the entry is missing exactly if both are 0.
pub Reach-IsEntry :
    (id : ℕ) (m : IndexLocks) (hs : List Request) (f : ℕ) → Reach id m hs f → IsEntry (m id) hs f
Reach-IsEntry id m hs f begins = record {
  held = fresh_lock-IsHeld;
  counted = refl;
  bounded = omega arith;
  present = (λ h. refl, λ h. refl);
}
Reach-IsEntry id m hs f (tries n gs g q r a few) =
    rw (asked id q n a) (attempt_lock-IsEntry id n gs g q (Reach-IsEntry id n gs g r) a.known few)
Reach-IsEntry id m hs f (releases n xs ys g q r known) =
    release-IsEntry id n xs ys f q (Reach-IsEntry id n (xs ++ q ∷ ys) f r) known
Reach-IsEntry id m hs f (tries_elsewhere n gs g q j r apart) =
    rw (try_elsewhere id j q n apart) (Reach-IsEntry id n hs f r)
Reach-IsEntry id m hs f (releases_elsewhere n gs g q j r apart) =
    rw (release_elsewhere id j q n apart) (Reach-IsEntry id n hs f r)
