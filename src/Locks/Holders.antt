-- ===== src/Locks/Holders.antt =====
-- sector-storage/stores/index_locks.go: a sector's lock against the list of the requests that hold
-- it.
use venus_sealer.Prelude.{
  ℕ, suc, zero, ◌+◌, ◌<◌, ◌≡◌, refl, sym, ◌∙◌, Bool, true, false, not, ◌&&◌, ◌||◌, if◌then◌else◌,
  List, [], ◌∷◌, ◌++◌, length, all, arith, u64, and-true, Bool-cases, inl, inr,
}
use venus_sealer.FileType.{has_type, type_indices}
use venus_sealer.FileType.Bits.{has_type-bit_or, has_type-and_not, bit_or-lt, and_not-lt}
use venus_sealer.Locks.{Request, SectorLock, fresh_lock, can_lock, try_lock, unlock}
use venus_sealer.Locks.Compatible.{
  compatible_at, compatible, readers, is_written, can_lock-compatible, all_types_cong,
}

-- No two of the holders meet at a type.
abbrev pub exclusive : List Request → Bool
exclusive [] = true
exclusive (h ∷ hs) = all (compatible h) hs && exclusive hs

-- The request names no type but the five.
pub record IsKnown (q : Request) : Type 0 where
  pub read : q.read < 32
  pub write : q.write < 32

-- The lock is exactly what the holders make of it, and they do not meet.
pub record IsHeld (l : SectorLock) (hs : List Request) : Type 0 where
  pub mask : l.w < 32
  pub reads : (i : ℕ) → i < 5 → l.r i ≡ readers i hs
  pub writes : (i : ℕ) → i < 5 → has_type l.w i ≡ is_written i hs
  pub apart : exclusive hs ≡ true

at_types : (P : ℕ → Type 0) → P 0 → P 1 → P 2 → P 3 → P 4 → (i : ℕ) → i < 5 → P i
at_types P a b c d e zero lt = a
at_types P a b c d e (suc zero) lt = b
at_types P a b c d e (suc (suc zero)) lt = c
at_types P a b c d e (suc (suc (suc zero))) lt = d
at_types P a b c d e (suc (suc (suc (suc zero)))) lt = e
at_types P a b c d e (suc (suc (suc (suc (suc i))))) lt = absurd (omega arith)

pub fresh_lock-IsHeld : IsHeld fresh_lock []
unfolding has_type
fresh_lock-IsHeld = record {
  mask = omega arith;
  reads = λ i lt. refl;
  writes = at_types (λ i. has_type 0 i ≡ false) refl refl refl refl refl;
  apart = refl;
}

pub readers-le-length : (i : ℕ) (hs : List Request) → readers i hs < suc (length hs)
readers-le-length i [] = omega arith
readers-le-length i (h ∷ hs) = ground (arith, readers-le-length i hs)

-- `tryLock` grants a request exactly if it meets no holder; then the lock is held by the request
-- too, and otherwise it is left as it was. There are fewer than 2 ^ 64 holders.
pub try_lock-IsHeld :
    (l : SectorLock) (hs : List Request) (q : Request)
    → IsHeld l hs
    → IsKnown q
    → suc (length hs) < 18446744073709551616
    → ((try_lock l q).0 ≡ all (compatible q) hs)
      × IsHeld (try_lock l q).1 (if all (compatible q) hs then q ∷ hs else hs)
unfolding try_lock
try_lock-IsHeld l hs q held known few = elim (Bool-cases (all (compatible q) hs)) [
  | inr meets ↦ rw (exact, meets) (refl, held)
  | inl free ↦
      rw (exact, free)
        (
          refl,
          record {
            mask = bit_or-lt l.w q.write held.mask known.write;
            reads = λ i lt. counted i (has_type q.read i) (held.reads i lt);
            writes = λ i lt.
                has_type-bit_or l.w q.write held.mask known.write i lt
                ∙ rw (held.writes i lt) (or_comm (is_written i hs) (has_type q.write i));
            apart = rw (free, held.apart) refl;
          },
        )
]
  where
    exact : can_lock l q ≡ all (compatible q) hs
    exact = can_lock-compatible l q hs held.mask known.read known.write held.reads held.writes

    or_comm : (a b : Bool) → (a || b) ≡ (b || a)
    or_comm a b = ground arith

    counted :
        (i : ℕ) (b : Bool)
        → l.r i ≡ readers i hs
        → (if b then u64 (l.r i + 1) else l.r i) ≡ (if b then 1 else 0) + readers i hs
    counted i true e = omega (arith, readers-le-length i hs)
    counted i false e = omega arith

and_comm_4 : (a b c : Bool) → (a && (b && c)) ≡ (a && (c && b))
and_comm_4 a b c = ground arith

compatible_comm_at :
    (ar aw br bw : Bool)
    → (not (aw && br) && (not (bw && ar) && not (bw && aw)))
      ≡ (not (bw && ar) && (not (aw && br) && not (aw && bw)))
compatible_comm_at ar aw br bw = ground arith

pub compatible_comm : (a b : Request) → compatible a b ≡ compatible b a
unfolding compatible compatible_at
compatible_comm a b = all_types_cong (compatible_at a b) (compatible_at b a) (λ i lt.
    compatible_comm_at (has_type a.read i) (has_type a.write i) (has_type b.read i)
      (has_type b.write i))

module _ {ℓ} {A : Type ℓ} where
  pub all-++ : (p : A → Bool) (xs ys : List A) → all p (xs ++ ys) ≡ (all p xs && all p ys)
  all-++ p [] ys = refl
  all-++ p (x ∷ xs) ys = rw (all-++ p xs ys) (assoc (p x) (all p xs) (all p ys))
    where
      assoc : (a b c : Bool) → (a && (b && c)) ≡ ((a && b) && c)
      assoc a b c = ground arith

-- The order of the holders does not matter: one of them can be moved to the front.
pub exclusive-front :
    (xs ys : List Request) (h : Request) → exclusive (xs ++ h ∷ ys) ≡ exclusive (h ∷ xs ++ ys)
exclusive-front [] ys h = refl
exclusive-front (x ∷ xs) ys h =
    rw
      (
        exclusive-front xs ys h,
        all-++ (compatible x) xs (h ∷ ys),
        all-++ (compatible x) xs ys,
        all-++ (compatible h) xs ys,
        compatible_comm x h,
      )
      (shuffle (all (compatible x) xs) (compatible h x) (all (compatible x) ys)
        (all (compatible h) xs && all (compatible h) ys) (exclusive (xs ++ ys)))
  where
    shuffle : (a b c d e : Bool) → ((a && (b && c)) && (d && e)) ≡ ((b && d) && ((a && c) && e))
    shuffle a b c d e = ground arith

pub readers-front :
    (i : ℕ) (xs ys : List Request) (h : Request)
    → readers i (xs ++ h ∷ ys) ≡ readers i (h ∷ xs ++ ys)
readers-front i [] ys h = refl
readers-front i (x ∷ xs) ys h = omega (arith, readers-front i xs ys h)

pub is_written-front :
    (i : ℕ) (xs ys : List Request) (h : Request)
    → is_written i (xs ++ h ∷ ys) ≡ is_written i (h ∷ xs ++ ys)
is_written-front i [] ys h = refl
is_written-front i (x ∷ xs) ys h =
    rw (is_written-front i xs ys h)
      (swap (has_type x.write i) (has_type h.write i) (is_written i (xs ++ ys)))
  where
    swap : (a b c : Bool) → (a || (b || c)) ≡ (b || (a || c))
    swap a b c = ground arith

-- A type that the first holder writes is written by no other.
written_once :
    (h : Request) (hs : List Request) (i : ℕ)
    → i < 5
    → all (compatible h) hs ≡ true
    → has_type h.write i && is_written i hs ≡ false
unfolding compatible compatible_at
written_once h [] i lt apart = ground arith
written_once h (k ∷ hs) i lt apart =
    let (here, rest) = and-true _ _ apart in
    apart_at (has_type h.read i) (has_type h.write i) (has_type k.read i) (has_type k.write i)
      (is_written i hs) (at_type here) (written_once h hs i lt rest)
  where
    at_type : all (compatible_at h k) type_indices ≡ true → compatible_at h k i ≡ true
    at_type a =
        at_types (λ j. compatible_at h k j ≡ true) (ground (arith, a)) (ground (arith, a))
          (ground (arith, a)) (ground (arith, a)) (ground (arith, a)) i lt

    apart_at :
        (ar aw br bw w : Bool)
        → (not (aw && br) && (not (bw && ar) && not (bw && aw))) ≡ true
        → (aw && w) ≡ false
        → (aw && (bw || w)) ≡ false
    apart_at ar aw br bw w e f = ground arith

-- `unlock` undoes exactly what one holder added, whichever holder it is: the lock is then held by
-- the others.
pub unlock-IsHeld :
    (l : SectorLock) (xs ys : List Request) (q : Request)
    → IsHeld l (xs ++ q ∷ ys)
    → IsKnown q
    → length (xs ++ ys) < 18446744073709551615
    → IsHeld (unlock l q) (xs ++ ys)
unfolding unlock
unlock-IsHeld l xs ys q held known few = record {
  mask = and_not-lt l.w q.write held.mask known.write;
  reads = λ i lt. uncounted i (has_type q.read i) (held.reads i lt ∙ readers-front i xs ys q);
  writes = λ i lt.
      has_type-and_not l.w q.write held.mask known.write i lt
      ∙ cleared (has_type l.w i) (has_type q.write i) (is_written i (xs ++ ys))
          (held.writes i lt ∙ is_written-front i xs ys q)
          (written_once q (xs ++ ys) i lt (and-true _ _ apart).0);
  apart = (and-true _ _ apart).1;
}
  where
    apart : all (compatible q) (xs ++ ys) && exclusive (xs ++ ys) ≡ true
    apart = sym (exclusive-front xs ys q) ∙ held.apart

    cleared : (w q r : Bool) → w ≡ (q || r) → (q && r) ≡ false → (w && not q) ≡ r
    cleared w q r e f = ground arith

    uncounted :
        (i : ℕ) (b : Bool)
        → l.r i ≡ (if b then 1 else 0) + readers i (xs ++ ys)
        → (if b then u64 (l.r i + 18446744073709551615) else l.r i) ≡ readers i (xs ++ ys)
    uncounted i true e = omega (arith, readers-le-length i (xs ++ ys))
    uncounted i false e = omega arith
