-- ===== src/Locks/Compatible.antt =====
-- sector-storage/stores/index_locks.go: which requests may hold a sector's lock together, and that
-- `canLock` refuses no other.
use venus_sealer.Prelude.{
  ℕ, ◌+◌, ◌<◌, ◌≡◌, refl, sym, ◌∙◌, ap, Bool, true, false, not, ◌&&◌, ◌||◌, ltb, if◌then◌else◌,
  List, [], ◌∷◌, all, arith,
}
use venus_sealer.FileType.{has_type, type_indices}
use venus_sealer.FileType.Bits.{bit_and-disjoint}
use venus_sealer.Locks.{Request, SectorLock, can_lock}

-- The two requests do not meet at the type: where one writes, the other neither reads nor writes.
unfoldable pub compatible_at : Request → Request → ℕ → Bool
compatible_at a b i =
    not (has_type a.write i && has_type b.read i)
    && (not (has_type b.write i && has_type a.read i)
        && not (has_type b.write i && has_type a.write i))

unfoldable pub compatible : Request → Request → Bool
unfolding compatible_at
compatible a b = all (compatible_at a b) type_indices

abbrev pub readers : ℕ → List Request → ℕ
readers i [] = 0
readers i (h ∷ hs) = (if has_type h.read i then 1 else 0) + readers i hs

abbrev pub is_written : ℕ → List Request → Bool
is_written i [] = false
is_written i (h ∷ hs) = has_type h.write i || is_written i hs

-- No holder stands in the way of the request at the type.
free_at : Request → List Request → ℕ → Bool
free_at q hs i =
    not (has_type q.write i && ltb 0 (readers i hs))
    && (not (is_written i hs && has_type q.read i) && not (is_written i hs && has_type q.write i))

pub all_types_cong :
    (p q : ℕ → Bool) → ((i : ℕ) → i < 5 → p i ≡ q i) → all p type_indices ≡ all q type_indices
all_types_cong p q h =
    rw
      (
        h 0 (omega arith),
        h 1 (omega arith),
        h 2 (omega arith),
        h 3 (omega arith),
        h 4 (omega arith),
      )
      refl

and_swap : (a b c d : Bool) → ((a && b) && (c && d)) ≡ ((a && c) && (b && d))
and_swap a b c d = ground arith

all-and : (p q : ℕ → Bool) (is : List ℕ) → all (λ i. p i && q i) is ≡ (all p is && all q is)
all-and p q [] = refl
all-and p q (i ∷ is) = rw (all-and p q is) (and_swap (p i) (q i) (all p is) (all q is))

free_at_step :
    (qr qw hr hw w : Bool) (n : ℕ)
    → (not (qw && ltb 0 ((if hr then 1 else 0) + n))
        && (not ((hw || w) && qr) && not ((hw || w) && qw)))
      ≡ ((not (qw && hr) && (not (hw && qr) && not (hw && qw)))
          && (not (qw && ltb 0 n) && (not (w && qr) && not (w && qw))))
free_at_step qr qw hr hw w n = ground arith

all_free :
    (q : Request) (hs : List Request) → all (free_at q hs) type_indices ≡ all (compatible q) hs
unfolding free_at compatible compatible_at
all_free q [] = all_types_cong (free_at q []) (λ i. true) (λ i lt. ground arith)
all_free q (h ∷ hs) =
    all_types_cong (free_at q (h ∷ hs)) (λ i. compatible_at q h i && free_at q hs i)
      (λ i lt.
        free_at_step (has_type q.read i) (has_type q.write i) (has_type h.read i)
          (has_type h.write i) (is_written i hs) (readers i hs))
    ∙ all-and (compatible_at q h) (free_at q hs) type_indices
    ∙ ap (λ b. compatible q h && b) (all_free q hs)

pub can_lock-compatible :
    (l : SectorLock) (q : Request) (hs : List Request)
    → l.w < 32
    → q.read < 32
    → q.write < 32
    → ((i : ℕ) → i < 5 → l.r i ≡ readers i hs)
    → ((i : ℕ) → i < 5 → has_type l.w i ≡ is_written i hs)
    → can_lock l q ≡ all (compatible q) hs
unfolding can_lock free_at
can_lock-compatible l q hs lw qr qw er ew =
    rw (bit_and-disjoint l.w q.read lw qr, bit_and-disjoint l.w q.write lw qw)
      (sym (
          all-and (λ i. not (has_type q.write i && ltb 0 (l.r i)))
            (λ i.
              not (has_type l.w i && has_type q.read i)
              && not (has_type l.w i && has_type q.write i))
            type_indices
          ∙ ap (λ b. all (λ i. not (has_type q.write i && ltb 0 (l.r i))) type_indices && b)
              (all-and (λ i. not (has_type l.w i && has_type q.read i))
                (λ i. not (has_type l.w i && has_type q.write i)) type_indices))
        ∙ all_types_cong
            (λ i.
              not (has_type q.write i && ltb 0 (l.r i))
              && (not (has_type l.w i && has_type q.read i)
                  && not (has_type l.w i && has_type q.write i)))
            (free_at q hs) (λ i lt. rw (er i lt, ew i lt) refl)
        ∙ all_free q hs)
