-- ===== src/Packing/Fillers.antt =====
-- storage-sealing/utils.go and sector-storage/ffiwrapper/sealer_cgo.go: what the zero pieces fill.
use native.Mathlib.Nat.{mod-lt, div-add-mod'}
use venus_sealer.Prelude.{
  ℕ, zero, suc, ◌+◌, ◌-◌, ◌*◌, ◌/◌, ◌%◌, ◌^◌, ◌<◌, ◌≤◌, ◌≡◌, refl, sym, ap, ◌∙◌, inl, inr, List, [],
  ◌∷◌, false, All, some, u64, ◌==◌, arith,
}
use venus_sealer.Packing.{powers_of, sum_u64, get_required_padding}
use venus_sealer.Packing.Bits.{
  dbl, dbl-pow, dbl-positive, bits_from, bits_even, bits_odd, parity, under_even, under_odd,
  split_bits_lem, dbl_le,
}
use venus_sealer.Packing.Layout.{
  sum_sizes, IsAligned, bits-sum_sizes, bits-IsAligned, dbl-multiple, dbl-product,
}

unfoldable pub IsPower : ℕ → Type 0
IsPower p = (j : ℕ) × (p ≡ 2 ^ j)

bits-IsPower : (w k f : ℕ) → All IsPower (bits_from w k f)
unfolding bits_from IsPower
bits-IsPower zero k f = tt
bits-IsPower (suc w) k f = elim (parity f) [
  | inl (g, e) ↦ rw (e, bits_even w g k) (bits-IsPower w (suc k) g)
  | inr (g, e) ↦ rw (e, bits_odd w g k) ((k, sym (dbl-pow k)), bits-IsPower w (suc k) g)
]

no_bits : (n k : ℕ) → bits_from n k 0 ≡ []
unfolding bits_from
no_bits zero k = refl
no_bits (suc n) k = no_bits n (suc k)

-- Bits above those of the number add nothing.
bits_above : (n w k f : ℕ) → w ≤ n → f < dbl w 1 → bits_from n k f ≡ bits_from w k f
unfolding bits_from dbl
bits_above n zero k f h l = let z : f ≡ 0 = omega arith in rw z (no_bits n k)
bits_above zero (suc w) k f h l = ground arith
bits_above (suc n) (suc w) k f h l = elim (parity f) [
  | inl (g, e) ↦
      rw (e, bits_even n g k, bits_even w g k)
        (bits_above n w (suc k) g (omega arith) (under_even w g f e l))
  | inr (g, e) ↦
      rw (e, bits_odd n g k, bits_odd w g k)
        (ap (λ ps. dbl k 1 ∷ ps) (bits_above n w (suc k) g (omega arith) (under_odd w g f e l)))
]

pub powers_lem : (w f : ℕ) → w ≤ 64 → f < dbl w 1 → powers_of f ≡ bits_from w 0 f
unfolding powers_of dbl
powers_lem w f h l =
    let m = dbl_le 64 w h in
    split_bits_lem 64 0 f (omega arith) (omega arith) ∙ bits_above 64 w 0 f h l

-- What the pads before a piece of `new` bytes at `old` are: they stand one after the other from `old`
-- on, each a power of two at a multiple of its size, and the piece stands at a multiple of its own
-- after them; there are fewer than `new` bytes.
pub record IsPadding (old new : ℕ) (pads : List ℕ) (n : ℕ) : Type 0 where
  pub sum : sum_sizes pads ≡ n
  pub small : n < new
  pub aligned_after : (old + n) % new ≡ 0
  pub aligned : IsAligned old pads
  pub powers : All IsPower pads

dbl_full : (n k : ℕ) → k ≤ n → (q : ℕ) × (dbl k q ≡ dbl n 1)
unfolding dbl
dbl_full n zero h = (dbl n 1, refl)
dbl_full zero (suc k) h = (0, omega arith)
dbl_full (suc n) (suc k) h = let (q, e) = dbl_full n k (omega arith) in (q, ap (λ x. 2 * x) e)

dbl_minus : (k a b n : ℕ) → dbl k a ≡ n + dbl k b → n ≡ dbl k (a - b)
unfolding dbl
dbl_minus zero a b n e = omega arith
dbl_minus (suc k) a b n e = let r = dbl_minus k a b (n / 2) (omega arith) in omega arith

missing_at : (old k x q : ℕ) → old + x ≡ dbl k q → (r : ℕ) × (old + x % dbl k 1 ≡ dbl k r)
missing_at old k x q e =
    let parts = div-add-mod' x (dbl k 1) in
    let prod = dbl-product k (x / dbl k 1) in
    (q - x / dbl k 1, dbl_minus k q (x / dbl k 1) (old + x % dbl k 1) (rw prod (grind arith)))

dbl_zero : (k : ℕ) → dbl k 0 ≡ 0
unfolding dbl
dbl_zero zero = refl
dbl_zero (suc k) = let r = dbl_zero k in omega arith

-- What is missing from `old` to the next multiple of 2 ^ k.
missing :
    (old k : ℕ)
    → old < 18446744073709551616
    → k < 64
    → (q : ℕ) × (old + u64 (18446744073709551616 - old) % dbl k 1 ≡ dbl k q)
unfolding dbl
missing zero k l h = missing_at 0 k 0 0 (sym (dbl_zero k))
missing (suc o) k l h =
    let (q, e) = dbl_full 64 k (omega arith) in
    missing_at (suc o) k (u64 (18446744073709551616 - suc o)) q (omega arith)

sum_u64_lem : (ps : List ℕ) → sum_sizes ps < 18446744073709551616 → sum_u64 ps ≡ sum_sizes ps
sum_u64_lem [] l = refl
sum_u64_lem (p ∷ ps) l = let r = sum_u64_lem ps (omega arith) in omega arith

module _ (old k : ℕ) (l : old < 18446744073709551616) (h : k < 64) where
  abbrev to_fill : ℕ
  to_fill = u64 (18446744073709551616 - old) % dbl k 1

  to_fill_small : to_fill < dbl k 1
  to_fill_small = mod-lt _ (dbl-positive k 0)

  pads_lem : powers_of to_fill ≡ bits_from k 0 to_fill
  pads_lem = powers_lem k to_fill (omega arith) to_fill_small

  pads_sum : sum_sizes (powers_of to_fill) ≡ to_fill
  unfolding dbl
  pads_sum = rw pads_lem (bits-sum_sizes k 0 to_fill to_fill_small)

  pads_sum_u64 : sum_u64 (powers_of to_fill) ≡ to_fill
  unfolding dbl
  pads_sum_u64 =
      let m = dbl_le 64 k (omega arith) in
      let s = to_fill_small in let e = pads_sum in sum_u64_lem (powers_of to_fill) (omega arith) ∙ e

  pads-IsPadding : IsPadding old (dbl k 1) (powers_of to_fill) (sum_u64 (powers_of to_fill))
  unfolding dbl
  pads-IsPadding =
      let (q, e) = missing old k l h in
      record {
        sum = pads_sum ∙ sym pads_sum_u64;
        small = rw pads_sum_u64 to_fill_small;
        aligned_after = rw (pads_sum_u64, e) (dbl-multiple k q);
        aligned = rw pads_lem (bits-IsAligned k 0 to_fill old q e);
        powers = rw pads_lem (bits-IsPower k 0 to_fill);
      }

abbrev pub pads_at : ℕ → ℕ → List ℕ
pads_at old new = powers_of (u64 (18446744073709551616 - old) % new)

pub required_at :
    (old k : ℕ)
    → old < 18446744073709551616
    → k < 64
    → (get_required_padding old (2 ^ k) ≡ some (pads_at old (2 ^ k), sum_u64 (pads_at old (2 ^ k))))
      × IsPadding old (2 ^ k) (pads_at old (2 ^ k)) (sum_u64 (pads_at old (2 ^ k)))
unfolding get_required_padding
required_at old k l h =
    let p = dbl-positive k 0 in
    let z : (dbl k 1 == 0) ≡ false = ground arith in
    rw (dbl-pow k, z) (refl, pads-IsPadding old k l h)

-- The padding before a piece of 2 ^ k bytes brings it to a multiple of its size, with less than its
-- size in pieces that are powers of two and that stand at multiples of their sizes themselves.
pub get_required_padding_lem :
    (old k : ℕ)
    → old < 18446744073709551616
    → k < 64
    → (pads : List ℕ) × (n : ℕ) × (get_required_padding old (2 ^ k) ≡ some (pads, n))
      × IsPadding old (2 ^ k) pads n
unfolding get_required_padding
get_required_padding_lem old k l h =
    let (found, good) = required_at old k l h in
    (pads_at old (2 ^ k), sum_u64 (pads_at old (2 ^ k)), found, good)
