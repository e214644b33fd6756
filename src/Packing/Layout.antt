-- ===== src/Packing/Layout.antt =====
-- sector-storage/ffiwrapper/sealer_cgo.go: pieces one after the other, each at a multiple of its size.
use native.Mathlib.Nat.{mul-mod_left}
use venus_sealer.Prelude.{
  ℕ, zero, suc, ◌+◌, ◌*◌, ◌%◌, ◌/◌, ◌<◌, ◌≡◌, refl, sym, ap, ◌∙◌, inl, inr, List, [], ◌∷◌, arith,
}
use venus_sealer.Packing.Bits.{
  dbl, dbl_twice, bits_from, bits_even, bits_odd, parity, under_even, under_odd,
}

abbrev pub sum_sizes : List ℕ → ℕ
sum_sizes [] = 0
sum_sizes (p ∷ ps) = p + sum_sizes ps

-- The pieces stand one after the other from `off` on, each at a multiple of its size.
unfoldable pub IsAligned : ℕ → List ℕ → Type 0
IsAligned off [] = Unit
IsAligned off (p ∷ ps) = (off % p ≡ 0) × IsAligned (off + p) ps

pub dbl-product : (k x : ℕ) → dbl k x ≡ x * dbl k 1
unfolding dbl
dbl-product zero x = omega arith
dbl-product (suc k) x = let r = dbl-product k x in grind arith

pub dbl-multiple : (k x : ℕ) → dbl k x % dbl k 1 ≡ 0
dbl-multiple k x = rw (dbl-product k x) (mul-mod_left x (dbl k 1))

pub dbl_next : (k x : ℕ) → dbl k x + dbl k 1 ≡ dbl k (x + 1)
unfolding dbl
dbl_next zero x = refl
dbl_next (suc k) x = let r = dbl_next k x in omega arith

none_left : (k f : ℕ) → f < dbl zero 1 → 0 ≡ dbl k f
unfolding dbl
none_left zero f l = omega arith
none_left (suc k) f l = let r = none_left k f l in omega arith

pub bits-sum_sizes : (w k f : ℕ) → f < dbl w 1 → sum_sizes (bits_from w k f) ≡ dbl k f
unfolding bits_from
bits-sum_sizes zero k f l = none_left k f l
bits-sum_sizes (suc w) k f l = elim (parity f) [
  | inl (g, e) ↦
      rw (e, bits_even w g k, bits-sum_sizes w (suc k) g (under_even w g f e l)) (dbl_twice k g)
  | inr (g, e) ↦
      let r = dbl_next k (2 * g) in
      rw (e, bits_odd w g k, bits-sum_sizes w (suc k) g (under_odd w g f e l), dbl_twice k g)
        (omega arith)
]

halves_even : (o g p : ℕ) → o + 2 * g ≡ 2 * p → (o' : ℕ) × (o ≡ 2 * o') × (o' + g ≡ p)
halves_even o g p e = (o / 2, omega arith, omega arith)

halves_odd : (o g p : ℕ) → o + (2 * g + 1) ≡ 2 * p → (o' : ℕ) × (o + 1 ≡ 2 * o') × (o' + g ≡ p)
halves_odd o g p e = ((o + 1) / 2, omega arith, omega arith)

-- The pieces end at a multiple of 2 ^ (k + w).
pub bits-IsAligned : (w k f o q : ℕ) → o + f ≡ dbl w q → IsAligned (dbl k o) (bits_from w k f)
unfolding bits_from IsAligned dbl
bits-IsAligned zero k f o q e = tt
bits-IsAligned (suc w) k f o q e = elim (parity f) [
  | inl (g, x) ↦
      let (o', y, z) = halves_even o g (dbl w q) (ap (λ a. o + a) (sym x) ∙ e) in
      rw (x, bits_even w g k, y, sym (dbl_twice k o')) (bits-IsAligned w (suc k) g o' q z)
  | inr (g, x) ↦
      let (o', y, z) = halves_odd o g (dbl w q) (ap (λ a. o + a) (sym x) ∙ e) in
      rw (x, bits_odd w g k)
        (
          dbl-multiple k o,
          rw (dbl_next k o, y, sym (dbl_twice k o')) (bits-IsAligned w (suc k) g o' q z),
        )
]
