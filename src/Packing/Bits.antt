-- ===== src/Packing/Bits.antt =====
-- sector-storage/ffiwrapper/sealer_cgo.go: the loop over the bits of a number takes them lowest first.
use Prim.Native.Nat.{bit_xor-bitwise, bit_xor, digits, differ}
use native.Mathlib.Nat.{pow-succ'}
use venus_sealer.Prelude.{
  ℕ, zero, suc, ◌+◌, ◌*◌, ◌/◌, ◌%◌, ◌^◌, ◌<◌, ◌≤◌, ◌≡◌, refl, sym, ap, ◌∙◌, inl, inr, ◌==◌, ==_iff,
  if◌then◌else◌, List, [], ◌∷◌, u64, arith, Bool-cases, ◌⊎◌,
}
use venus_sealer.Packing.{ones_in, zeros_in, split_bits}

-- A number times 2 ^ k.
unfoldable pub dbl : ℕ → ℕ → ℕ
dbl zero x = x
dbl (suc k) x = 2 * dbl k x

pub dbl-pow : (k : ℕ) → 2 ^ k ≡ dbl k 1
unfolding dbl
dbl-pow zero = refl
dbl-pow (suc k) = pow-succ' 2 k ∙ ap (λ p. 2 * p) (dbl-pow k)

pub dbl_twice : (k x : ℕ) → dbl (suc k) x ≡ dbl k (2 * x)
unfolding dbl
dbl_twice zero x = refl
dbl_twice (suc k) x = ap (λ p. 2 * p) (dbl_twice k x)

differ_zero : (x : ℕ) → differ x 0 ≡ x
differ_zero zero = refl
differ_zero (suc x) = refl

half_odd : (m : ℕ) → (2 * m + 1) / 2 ≡ m
half_odd m = omega arith

odd_mod : (m : ℕ) → (2 * m + 1) % 2 ≡ 1
odd_mod m = omega arith

half_even : (x : ℕ) → (2 * x) / 2 ≡ x
half_even x = omega arith

even_mod : (x : ℕ) → (2 * x) % 2 ≡ 0
even_mod x = omega arith

abbrev xor_in : ℕ → ℕ → ℕ → ℕ
xor_in = digits (λ b. b) differ

xor_step :
    (n a b : ℕ) → 0 < a → xor_in (suc n) a b ≡ xor_in n (a / 2) (b / 2) * 2 + differ (a % 2) (b % 2)
xor_step n zero b h = omega arith
xor_step n (suc a) b h = refl

xor_nothing : (n a : ℕ) → a ≤ n → xor_in n a 0 ≡ a
xor_nothing zero zero h = refl
xor_nothing zero (suc a) h = omega arith
xor_nothing (suc n) zero h = refl
xor_nothing (suc n) (suc a) h =
    rw (xor_nothing n (suc a / 2) (omega arith), differ_zero (suc a % 2)) (omega arith)

pub dbl-positive : (k m : ℕ) → 0 < dbl k (2 * m + 1)
unfolding dbl
dbl-positive zero m = omega arith
dbl-positive (suc k) m = let p = dbl-positive k m in omega arith

xor_digits :
    (k m n : ℕ) → dbl k (2 * m + 1) ≤ n → xor_in n (dbl k (2 * m + 1)) (dbl k 1) ≡ dbl k (2 * m)
unfolding dbl
xor_digits k m zero h = let p = dbl-positive k m in omega arith
xor_digits zero m (suc n) h =
    xor_step n (2 * m + 1) 1 (omega arith)
    ∙ rw (half_odd m, odd_mod m, xor_nothing n m (omega arith)) (omega arith)
xor_digits (suc k) m (suc n) h =
    let p = dbl-positive k m in
    xor_step n (2 * dbl k (2 * m + 1)) (2 * dbl k 1) (omega arith)
    ∙ rw
        (
          half_even (dbl k (2 * m + 1)),
          half_even (dbl k 1),
          even_mod (dbl k (2 * m + 1)),
          even_mod (dbl k 1),
          xor_digits k m n (omega arith),
        )
        (omega arith)

zeros_in_lem : (n k m : ℕ) → k < n → zeros_in n (dbl k (2 * m + 1)) ≡ k
unfolding dbl zeros_in
zeros_in_lem zero k m h = omega arith
zeros_in_lem (suc n) zero m h = rw (odd_mod m) refl
zeros_in_lem (suc n) (suc k) m h =
    rw (even_mod (dbl k (2 * m + 1)), half_even (dbl k (2 * m + 1)))
      (ap suc (zeros_in_lem n k m (omega arith)))

-- The powers of two at the ones of `f`, from 2 ^ k on.
unfoldable pub bits_from : ℕ → ℕ → ℕ → List ℕ
bits_from zero k f = []
bits_from (suc w) k f =
    let rest = bits_from w (suc k) (f / 2) in if f % 2 == 1 then dbl k 1 ∷ rest else rest

-- A number is even or odd.
pub parity : (f : ℕ) → ((g : ℕ) × (f ≡ 2 * g)) ⊎ ((g : ℕ) × (f ≡ 2 * g + 1))
parity f = elim (Bool-cases (f % 2 == 1)) [
  | inl h ↦ let e = (==_iff (f % 2) 1).0 h in inr (f / 2, omega arith)
  | inr h ↦ inl (f / 2, ground arith)
]

module _ (w g : ℕ) where
  ones_even : ones_in (suc w) (2 * g) ≡ ones_in w g
  unfolding ones_in
  ones_even = rw (even_mod g, half_even g) (omega arith)

  ones_odd : ones_in (suc w) (2 * g + 1) ≡ suc (ones_in w g)
  unfolding ones_in
  ones_odd = rw (odd_mod g, half_odd g) (omega arith)

  pub bits_even : (k : ℕ) → bits_from (suc w) k (2 * g) ≡ bits_from w (suc k) g
  unfolding bits_from
  bits_even k = rw (even_mod g, half_even g) refl

  pub bits_odd : (k : ℕ) → bits_from (suc w) k (2 * g + 1) ≡ dbl k 1 ∷ bits_from w (suc k) g
  unfolding bits_from
  bits_odd k = rw (odd_mod g, half_odd g) refl

  pub under_even : (f : ℕ) → f ≡ 2 * g → f < dbl (suc w) 1 → g < dbl w 1
  unfolding dbl
  under_even f e l = omega arith

  pub under_odd : (f : ℕ) → f ≡ 2 * g + 1 → f < dbl (suc w) 1 → g < dbl w 1
  unfolding dbl
  under_odd f e l = omega arith

pub dbl_le : (n k : ℕ) → k ≤ n → dbl k 1 ≤ dbl n 1
unfolding dbl
dbl_le n zero h = dbl-positive n 0
dbl_le zero (suc k) h = omega arith
dbl_le (suc n) (suc k) h = let r = dbl_le n k (omega arith) in omega arith

one_u64 : (k : ℕ) → k < 64 → u64 (2 ^ k) ≡ dbl k 1
unfolding dbl
one_u64 k h = let m = dbl_le 63 k (omega arith) in rw (dbl-pow k) (omega arith)

xor_lem : (a b : ℕ) → bit_xor a b ≡ xor_in a a b
xor_lem a b = λ i. bit_xor-bitwise a b i

split_odd :
    (n k g : ℕ)
    → k < 64
    → split_bits (suc n) (dbl k (2 * g + 1)) ≡ dbl k 1 ∷ split_bits n (dbl (suc k) g)
unfolding split_bits
split_odd n k g h =
    rw
      (
        zeros_in_lem 64 k g h,
        one_u64 k h,
        xor_lem (dbl k (2 * g + 1)) (dbl k 1),
        xor_digits k g (dbl k (2 * g + 1)) (omega arith),
        dbl_twice k g,
      )
      refl

pub split_bits_lem :
    (w k f : ℕ) → k + w ≤ 64 → f < dbl w 1 → split_bits (ones_in w f) (dbl k f) ≡ bits_from w k f
unfolding split_bits ones_in bits_from
split_bits_lem zero k f h l = refl
split_bits_lem (suc w) k f h l = elim (parity f) [
  | inl (g, e) ↦
      rw (e, ones_even w g, sym (dbl_twice k g), bits_even w g k)
        (split_bits_lem w (suc k) g (omega arith) (under_even w g f e l))
  | inr (g, e) ↦
      rw (e, ones_odd w g, split_odd (ones_in w g) k g (omega arith), bits_odd w g k)
        (ap (λ ps. dbl k 1 ∷ ps) (split_bits_lem w (suc k) g (omega arith) (under_odd w g f e l)))
]
