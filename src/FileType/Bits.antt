-- ===== src/FileType/Bits.antt =====
-- sector-storage/storiface/filetype.go: the set operations on bit masks below 32, one type at a time.
-- The masks are few, so each law is checked at all of them.
use Prim.Native.Nat.{bit_and, bit_or, bit_xor}
use venus_sealer.Prelude.{
  numbers_under, listed, pair_test, of_pair, ℕ, ◌<◌, ◌≡◌, refl, sym, Bool, true, false, not, ◌&&◌,
  ◌||◌, ◌==◌, ltb, ltb→lt, and-true, all, arith,
}
use venus_sealer.FileType.{has_type, type_indices}

-- `w & ^v` on natural numbers.
abbrev pub and_not : ℕ → ℕ → ℕ
and_not w v = bit_xor w (bit_and w v)

same : Bool → Bool → Bool
same true b = b
same false b = not b

same→≡ : (a b : Bool) → same a b ≡ true → a ≡ b
unfolding same
same→≡ true b h = sym h
same→≡ false b h = ground arith

abbrev or_at : ℕ → ℕ → ℕ → Bool
or_at a b i = same (has_type (bit_or a b) i) (has_type a i || has_type b i)

abbrev or_law : ℕ → ℕ → Bool
or_law a b = all (or_at a b) (numbers_under 5)

abbrev clear_at : ℕ → ℕ → ℕ → Bool
clear_at a b i = same (has_type (and_not a b) i) (has_type a i && not (has_type b i))

abbrev clear_law : ℕ → ℕ → Bool
clear_law a b = all (clear_at a b) (numbers_under 5)

abbrev range_law : ℕ → ℕ → Bool
range_law a b = ltb (bit_or a b) 32 && ltb (and_not a b) 32

abbrev disjoint_law : ℕ → ℕ → Bool
disjoint_law a b =
    same (bit_and a b == 0) (all (λ i. not (has_type a i && has_type b i)) type_indices)

laws_hold :
    (pair_test 32 32 or_law ≡ true)
    × (pair_test 32 32 clear_law ≡ true)
    × (pair_test 32 32 range_law ≡ true)
    × (pair_test 32 32 disjoint_law ≡ true)
unfolding same has_type
laws_hold = (refl, refl, refl, refl)

module _ (a b : ℕ) (p : a < 32) (q : b < 32) where
  pub has_type-bit_or : (i : ℕ) → i < 5 → has_type (bit_or a b) i ≡ (has_type a i || has_type b i)
  has_type-bit_or i r =
      same→≡ _ _ (listed 5 (or_at a b) i r (of_pair 32 32 or_law a b p q laws_hold.0))

  pub has_type-and_not :
      (i : ℕ) → i < 5 → has_type (and_not a b) i ≡ (has_type a i && not (has_type b i))
  has_type-and_not i r =
      same→≡ _ _ (listed 5 (clear_at a b) i r (of_pair 32 32 clear_law a b p q laws_hold.1))

  in_range : (ltb (bit_or a b) 32 ≡ true) × (ltb (and_not a b) 32 ≡ true)
  in_range = and-true _ _ (of_pair 32 32 range_law a b p q laws_hold.2)

  pub bit_or-lt : bit_or a b < 32
  bit_or-lt = ltb→lt _ _ in_range.0

  pub and_not-lt : and_not a b < 32
  and_not-lt = ltb→lt _ _ in_range.1

  -- Two masks share no bit exactly if they share no type.
  pub bit_and-disjoint :
      (bit_and a b == 0) ≡ all (λ i. not (has_type a i && has_type b i)) type_indices
  bit_and-disjoint = same→≡ _ _ (of_pair 32 32 disjoint_law a b p q laws_hold.3)
