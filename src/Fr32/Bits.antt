-- ===== src/Fr32/Bits.antt =====
-- sector-storage/fr32/fr32.go: the shifts and masks on bytes as arithmetic.
use Prim.Native.Nat.{bit_and, bit_or}
use venus_sealer.Prelude.{
  ℕ, ◌+◌, ◌*◌, ◌%◌, ◌<◌, ◌≡◌, refl, Bool, true, ◌==◌, ==_iff, numbers_under, listed, pair_test,
  of_pair, all,
}
use venus_sealer.Fr32.{mask_top, join_63, join_95}

mask_test : ℕ → Bool
mask_test b = bit_and b 63 == b % 64

-- The bits of a number below the shift, under those of a shifted number.
or_test : ℕ → ℕ → ℕ → Bool
or_test m hi lo = bit_or (hi * m) lo == hi * m + lo

ro_test : ℕ → ℕ → ℕ → Bool
ro_test m hi lo = bit_or lo (hi * m) == hi * m + lo

-- The two corrections of `unpad`.
join_63_test : ℕ → ℕ → Bool
join_63_test lo at' = join_63 at' (at' % 4 * 64 + lo) == at' % 16 * 16 + lo

join_95_test : ℕ → ℕ → Bool
join_95_test lo at' = join_95 at' (at' % 16 * 16 + lo) == at' % 64 * 4 + lo

tables :
    (all mask_test (numbers_under 256) ≡ true)
    × (pair_test 64 4 (or_test 4) ≡ true)
    × (pair_test 16 16 (or_test 16) ≡ true)
    × (pair_test 4 64 (or_test 64) ≡ true)
    × (pair_test 4 64 (ro_test 64) ≡ true)
    × (pair_test 16 16 (ro_test 16) ≡ true)
    × (pair_test 64 4 (ro_test 4) ≡ true)
    × (pair_test 16 256 join_63_test ≡ true)
    × (pair_test 4 256 join_95_test ≡ true)
unfolding mask_test or_test ro_test join_63_test join_95_test
tables = (refl, refl, refl, refl, refl, refl, refl, refl, refl)

pub mask_top_lem : (b : ℕ) → b < 256 → mask_top b ≡ b % 64
unfolding mask_test
mask_top_lem b h = (==_iff _ _).0 (listed 256 mask_test b h tables.0)

pub join_63_lem :
    (lo at' : ℕ) → lo < 16 → at' < 256 → join_63 at' (at' % 4 * 64 + lo) ≡ at' % 16 * 16 + lo
unfolding join_63_test
join_63_lem lo at' p q = (==_iff _ _).0 (of_pair 16 256 join_63_test lo at' p q tables.7)

pub join_95_lem :
    (lo at' : ℕ) → lo < 4 → at' < 256 → join_95 at' (at' % 16 * 16 + lo) ≡ at' % 64 * 4 + lo
unfolding join_95_test
join_95_lem lo at' p q = (==_iff _ _).0 (of_pair 4 256 join_95_test lo at' p q tables.8)

pub or_4 : (hi lo : ℕ) → hi < 64 → lo < 4 → bit_or (hi * 4) lo ≡ hi * 4 + lo
unfolding or_test
or_4 hi lo p q = (==_iff _ _).0 (of_pair 64 4 (or_test 4) hi lo p q tables.1)

pub or_16 : (hi lo : ℕ) → hi < 16 → lo < 16 → bit_or (hi * 16) lo ≡ hi * 16 + lo
unfolding or_test
or_16 hi lo p q = (==_iff _ _).0 (of_pair 16 16 (or_test 16) hi lo p q tables.2)

pub or_64 : (hi lo : ℕ) → hi < 4 → lo < 64 → bit_or (hi * 64) lo ≡ hi * 64 + lo
unfolding or_test
or_64 hi lo p q = (==_iff _ _).0 (of_pair 4 64 (or_test 64) hi lo p q tables.3)

pub under_64 : (hi lo : ℕ) → hi < 4 → lo < 64 → bit_or lo (hi * 64) ≡ hi * 64 + lo
unfolding ro_test
under_64 hi lo p q = (==_iff _ _).0 (of_pair 4 64 (ro_test 64) hi lo p q tables.4)

pub under_16 : (hi lo : ℕ) → hi < 16 → lo < 16 → bit_or lo (hi * 16) ≡ hi * 16 + lo
unfolding ro_test
under_16 hi lo p q = (==_iff _ _).0 (of_pair 16 16 (ro_test 16) hi lo p q tables.5)

pub under_4 : (hi lo : ℕ) → hi < 64 → lo < 4 → bit_or lo (hi * 4) ≡ hi * 4 + lo
unfolding ro_test
under_4 hi lo p q = (==_iff _ _).0 (of_pair 64 4 (ro_test 4) hi lo p q tables.6)
