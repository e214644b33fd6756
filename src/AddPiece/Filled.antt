-- ===== src/AddPiece/Filled.antt =====
-- storage-sealing/states_sealing.go and storage-sealing/utils.go: the fillers take the rest of a sector.
use native.Mathlib.Nat.{zero-mod}
use venus_sealer.Prelude.{
  ℕ, zero, suc, ◌+◌, ◌-◌, ◌/◌, ◌^◌, ◌<◌, ◌≤◌, ◌≡◌, ltb, refl, sym, ap, ◌∙◌, false, List, [], ◌∷◌,
  ◌++◌, All, map, some, u64, arith,
}
use venus_sealer.Packing.{PieceSizes, powers_of, fillers_from_rem}
use venus_sealer.Packing.Bits.{dbl, dbl-pow, dbl_le, bits_from, bits_even, dbl_twice}
use venus_sealer.Packing.Layout.{sum_sizes, IsAligned, bits-sum_sizes, bits-IsAligned}
use venus_sealer.Packing.Fillers.{powers_lem}
use venus_sealer.Packing.Whole.{IsWhole, powers-IsWhole, padded-unpadded, sum_append}
use venus_sealer.AddPiece.{StoredPiece, packing_fillers}
use venus_sealer.AddPiece.Layout.{sizes_of}
use venus_sealer.AddPiece.Placed.{sum-IsWhole, begin_offset}

-- The fillers, with their padded sizes, stand behind the pieces and end with the sector.
pub record IsFilled (z : PieceSizes) (size : ℕ) (ps : List StoredPiece) (fillers : List ℕ)
    : Type 0 where
  pub full : sum_sizes (sizes_of ps ++ map z.padded fillers) ≡ size
  pub aligned : IsAligned (sum_sizes (sizes_of ps)) (map z.padded fillers)

-- One power in an empty sector.
one_bit : (n k : ℕ) → bits_from (suc n) k (dbl n 1) ≡ dbl n (dbl k 1) ∷ []
unfolding bits_from dbl
one_bit zero k = refl
one_bit (suc n) k =
    bits_even (suc n) (dbl n 1) k
    ∙ one_bit n (suc k)
    ∙ ap (λ p. p ∷ []) (sym (dbl_twice n (dbl k 1)))

-- What is missing to a power of two.
rest-IsAligned :
    (n used rest : ℕ) → n < 64 → used + rest ≡ dbl n 1 → IsAligned used (powers_of rest)
unfolding IsAligned dbl
rest-IsAligned n zero rest h e =
    let top = dbl_le n 0 (omega arith) in
    let small : rest < dbl (suc n) 1 = omega arith in
    let whole : rest ≡ dbl n 1 = omega arith in
    rw (powers_lem (suc n) rest (omega arith) small, whole, one_bit n 0) (zero-mod (dbl n 1), tt)
rest-IsAligned n (suc used) rest h e =
    rw (powers_lem n rest (omega arith) (omega arith)) (bits-IsAligned n 0 rest (suc used) 1 e)

map-padded :
    (z : PieceSizes) (ps : List ℕ)
    → All IsWhole ps
    → sum_sizes ps < 18446744073709551616
    → map z.padded (map z.unpadded ps) ≡ ps
map-padded z [] w l = refl
map-padded z (p ∷ ps) w l =
    rw (padded-unpadded z p (omega arith) w.0, map-padded z ps w.1 (omega arith)) refl

rem_lem :
    (z : PieceSizes) (size used : ℕ)
    → IsWhole size
    → IsWhole used
    → used ≤ size
    → size < 4611686018427387904
    → u64 (z.unpadded size - z.unpadded used + (z.unpadded size - z.unpadded used) / 127)
      ≡ size - used
rem_lem z size used v w l b = rw (z.unpadded_law size, z.unpadded_law used) (omega arith)

small_power : (n : ℕ) → n < 62 → 2 ^ n < 4611686018427387904
unfolding dbl
small_power n h = let m = dbl_le 61 n (omega arith) in rw (dbl-pow n) (omega arith)

powers-sum_sizes : (f : ℕ) → f < 18446744073709551616 → sum_sizes (powers_of f) ≡ f
unfolding dbl
powers-sum_sizes f l = rw (powers_lem 64 f (omega arith) l) (bits-sum_sizes 64 0 f l)

unpadded_mono : (z : PieceSizes) (a b : ℕ) → a ≤ b → ltb (z.unpadded b) (z.unpadded a) ≡ false
unpadded_mono z a b h = rw (z.unpadded_law a, z.unpadded_law b) (ground arith)

-- The fillers of a sector of 2 ^ n bytes whose pieces are whole multiples of 128 bytes and fit: they
-- are found, and with them the sector is full, each filler at a multiple of its size.
pub packing_fillers-IsFilled :
    (z : PieceSizes) (n : ℕ) (ps : List StoredPiece)
    → IsWhole (2 ^ n)
    → n < 62
    → All IsWhole (sizes_of ps)
    → sum_sizes (sizes_of ps) ≤ 2 ^ n
    → (fillers : List ℕ) × (packing_fillers z (2 ^ n) ps ≡ some fillers)
      × IsFilled z (2 ^ n) ps fillers
unfolding packing_fillers fillers_from_rem
packing_fillers-IsFilled z n ps v h w l =
    let used = sum_sizes (sizes_of ps) in
    let small : 2 ^ n < 4611686018427387904 = small_power n h in
    let whole = sum-IsWhole ps w in
    let allocated = begin_offset z ps w (omega arith) in
    let same : used + (2 ^ n - used) ≡ 2 ^ n = omega arith in
    let room : ltb (z.unpadded (2 ^ n)) (z.unpadded used) ≡ false =
      unpadded_mono z used (2 ^ n) l in
    let fill = powers_of (2 ^ n - used) in
    let sum = powers-sum_sizes (2 ^ n - used) (omega arith) in
    let back =
      map-padded z fill (powers-IsWhole (2 ^ n - used) (omega arith) (omega arith))
        (rw sum (omega arith)) in
    rw (packing_fillers, allocated, room, fillers_from_rem, rem_lem z (2 ^ n) used v whole l small)
      (
        map z.unpadded fill,
        refl,
        record {
          full = rw back (sum_append (sizes_of ps) fill ∙ rw sum same);
          aligned =
              rw back
                (rest-IsAligned n used (2 ^ n - used) (omega arith) (omega (arith, dbl-pow n)));
        },
      )
