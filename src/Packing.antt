-- ===== src/Packing.antt =====
-- storage-sealing/utils.go and sector-storage/ffiwrapper/sealer_cgo.go: the zero pieces that fill a
-- sector up, or up to the place of the next piece.
pub mod Bits
pub mod Layout
pub mod Fillers
pub mod Whole
use Prim.Native.Nat.{bit_xor}
use venus_sealer.Prelude.{
  ℕ, zero, suc, ◌+◌, ◌-◌, ◌*◌, ◌/◌, ◌%◌, ◌^◌, ◌≡◌, ◌==◌, if◌then◌else◌, List, [], ◌∷◌, map, Option,
  none, some, u64,
}

-- `UnpaddedPieceSize.Padded` and `PaddedPieceSize.Unpadded` of go-state-types, as its documentation
-- defines them: each 127 bytes take 128 in a sector.
pub record PieceSizes : Type 0 where
  pub padded : ℕ → ℕ
  pub unpadded : ℕ → ℕ
  pub padded_law : (n : ℕ) → padded n ≡ u64 (n + n / 127)
  pub unpadded_law : (n : ℕ) → unpadded n ≡ n - n / 128

-- math/bits, over the number of bits left: OnesCount64 and TrailingZeros64.
unfoldable pub ones_in : ℕ → ℕ → ℕ
ones_in zero x = 0
ones_in (suc w) x = x % 2 + ones_in w (x / 2)

unfoldable pub zeros_in : ℕ → ℕ → ℕ
zeros_in zero x = 0
zeros_in (suc w) x = if x % 2 == 1 then 0 else suc (zeros_in w (x / 2))

-- The loop that both functions have, for the iterations left.
unfoldable pub split_bits : ℕ → ℕ → List ℕ
split_bits zero to_fill = []
split_bits (suc n) to_fill =
    let psize = u64 (2 ^ zeros_in 64 to_fill) in psize ∷ split_bits n (bit_xor to_fill psize)

unfoldable pub powers_of : ℕ → List ℕ
powers_of to_fill = split_bits (ones_in 64 to_fill) to_fill

abbrev pub sum_u64 : List ℕ → ℕ
sum_u64 [] = 0
sum_u64 (p ∷ ps) = u64 (p + sum_u64 ps)

-- `fillersFromRem`, which has no error.
unfoldable pub fillers_from_rem : PieceSizes → ℕ → List ℕ
unfolding powers_of
fillers_from_rem z rem = map z.unpadded (powers_of (u64 (rem + rem / 127)))

-- `GetRequiredPadding`; a new piece of no bytes is a division by zero.
unfoldable pub get_required_padding : ℕ → ℕ → Option (List ℕ × ℕ)
unfolding powers_of
get_required_padding old new =
    if new == 0
    then none
    else let pads = powers_of (u64 (18446744073709551616 - old) % new) in some (pads, sum_u64 pads)
