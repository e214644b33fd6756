-- ===== src/FileType.antt =====
-- sector-storage/storiface/filetype.go: sets of sector file types, as the bits of a number, and the
-- space that they take. A set holds the types 0 to 4 and is below 32.
pub mod Bits
pub mod Space
use Prim.Native.Nat.{bit_and}
use venus_sealer.Prelude.{
  ℕ, ◌+◌, ◌*◌, ◌/◌, ◌^◌, Bool, true, false, ◌==◌, ltb, if◌then◌else◌, List, [], ◌∷◌, Option, none,
  some, u64,
}

abbrev pub ft_unsealed : ℕ
ft_unsealed = 1

abbrev pub ft_sealed : ℕ
ft_sealed = 2

abbrev pub ft_cache : ℕ
ft_cache = 4

abbrev pub ft_update : ℕ
ft_update = 8

abbrev pub ft_update_cache : ℕ
ft_update_cache = 16

abbrev pub path_types : List ℕ
path_types = ft_unsealed ∷ ft_sealed ∷ ft_cache ∷ ft_update ∷ ft_update_cache ∷ []

-- `range out` of an array of `FileTypes` entries.
abbrev pub type_indices : List ℕ
type_indices = 0 ∷ 1 ∷ 2 ∷ 3 ∷ 4 ∷ []

-- `t.All()[i]`: `t & (1 << i) > 0`.
unfoldable pub has_type : ℕ → ℕ → Bool
has_type t i = ltb 0 (bit_and t (2 ^ i))

-- `t.Has(single)`.
unfoldable pub has : ℕ → ℕ → Bool
has t single = bit_and t single == single

-- A Go map literal: a missing key has no entry.
unfoldable pub fs_overhead_seal : ℕ → Option ℕ
fs_overhead_seal t =
    if t == ft_unsealed
    then some 10
    else if t == ft_sealed
    then some 10
    else if t == ft_update
    then some 10
    else if t == ft_update_cache
    then some 21
    else if t == ft_cache
    then some 141
    else none

unfoldable pub fs_overhead_finalized : ℕ → Option ℕ
fs_overhead_finalized t =
    if t == ft_unsealed
    then some 10
    else if t == ft_sealed
    then some 10
    else if t == ft_update
    then some 10
    else if t == ft_update_cache
    then some 1
    else if t == ft_cache
    then some 1
    else none

-- The loop that `SealSpaceUse` and `StoreSpaceUse` make over `PathTypes`, with their table; `none` is
-- the error of a type that the table lacks.
unfoldable pub space_use_from : (ℕ → Option ℕ) → ℕ → ℕ → ℕ → List ℕ → Option ℕ
unfolding has
space_use_from overhead t ssize need [] = some need
space_use_from overhead t ssize need (p ∷ ps) =
    let skip = space_use_from overhead t ssize need ps in
    let add = λ (oh : ℕ). space_use_from overhead t ssize (u64 (need + u64 (oh * ssize) / 10)) ps in
    if has t p then elim (overhead p) [ none ↦ none | some oh ↦ add oh ] else skip

unfoldable pub seal_space_use : ℕ → ℕ → Option ℕ
unfolding space_use_from fs_overhead_seal
seal_space_use t ssize = space_use_from fs_overhead_seal t ssize 0 path_types

unfoldable pub store_space_use : ℕ → ℕ → Option ℕ
unfolding space_use_from fs_overhead_finalized
store_space_use t ssize = space_use_from fs_overhead_finalized t ssize 0 path_types
