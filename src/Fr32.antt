-- ===== src/Fr32.antt =====
-- sector-storage/fr32/fr32.go: 127 bytes of data are spread over 128, so that each group of 32 stays
-- below 2 ^ 254. A slice is the list of its bytes, and `none` is the panic of an index out of range.
-- The loops read the slice in order, so each takes its bytes from the front and hands on the rest.
pub mod Bits
pub mod Shift
pub mod Chunk
pub mod Elements
pub mod RoundTrip
pub mod Pieces
use Prim.Native.Nat.{bit_and, bit_or, bit_xor}
use venus_sealer.Prelude.{
  ℕ, zero, suc, ◌+◌, ◌*◌, ◌/◌, ◌%◌, ◌^◌, Bool, true, false, ltb, ◌==◌, if◌then◌else◌, List, [], ◌∷◌,
  ◌++◌, Option, none, some, length,
}

abbrev pub u8 : ℕ → ℕ
u8 n = n % 256

-- Bytes read one after the other, the last of them, and what is left of the slice.
abbrev pub Read : Type 0
Read = Option (List ℕ × ℕ × List ℕ)

abbrev pub read_one : ℕ → Read → Read
read_one b none = none
read_one b (some (bs, v, rest)) = some (b ∷ bs, v, rest)

-- `copy` of `n` bytes, of which `v` is the one before.
unfoldable pub copy_bytes : ℕ → ℕ → List ℕ → Read
copy_bytes zero v xs = some ([], v, xs)
copy_bytes (suc n) v [] = none
copy_bytes (suc n) v (x ∷ xs) = read_one x (copy_bytes n x xs)

-- `out[i] = (v << l) | t; t = v >> r` for `n` bytes `v`.
unfoldable pub shift_in : ℕ → ℕ → ℕ → ℕ → ℕ → List ℕ → Read
shift_in l r zero t v xs = some ([], v, xs)
shift_in l r (suc n) t v [] = none
shift_in l r (suc n) t v (x ∷ xs) =
    read_one (bit_or (u8 (x * 2 ^ l)) t) (shift_in l r n (x / 2 ^ r) x xs)

-- Change the last byte of those written.
abbrev pub on_last : (ℕ → ℕ) → List ℕ → List ℕ
on_last f [] = []
on_last f (x ∷ []) = f x ∷ []
on_last f (x ∷ y ∷ ys) = x ∷ on_last f (y ∷ ys)

abbrev pub mask_top : ℕ → ℕ
mask_top b = bit_and b 63

-- One round of `pad`: the 128 bytes and the rest of the input.
unfoldable pub pad_chunk : List ℕ → Option (List ℕ × List ℕ)
unfolding copy_bytes shift_in
pad_chunk xs = elim (copy_bytes 32 0 xs) [
  | none ↦ none
  | some (a, u, xs1) ↦ elim (shift_in 2 6 32 (u / 64) u xs1) [
    | none ↦ none
    | some (b, v, xs2) ↦ elim (shift_in 4 4 32 (v / 16) v xs2) [
      | none ↦ none
      | some (c, w, xs3) ↦ elim (shift_in 6 2 31 (w / 4) w xs3) [
        | none ↦ none
        | some (d, z, rest) ↦ some (
          on_last mask_top a
              ++ (on_last mask_top b ++ (on_last mask_top c ++ (d ++ mask_top (z / 4) ∷ []))),
          rest,
        )
      ]
    ]
  ]
]

-- `out[i] = (at >> r) | (next << l); at = next` for `n` bytes `next`.
unfoldable pub shift_out : ℕ → ℕ → ℕ → ℕ → List ℕ → Read
shift_out r l zero at' xs = some ([], at', xs)
shift_out r l (suc n) at' [] = none
shift_out r l (suc n) at' (x ∷ xs) =
    read_one (bit_or (at' / 2 ^ r) (u8 (x * 2 ^ l))) (shift_out r l n x xs)

-- `out[i] = at; at = next`.
unfoldable pub pass_on : ℕ → ℕ → List ℕ → Read
pass_on zero at' xs = some ([], at', xs)
pass_on (suc n) at' [] = none
pass_on (suc n) at' (x ∷ xs) = read_one at' (pass_on n x xs)

abbrev pub join_31 : ℕ → ℕ → ℕ
join_31 at' b = bit_or b (u8 (at' * 64))

abbrev pub join_63 : ℕ → ℕ → ℕ
join_63 at' b = bit_xor b (bit_xor (u8 (at' * 64)) (u8 (at' * 16)))

abbrev pub join_95 : ℕ → ℕ → ℕ
join_95 at' b = bit_xor b (bit_xor (u8 (at' * 16)) (u8 (at' * 4)))

-- One round of `unpad`: the 127 bytes and the rest of the input.
unfoldable pub unpad_chunk : List ℕ → Option (List ℕ × List ℕ)
unfolding pass_on shift_out
unpad_chunk [] = none
unpad_chunk (x ∷ xs) = elim (pass_on 32 x xs) [
  | none ↦ none
  | some (a, p, xs1) ↦ elim (shift_out 2 6 32 p xs1) [
    | none ↦ none
    | some (b, q, xs2) ↦ elim (shift_out 4 4 32 q xs2) [
      | none ↦ none
      | some (c, r, xs3) ↦ elim (shift_out 6 2 31 r xs3) [
        | none ↦ none
        | some (d, z, rest) ↦
            some (
              on_last (join_31 p) a ++ (on_last (join_63 q) b ++ (on_last (join_95 r) c ++ d)),
              rest,
            )
      ]
    ]
  ]
]

abbrev pub chunk_then : Option (List ℕ × List ℕ) → (List ℕ → Option (List ℕ)) → Option (List ℕ)
chunk_then none k = none
chunk_then (some (bs, rest)) k = elim (k rest) [ none ↦ none | some cs ↦ some (bs ++ cs) ]

-- The loops over the chunks of `pad` and `unpad`.
unfoldable pub pad : ℕ → List ℕ → Option (List ℕ)
unfolding pad_chunk
pad zero xs = some []
pad (suc n) xs = chunk_then (pad_chunk xs) (pad n)

unfoldable pub unpad : ℕ → List ℕ → Option (List ℕ)
unfolding unpad_chunk
unpad zero xs = some []
unpad (suc n) xs = chunk_then (unpad_chunk xs) (unpad n)
