-- ===== src/Tests/Fr32.antt =====
-- The theorem on sector-storage/fr32/fr32.go for the bytes 126, 125 and so on down to 0.
use venus_sealer.Prelude.{
  ℕ, ◌≡◌, refl, List, [], ◌∷◌, Option, none, some, get_elem?, numbers_under, arith,
}
use venus_sealer.Fr32.{pad, unpad}
use venus_sealer.Fr32.Shift.{AreBytes}
use venus_sealer.Fr32.Elements.{FieldElements, four_times}
use venus_sealer.Fr32.Pieces.{unpad-pad}

abbrev piece : List ℕ
piece = numbers_under 127

piece-AreBytes : AreBytes piece
piece-AreBytes = omega arith

abbrev byte_of : ℕ → Option (List ℕ) → Option ℕ
byte_of i none = none
byte_of i (some bs) = get_elem? bs i

-- Byte 31 is the input's byte 95 below 64, and byte 32 is 94 shifted up by 2, over the rest of 95.
boundary : (byte_of 31 (pad 1 piece) ≡ some 31) × (byte_of 32 (pad 1 piece) ≡ some 121)
unfolding pad
boundary = (refl, refl)

unpad-pad_example :
    (out : List ℕ) × (pad 1 piece ≡ some out)
    × (unpad 1 out ≡ some piece)
    × FieldElements (four_times 1) out
unpad-pad_example = unpad-pad 1 piece refl piece-AreBytes

-- A slice that is too short is a panic.
short_panics : pad 1 (7 ∷ []) ≡ none
unfolding pad
short_panics = refl
