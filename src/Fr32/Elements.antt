-- ===== src/Fr32/Elements.antt =====
-- sector-storage/fr32/fr32.go: the lengths of what `pad` writes, and its groups of 32 bytes.
use venus_sealer.Prelude.{
  ℕ, zero, suc, ◌+◌, ◌/◌, ◌<◌, ◌≡◌, refl, ap, List, [], ◌∷◌, ◌++◌, length, arith,
}
use venus_sealer.Fr32.{on_last, mask_top}
use venus_sealer.Fr32.Bits.{mask_top_lem}
use venus_sealer.Fr32.Shift.{AreBytes, IsShift, last_of, spread}

-- The bytes are `n` groups of 32, each of which is below 2 ^ 254 as a little-endian number, since its
-- last byte is below 64.
pub data FieldElements : ℕ → List ℕ → Type 0 where
  no_element : FieldElements zero []
  element :
      {n : ℕ} {xs rest : List ℕ} (r : List ℕ)
      → xs ≡ r ++ rest
      → length r ≡ 32
      → last_of 0 r < 64
      → FieldElements n rest
      → FieldElements (suc n) xs

abbrev pub four_times : ℕ → ℕ
four_times zero = 0
four_times (suc n) = suc (suc (suc (suc (four_times n))))

pub length-on_last : (g : ℕ → ℕ) (xs : List ℕ) → length (on_last g xs) ≡ length xs
length-on_last g [] = refl
length-on_last g (x ∷ []) = refl
length-on_last g (x ∷ y ∷ ys) = ap suc (length-on_last g (y ∷ ys))

pub length-spread : (m k t : ℕ) (xs : List ℕ) → length (spread m k t xs) ≡ length xs
length-spread m k t [] = refl
length-spread m k t (x ∷ xs) = ap suc (length-spread m k (x / m) xs)

pub AreBytes-spread :
    {l r m k : ℕ} (s : IsShift l r m k) (t : ℕ) (xs : List ℕ)
    → t < k
    → AreBytes xs
    → AreBytes (spread m k t xs)
AreBytes-spread s t [] small bytes = tt
AreBytes-spread {m = m} s t (x ∷ xs) small bytes =
    (s.byte x t small, AreBytes-spread s (x / m) xs (s.carry_small x bytes.0) bytes.1)

pub last_of-on_last_mask :
    (v x : ℕ) (xs : List ℕ) → AreBytes (x ∷ xs) → last_of v (on_last mask_top (x ∷ xs)) < 64
last_of-on_last_mask v x [] bytes = omega (arith, mask_top_lem x bytes.0)
last_of-on_last_mask v x (y ∷ []) bytes = omega (arith, mask_top_lem y bytes.1.0)
last_of-on_last_mask v x (y ∷ z ∷ xs) bytes = last_of-on_last_mask x y (z ∷ xs) bytes.1

pub last_of-++ : (v z : ℕ) (xs : List ℕ) → last_of v (xs ++ z ∷ []) ≡ z
last_of-++ v z [] = refl
last_of-++ v z (x ∷ xs) = last_of-++ x z xs

pub length-++ : (xs ys : List ℕ) → length (xs ++ ys) ≡ length xs + length ys
length-++ [] ys = omega arith
length-++ (x ∷ xs) ys = omega (arith, length-++ xs ys)
