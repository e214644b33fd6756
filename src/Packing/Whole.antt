-- ===== src/Packing/Whole.antt =====
-- storage-sealing/utils.go and sector-storage/ffiwrapper/sealer_cgo.go: pieces of whole 128 bytes, whose
-- padded and unpadded sizes give each other.
use native.Mathlib.Nat.{mul-mod_left, div-add-mod', mod-lt}
use venus_sealer.Prelude.{
  ℕ, zero, suc, ◌+◌, ◌-◌, ◌*◌, ◌/◌, ◌%◌, ◌<◌, ◌≤◌, ◌≡◌, ◌∙◌, inl, inr, List, [], ◌∷◌, ◌++◌, All,
  u64, arith,
}
use venus_sealer.Packing.{PieceSizes, powers_of}
use venus_sealer.Packing.Bits.{dbl, bits_from, bits_even, bits_odd, parity}
use venus_sealer.Packing.Layout.{sum_sizes, IsAligned}
use venus_sealer.Packing.Fillers.{powers_lem, pads_at}

abbrev pub IsWhole : ℕ → Type 0
IsWhole p = p % 128 ≡ 0

dbl-IsWhole : (k x : ℕ) → IsWhole (dbl (suc (suc (suc (suc (suc (suc (suc k))))))) x)
unfolding dbl
dbl-IsWhole k x = omega arith

bits-IsWhole : (w k f : ℕ) → All IsWhole (bits_from w (suc (suc (suc (suc (suc (suc (suc k))))))) f)
unfolding bits_from
bits-IsWhole zero k f = tt
bits-IsWhole (suc w) k f = elim (parity f) [
  | inl (g, e) ↦ rw (e, bits_even w g _) (bits-IsWhole w (suc k) g)
  | inr (g, e) ↦ rw (e, bits_odd w g _) (dbl-IsWhole k 1, bits-IsWhole w (suc k) g)
]

seven_up :
    (w x : ℕ)
    → bits_from
        (suc (suc (suc (suc (suc (suc (suc w)))))))
        0
        (2 * (2 * (2 * (2 * (2 * (2 * (2 * x)))))))
      ≡ bits_from w 7 x
seven_up w x =
    bits_even _ _ 0
    ∙ bits_even _ _ 1
    ∙ bits_even _ _ 2
    ∙ bits_even _ _ 3
    ∙ bits_even _ _ 4
    ∙ bits_even _ _ 5
    ∙ bits_even w x 6

pub powers-IsWhole : (f : ℕ) → f < 18446744073709551616 → IsWhole f → All IsWhole (powers_of f)
unfolding dbl
powers-IsWhole f l h =
    let e : f ≡ 2 * (2 * (2 * (2 * (2 * (2 * (2 * (f / 128))))))) = omega arith in
    rw (powers_lem 64 f (omega arith) l, e, seven_up 57 (f / 128)) (bits-IsWhole 57 0 (f / 128))

product-IsWhole : (x m : ℕ) → IsWhole m → IsWhole (x * m)
product-IsWhole x m h =
    let e : m ≡ m / 128 * 128 = omega arith in
    let f : x * (m / 128 * 128) ≡ x * (m / 128) * 128 = grind arith in
    rw (e, f) (mul-mod_left (x * (m / 128)) 128)

pub multiple-IsWhole : (a m : ℕ) → a % m ≡ 0 → IsWhole m → IsWhole a
multiple-IsWhole a m e h =
    let parts = div-add-mod' a m in let w = product-IsWhole (a / m) m h in omega arith

rest-IsWhole : (a m : ℕ) → IsWhole a → IsWhole m → IsWhole (a % m)
rest-IsWhole a m g h =
    let parts = div-add-mod' a m in let w = product-IsWhole (a / m) m h in omega arith

pub pads_at-IsWhole :
    (old new : ℕ)
    → old < 18446744073709551616
    → IsWhole old
    → 0 < new
    → new < 18446744073709551616
    → IsWhole new
    → All IsWhole (pads_at old new)
pads_at-IsWhole old new l g p b h =
    let small = mod-lt (u64 (18446744073709551616 - old)) p in
    powers-IsWhole _ (omega arith)
      (rest-IsWhole (u64 (18446744073709551616 - old)) new (omega arith) h)

module _ (z : PieceSizes) where
  pub padded-unpadded : (p : ℕ) → p < 18446744073709551616 → IsWhole p → z.padded (z.unpadded p) ≡ p
  padded-unpadded p l h = rw (z.unpadded_law p, z.padded_law (p - p / 128)) (omega arith)

  pub unpadded-add :
      (a b : ℕ) → IsWhole a → IsWhole b → z.unpadded (a + b) ≡ z.unpadded a + z.unpadded b
  unpadded-add a b g h =
      rw (z.unpadded_law a, z.unpadded_law b, z.unpadded_law (a + b)) (omega arith)

  pub unpadded_le : (a : ℕ) → z.unpadded a ≤ a
  unpadded_le a = rw (z.unpadded_law a) (omega arith)

pub append-IsAligned :
    (o n : ℕ) (xs ys : List ℕ)
    → IsAligned o xs
    → n ≡ o + sum_sizes xs
    → IsAligned n ys
    → IsAligned o (xs ++ ys)
unfolding IsAligned
append-IsAligned o n [] ys a h b = let e : n ≡ o = omega arith in rw e at b
append-IsAligned o n (x ∷ xs) ys a h b = (a.0, append-IsAligned (o + x) n xs ys a.1 (omega arith) b)

pub sum_append : (xs ys : List ℕ) → sum_sizes (xs ++ ys) ≡ sum_sizes xs + sum_sizes ys
sum_append [] ys = omega arith
sum_append (x ∷ xs) ys = let r = sum_append xs ys in omega arith
