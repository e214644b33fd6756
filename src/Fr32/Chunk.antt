-- ===== src/Fr32/Chunk.antt =====
-- sector-storage/fr32/fr32.go: one round of `pad`, undone by one round of `unpad`.
use Prim.Native.Nat.{bit_or}
use venus_sealer.Prelude.{
  ℕ, suc, ◌+◌, ◌*◌, ◌/◌, ◌%◌, ◌<◌, ◌≡◌, refl, ap, ◌∙◌, List, [], ◌∷◌, ◌++◌, some, length, arith,
}
use venus_sealer.Fr32.{on_last, mask_top, join_31, join_63, join_95, unpad_chunk, pass_on}
use venus_sealer.Fr32.Bits.{mask_top_lem, join_63_lem, join_95_lem, under_64}
use venus_sealer.Fr32.Shift.{
  AreBytes, IsShift, two_six, four_four, six_two, last_of, spread, gathered, pass_on_lem,
  shift_out_lem,
}

pub last_of-lt : (v : ℕ) (xs : List ℕ) → v < 256 → AreBytes xs → last_of v xs < 256
last_of-lt v [] h bytes = h
last_of-lt v (x ∷ xs) h bytes = last_of-lt x xs bytes.0 bytes.1

-- The corrected last byte of a copied run is the byte that was masked.
pub on_last-on_last :
    (f g : ℕ → ℕ) (x : ℕ) (xs : List ℕ)
    → f (g (last_of x xs)) ≡ last_of x xs
    → on_last f (on_last g (x ∷ xs)) ≡ x ∷ xs
on_last-on_last f g x [] h = ap (λ y. y ∷ []) h
on_last-on_last f g x (y ∷ []) h = ap (λ z. x ∷ z ∷ []) h
on_last-on_last f g x (y ∷ z ∷ xs) h = ap (λ zs. x ∷ zs) (on_last-on_last f g y (z ∷ xs) h)

module _ {l r m k : ℕ} (s : IsShift l r m k) (mask fix : ℕ → ℕ) (f : ℕ) where
  on_last-gathered :
      (v e : ℕ) (es : List ℕ)
      → on_last fix (v ∷ gathered m k e (es ++ f ∷ []))
        ≡ v ∷ on_last fix (gathered m k e (es ++ f ∷ []))
  on_last-gathered v e [] = refl
  on_last-gathered v e (x ∷ es) = refl

  -- The two halves of each byte meet again, where the next run starts with the last one's carry.
  pub gathered-spread :
      (t x : ℕ) (xs : List ℕ)
      → t < k
      → AreBytes (x ∷ xs)
      → ((b : ℕ) → b < 256 → mask b < 256)
      → ((y u : ℕ) → y < 256 → u < k → mask (y % m * k + u) % k ≡ u)
      → ((u : ℕ) → u < k → fix (f % k * m + mask (last_of x xs % m * k + u) / k) ≡ last_of x xs)
      → (e : ℕ) × (es : List ℕ) × (on_last mask (spread m k t (x ∷ xs)) ≡ e ∷ es)
        × (e % k ≡ t)
        × (length es ≡ length xs)
        × AreBytes (e ∷ es)
        × (on_last fix (gathered m k e (es ++ f ∷ [])) ≡ x ∷ xs)
  gathered-spread t x [] small bytes masked keeps final = (
    mask (x % m * k + t),
    [],
    refl,
    keeps x t bytes.0 small,
    refl,
    (masked _ (s.byte x t small), tt),
    ap (λ y. y ∷ []) (final t small),
  )
  gathered-spread t x (y ∷ ys) small bytes masked keeps final =
      let (e, es, eq, carry, len, small_es, back) =
        gathered-spread (x / m) y ys (s.carry_small x bytes.0) bytes.1 masked keeps final in
      (
        x % m * k + t,
        e ∷ es,
        ap (λ zs. (x % m * k + t) ∷ zs) eq,
        s.low_of x t small,
        ap suc len,
        (s.byte x t small, small_es),
        on_last-gathered (e % k * m + (x % m * k + t) / k) e es
            ∙ rw (back, carry, s.high_of x t small, s.whole x) refl,
      )

-- The runs of a padded chunk, each with its first byte apart.
module _ (e0 e1 e2 e3 z : ℕ) (es0 es1 es2 es3 rest : List ℕ) where
  pub unpad_chunk_lem :
      length es0 ≡ 31
      → length es1 ≡ 31
      → length es2 ≡ 31
      → length es3 ≡ 30
      → AreBytes (e1 ∷ es1)
      → AreBytes (e2 ∷ es2)
      → AreBytes (e3 ∷ es3)
      → unpad_chunk ((e0 ∷ es0) ++ ((e1 ∷ es1) ++ ((e2 ∷ es2) ++ ((e3 ∷ es3) ++ z ∷ rest))))
        ≡ some (
          on_last (join_31 e1) (e0 ∷ es0)
              ++ (on_last (join_63 e2) (gathered 64 4 e1 (es1 ++ e2 ∷ []))
                  ++ (on_last (join_95 e3) (gathered 16 16 e2 (es2 ++ e3 ∷ []))
                      ++ gathered 4 64 e3 (es3 ++ z ∷ []))),
          rest,
        )
  unfolding unpad_chunk
  unpad_chunk_lem n0 n1 n2 n3 b1 b2 b3 =
      let p0 : pass_on 32 e0 (es0 ++ e1 ∷ (es1 ++ ((e2 ∷ es2) ++ ((e3 ∷ es3) ++ z ∷ rest))))
          ≡ some (e0 ∷ es0, e1, es1 ++ ((e2 ∷ es2) ++ ((e3 ∷ es3) ++ z ∷ rest))) =
        rw n0 at (pass_on_lem e0 e1 es0 (es1 ++ ((e2 ∷ es2) ++ ((e3 ∷ es3) ++ z ∷ rest)))) in
      let p1 = rw n1 at (shift_out_lem two_six e1 e2 es1 (es2 ++ ((e3 ∷ es3) ++ z ∷ rest)) b1) in
      let p2 = rw n2 at (shift_out_lem four_four e2 e3 es2 (es3 ++ z ∷ rest) b2) in
      let p3 = rw n3 at (shift_out_lem six_two e3 z es3 rest b3) in
      rw (unpad_chunk, p0, p1, p2, p3) refl

pub mask_keeps_4 : (y u : ℕ) → y < 256 → u < 4 → mask_top (y % 64 * 4 + u) % 4 ≡ u
mask_keeps_4 y u h small = omega (arith, mask_top_lem (y % 64 * 4 + u) (omega arith))

pub mask_keeps_16 : (y u : ℕ) → y < 256 → u < 16 → mask_top (y % 16 * 16 + u) % 16 ≡ u
mask_keeps_16 y u h small = omega (arith, mask_top_lem (y % 16 * 16 + u) (omega arith))

pub mask_top-lt : (b : ℕ) → b < 256 → mask_top b < 256
mask_top-lt b h = omega (arith, mask_top_lem b h)

-- The last bytes of the runs, corrected by the first byte `f` of the next.
pub fixed_31 : (x f : ℕ) → x < 256 → f % 4 ≡ x / 64 → join_31 f (mask_top x) ≡ x
fixed_31 x f h carry = rw (mask_top_lem x h) (
    ap (λ b. bit_or (x % 64) b) (moved f)
    ∙ under_64 (f % 4) (x % 64) (omega arith) (omega arith)
    ∙ omega arith)
  where
    moved : (g : ℕ) → g * 64 % 256 ≡ g % 4 * 64
    moved g = omega arith

pub fixed_63 :
    (x f u : ℕ)
    → x < 256
    → f < 256
    → u < 4
    → f % 16 ≡ x / 16
    → join_63 f (f % 4 * 64 + mask_top (x % 64 * 4 + u) / 4) ≡ x
fixed_63 x f u h fb small carry =
    let low : mask_top (x % 64 * 4 + u) / 4 ≡ x % 16 =
      omega (arith, mask_top_lem (x % 64 * 4 + u) (omega arith)) in
    ap (λ b. join_63 f (f % 4 * 64 + b)) low ∙ join_63_lem (x % 16) f (omega arith) fb ∙ omega arith

pub fixed_95 :
    (x f u : ℕ)
    → x < 256
    → f < 256
    → u < 16
    → f % 64 ≡ x / 4
    → join_95 f (f % 16 * 16 + mask_top (x % 16 * 16 + u) / 16) ≡ x
fixed_95 x f u h fb small carry =
    let low : mask_top (x % 16 * 16 + u) / 16 ≡ x % 4 =
      omega (arith, mask_top_lem (x % 16 * 16 + u) (omega arith)) in
    ap (λ b. join_95 f (f % 16 * 16 + b)) low ∙ join_95_lem (x % 4) f (omega arith) fb ∙ omega arith

pub fixed_127 :
    (x f u : ℕ) → u < 64 → f % 64 ≡ x / 4 → x < 256 → f % 64 * 4 + (x % 4 * 64 + u) / 64 ≡ x
fixed_127 x f u small carry h = omega arith
