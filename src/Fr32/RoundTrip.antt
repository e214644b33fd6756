-- ===== src/Fr32/RoundTrip.antt =====
-- sector-storage/fr32/fr32.go: `unpad` gives back what `pad` has spread, for any number of chunks.
use venus_sealer.Prelude.{
  ℕ, suc, ◌+◌, ◌/◌, ◌%◌, ◌≡◌, refl, sym, ap, ◌∙◌, List, [], ◌∷◌, ◌++◌, some, length, arith,
}
use mathlib.Core.List.{append-nil, append_assoc}
use venus_sealer.Fr32.{on_last, mask_top, join_31, join_63, join_95, pad_chunk, unpad_chunk}
use venus_sealer.Fr32.Bits.{mask_top_lem}
use venus_sealer.Fr32.Shift.{
  AreBytes, two_six, four_four, six_two, last_of, spread, gathered, copy_bytes_lem, shift_in_lem,
}
use venus_sealer.Fr32.Elements.{
  FieldElements, length-on_last, length-spread, length-++, AreBytes-spread, last_of-on_last_mask,
  last_of-++, element,
}
use venus_sealer.Fr32.Chunk.{
  last_of-lt, on_last-on_last, gathered-spread, unpad_chunk_lem, mask_keeps_4, mask_keeps_16,
  mask_top-lt, fixed_31, fixed_63, fixed_95, fixed_127,
}

on_last_cons :
    (g : ℕ → ℕ) (x : ℕ) (xs : List ℕ)
    → (e : ℕ) × (es : List ℕ) × (on_last g (x ∷ xs) ≡ e ∷ es) × (length es ≡ length xs)
on_last_cons g x [] = (g x, [], refl, refl)
on_last_cons g x (y ∷ ys) =
    let (e, es, eq, len) = on_last_cons g y ys in (x, e ∷ es, ap (λ zs. x ∷ zs) eq, ap suc len)

on_last_same : (xs : List ℕ) → on_last (λ b. b) xs ≡ xs
on_last_same [] = refl
on_last_same (x ∷ []) = refl
on_last_same (x ∷ y ∷ ys) = ap (λ zs. x ∷ zs) (on_last_same (y ∷ ys))

glue :
    {a a' b b' c c' d d' : List ℕ}
    → a ≡ a'
    → b ≡ b'
    → c ≡ c'
    → d ≡ d'
    → a ++ (b ++ (c ++ d)) ≡ a' ++ (b' ++ (c' ++ d'))
glue p q r s = λ i. p i ++ (q i ++ (r i ++ s i))

-- The four runs of a chunk that the loops of `pad` read, each with its first byte apart.
module _ (x0 x1 x2 x3 : ℕ) (ys0 ys1 ys2 ys3 : List ℕ) where
  abbrev pub read_off : List ℕ → List ℕ
  read_off rest = (x0 ∷ ys0) ++ ((x1 ∷ ys1) ++ ((x2 ∷ ys2) ++ ((x3 ∷ ys3) ++ rest)))

  abbrev pub written : List ℕ → List ℕ
  written rest =
      on_last mask_top (x0 ∷ ys0)
      ++ (on_last mask_top (spread 64 4 (last_of x0 ys0 / 64) (x1 ∷ ys1))
          ++ (on_last mask_top (spread 16 16 (last_of x1 ys1 / 16) (x2 ∷ ys2))
              ++ (spread 4 64 (last_of x2 ys2 / 4) (x3 ∷ ys3)
                  ++ mask_top (last_of x3 ys3 / 4) ∷ rest)))

  pub record IsChunk : Type 0 where
    pub length_0 : length ys0 ≡ 31
    pub length_1 : length ys1 ≡ 31
    pub length_2 : length ys2 ≡ 31
    pub length_3 : length ys3 ≡ 30
    pub bytes_0 : AreBytes (x0 ∷ ys0)
    pub bytes_1 : AreBytes (x1 ∷ ys1)
    pub bytes_2 : AreBytes (x2 ∷ ys2)
    pub bytes_3 : AreBytes (x3 ∷ ys3)

  module _ (c : IsChunk) where
    pub pad_chunk_lem : (rest : List ℕ) → pad_chunk (read_off rest) ≡ some (written [], rest)
    unfolding pad_chunk
    pad_chunk_lem rest =
        let l0 = last_of-lt x0 ys0 c.bytes_0.0 c.bytes_0.1 in
        let l1 = last_of-lt x1 ys1 c.bytes_1.0 c.bytes_1.1 in
        let l2 = last_of-lt x2 ys2 c.bytes_2.0 c.bytes_2.1 in
        let p0 =
          rw c.length_0 at
            (copy_bytes_lem 0 (x0 ∷ ys0) ((x1 ∷ ys1) ++ ((x2 ∷ ys2) ++ ((x3 ∷ ys3) ++ rest)))) in
        let p1 = rw c.length_1 at (
          shift_in_lem two_six (last_of x0 ys0 / 64) (last_of x0 ys0) (x1 ∷ ys1)
            ((x2 ∷ ys2) ++ ((x3 ∷ ys3) ++ rest)) (omega arith) c.bytes_1) in
        let p2 = rw c.length_2 at (
          shift_in_lem four_four (last_of x1 ys1 / 16) (last_of x1 ys1) (x2 ∷ ys2)
            ((x3 ∷ ys3) ++ rest) (omega arith) c.bytes_2) in
        let p3 = rw c.length_3 at (
          shift_in_lem six_two (last_of x2 ys2 / 4) (last_of x2 ys2) (x3 ∷ ys3) rest (omega arith)
            c.bytes_3) in
        rw (pad_chunk, p0, p1, p2, p3) refl

    unpad_runs :
        (z : ℕ) (rest : List ℕ) (e0 e1 e2 e3 : ℕ) (es0 es1 es2 es3 : List ℕ)
        → length es0 ≡ 31
        → length es1 ≡ 31
        → length es2 ≡ 31
        → length es3 ≡ 30
        → AreBytes (e1 ∷ es1)
        → AreBytes (e2 ∷ es2)
        → AreBytes (e3 ∷ es3)
        → on_last mask_top (x0 ∷ ys0) ≡ e0 ∷ es0
        → on_last mask_top (spread 64 4 (last_of x0 ys0 / 64) (x1 ∷ ys1)) ≡ e1 ∷ es1
        → on_last mask_top (spread 16 16 (last_of x1 ys1 / 16) (x2 ∷ ys2)) ≡ e2 ∷ es2
        → spread 4 64 (last_of x2 ys2 / 4) (x3 ∷ ys3) ≡ e3 ∷ es3
        → join_31 e1 (mask_top (last_of x0 ys0)) ≡ last_of x0 ys0
        → on_last (join_63 e2) (gathered 64 4 e1 (es1 ++ e2 ∷ [])) ≡ x1 ∷ ys1
        → on_last (join_95 e3) (gathered 16 16 e2 (es2 ++ e3 ∷ [])) ≡ x2 ∷ ys2
        → gathered 4 64 e3 (es3 ++ z ∷ []) ≡ x3 ∷ ys3
        → unpad_chunk (
            on_last mask_top (x0 ∷ ys0)
            ++ (on_last mask_top (spread 64 4 (last_of x0 ys0 / 64) (x1 ∷ ys1))
                ++ (on_last mask_top (spread 16 16 (last_of x1 ys1 / 16) (x2 ∷ ys2))
                    ++ (spread 4 64 (last_of x2 ys2 / 4) (x3 ∷ ys3) ++ z ∷ rest))))
          ≡ some (read_off [], rest)
    unpad_runs z rest e0 e1 e2 e3 es0 es1 es2 es3 n0 n1 n2 n3 b1 b2 b3 q0 q1 q2 q3 f0 g1 g2 g3 =
        ap unpad_chunk (glue q0 q1 q2 (ap (λ d. d ++ z ∷ rest) q3))
        ∙ unpad_chunk_lem e0 e1 e2 e3 z es0 es1 es2 es3 rest n0 n1 n2 n3 b1 b2 b3
        ∙ ap (λ out. some (out, rest))
            (glue
              (ap (on_last (join_31 e1)) (sym q0) ∙ on_last-on_last (join_31 e1) mask_top x0 ys0 f0)
              g1 g2 (g3 ∙ sym (append-nil (x3 ∷ ys3))))

    -- The chunk is read back whatever follows it.
    pub unpad_written : (rest : List ℕ) → unpad_chunk (written rest) ≡ some (read_off [], rest)
    unpad_written rest =
        let l0 = last_of-lt x0 ys0 c.bytes_0.0 c.bytes_0.1 in
        let l1 = last_of-lt x1 ys1 c.bytes_1.0 c.bytes_1.1 in
        let l2 = last_of-lt x2 ys2 c.bytes_2.0 c.bytes_2.1 in
        let l3 = last_of-lt x3 ys3 c.bytes_3.0 c.bytes_3.1 in
        let z : ℕ = mask_top (last_of x3 ys3 / 4) in
        let z_low : z % 64 ≡ last_of x3 ys3 / 4 =
          omega (arith, mask_top_lem (last_of x3 ys3 / 4) (omega arith)) in
        let (e3, es3, eq3, carry3, len3, bytes3, back3) =
          gathered-spread six_two (λ b. b) (λ b. b) z (last_of x2 ys2 / 4) x3 ys3 (omega arith)
            c.bytes_3 (λ b h. h) (λ y u h k. six_two.low_of y u k)
            (λ u k. fixed_127 (last_of x3 ys3) z u k z_low l3) in
        let (e2, es2, eq2, carry2, len2, bytes2, back2) =
          gathered-spread four_four mask_top (join_95 e3) e3 (last_of x1 ys1 / 16) x2 ys2
            (omega arith) c.bytes_2 mask_top-lt mask_keeps_16
            (λ u k. fixed_95 (last_of x2 ys2) e3 u l2 bytes3.0 k carry3) in
        let (e1, es1, eq1, carry1, len1, bytes1, back1) =
          gathered-spread two_six mask_top (join_63 e2) e2 (last_of x0 ys0 / 64) x1 ys1
            (omega arith) c.bytes_1 mask_top-lt mask_keeps_4
            (λ u k. fixed_63 (last_of x1 ys1) e2 u l1 bytes2.0 k carry2) in
        let (e0, es0, eq0, len0) = on_last_cons mask_top x0 ys0 in
        unpad_runs z rest e0 e1 e2 e3 es0 es1 es2 es3 (len0 ∙ c.length_0) (len1 ∙ c.length_1)
          (len2 ∙ c.length_2) (len3 ∙ c.length_3) bytes1 bytes2 bytes3 eq0 eq1 eq2
          (sym (on_last_same (spread 4 64 (last_of x2 ys2 / 4) (x3 ∷ ys3))) ∙ eq3)
          (fixed_31 (last_of x0 ys0) e1 l0 carry1) back1 back2
          (sym (on_last_same (gathered 4 64 e3 (es3 ++ z ∷ []))) ∙ back3)

    pub append_written : (cs : List ℕ) → written [] ++ cs ≡ written cs
    append_written cs = simp append_assoc

    -- Each of the four groups of 32 bytes ends with a byte below 64.
    pub FieldElements-written :
        (n : ℕ) (cs : List ℕ)
        → FieldElements n cs
        → FieldElements (suc (suc (suc (suc n)))) (written cs)
    FieldElements-written n cs f =
        let l0 = last_of-lt x0 ys0 c.bytes_0.0 c.bytes_0.1 in
        let l1 = last_of-lt x1 ys1 c.bytes_1.0 c.bytes_1.1 in
        let l2 = last_of-lt x2 ys2 c.bytes_2.0 c.bytes_2.1 in
        let l3 = last_of-lt x3 ys3 c.bytes_3.0 c.bytes_3.1 in
        let b1 = AreBytes-spread two_six (last_of x0 ys0 / 64) (x1 ∷ ys1) (omega arith) c.bytes_1 in
        let b2 =
          AreBytes-spread four_four (last_of x1 ys1 / 16) (x2 ∷ ys2) (omega arith) c.bytes_2 in
        let last_run = spread 4 64 (last_of x2 ys2 / 4) (x3 ∷ ys3) in
        let s1 = spread 64 4 (last_of x0 ys0 / 64) (x1 ∷ ys1) in
        let s2 = spread 16 16 (last_of x1 ys1 / 16) (x2 ∷ ys2) in
        let s3 = spread 4 64 (last_of x2 ys2 / 4) (x3 ∷ ys3) in
        let top = mask_top (last_of x3 ys3 / 4) in
        element (on_last mask_top (x0 ∷ ys0)) refl
          (length-on_last mask_top (x0 ∷ ys0) ∙ ap suc c.length_0)
          (last_of-on_last_mask 0 x0 ys0 c.bytes_0)
          (element (on_last mask_top s1) refl
            (length-on_last mask_top s1
              ∙ length-spread 64 4 (last_of x0 ys0 / 64) (x1 ∷ ys1)
              ∙ ap suc c.length_1)
            (last_of-on_last_mask 0 _ _ b1)
            (element (on_last mask_top s2) refl
              (length-on_last mask_top s2
                ∙ length-spread 16 16 (last_of x1 ys1 / 16) (x2 ∷ ys2)
                ∙ ap suc c.length_2)
              (last_of-on_last_mask 0 _ _ b2)
              (element (s3 ++ top ∷ []) (sym (append_assoc s3 (top ∷ []) cs))
                (length-++ s3 (top ∷ [])
                  ∙ ap (λ n. n + 1)
                      (length-spread 4 64 (last_of x2 ys2 / 4) (x3 ∷ ys3) ∙ ap suc c.length_3))
                (rw (last_of-++ 0 top s3) (omega (arith, mask_top_lem (last_of x3 ys3 / 4)))) f)))
