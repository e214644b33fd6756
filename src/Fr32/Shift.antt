-- ===== src/Fr32/Shift.antt =====
-- sector-storage/fr32/fr32.go: one run of shifted bytes, from `pad`'s side and from `unpad`'s.
use Prim.Native.Nat.{bit_or}
use venus_sealer.Prelude.{
  ℕ, suc, ◌+◌, ◌*◌, ◌/◌, ◌%◌, ◌^◌, ◌<◌, ◌≡◌, refl, List, [], ◌∷◌, ◌++◌, some, length, All, arith,
}
use venus_sealer.Fr32.{u8, shift_in, shift_out, pass_on, copy_bytes}
use venus_sealer.Fr32.Bits.{or_4, or_16, or_64, under_64, under_16, under_4}

abbrev pub AreBytes : List ℕ → Type 0
AreBytes = All (λ b. b < 256)

-- A byte is split in its part below `m`, which moves up by the factor `k`, and the carry.
pub record IsShift (l r m k : ℕ) : Type 0 where
  pub moved : (x : ℕ) → u8 (x * 2 ^ l) ≡ x % m * k
  pub carried : (x : ℕ) → x / 2 ^ r ≡ x / m
  pub moved_back : (x : ℕ) → u8 (x * 2 ^ r) ≡ x % k * m
  pub left_over : (x : ℕ) → x / 2 ^ l ≡ x / k
  pub carry_small : (x : ℕ) → x < 256 → x / m < k
  pub low_small : (x : ℕ) → x % m < m
  pub joined : (hi lo : ℕ) → hi < m → lo < k → bit_or (hi * k) lo ≡ hi * k + lo
  pub joined_back : (hi lo : ℕ) → hi < k → lo < m → bit_or lo (hi * m) ≡ hi * m + lo
  pub high_of : (x t : ℕ) → t < k → (x % m * k + t) / k ≡ x % m
  pub low_of : (x t : ℕ) → t < k → (x % m * k + t) % k ≡ t
  pub whole : (x : ℕ) → x / m * m + x % m ≡ x
  pub byte : (x t : ℕ) → t < k → x % m * k + t < 256
  pub part_small : (x : ℕ) → x < 256 → x / k < m
  pub mod_small : (x : ℕ) → x % k < k

pub two_six : IsShift 2 6 64 4
two_six = record {
  moved = λ x. omega arith;
  carried = λ x. refl;
  moved_back = λ x. omega arith;
  left_over = λ x. refl;
  carry_small = λ x h. omega arith;
  low_small = λ x. omega arith;
  joined = or_4;
  joined_back = under_64;
  high_of = λ x t h. omega arith;
  low_of = λ x t h. omega arith;
  whole = λ x. omega arith;
  byte = λ x t h. omega arith;
  part_small = λ x h. omega arith;
  mod_small = λ x. omega arith;
}

pub four_four : IsShift 4 4 16 16
four_four = record {
  moved = λ x. omega arith;
  carried = λ x. refl;
  moved_back = λ x. omega arith;
  left_over = λ x. refl;
  carry_small = λ x h. omega arith;
  low_small = λ x. omega arith;
  joined = or_16;
  joined_back = under_16;
  high_of = λ x t h. omega arith;
  low_of = λ x t h. omega arith;
  whole = λ x. omega arith;
  byte = λ x t h. omega arith;
  part_small = λ x h. omega arith;
  mod_small = λ x. omega arith;
}

pub six_two : IsShift 6 2 4 64
six_two = record {
  moved = λ x. omega arith;
  carried = λ x. refl;
  moved_back = λ x. omega arith;
  left_over = λ x. refl;
  carry_small = λ x h. omega arith;
  low_small = λ x. omega arith;
  joined = or_64;
  joined_back = under_4;
  high_of = λ x t h. omega arith;
  low_of = λ x t h. omega arith;
  whole = λ x. omega arith;
  byte = λ x t h. omega arith;
  part_small = λ x h. omega arith;
  mod_small = λ x. omega arith;
}

abbrev pub last_of : ℕ → List ℕ → ℕ
last_of v [] = v
last_of v (x ∷ xs) = last_of x xs

-- What `pad` writes for a run of bytes, and what `unpad` reads off a run, as arithmetic.
abbrev pub spread : ℕ → ℕ → ℕ → List ℕ → List ℕ
spread m k t [] = []
spread m k t (x ∷ xs) = (x % m * k + t) ∷ spread m k (x / m) xs

abbrev pub gathered : ℕ → ℕ → ℕ → List ℕ → List ℕ
gathered m k at' [] = []
gathered m k at' (x ∷ xs) = (x % k * m + at' / k) ∷ gathered m k x xs

pub copy_bytes_lem :
    (v : ℕ) (xs rest : List ℕ)
    → copy_bytes (length xs) v (xs ++ rest) ≡ some (xs, last_of v xs, rest)
unfolding copy_bytes
copy_bytes_lem v [] rest = refl
copy_bytes_lem v (x ∷ xs) rest = rw (copy_bytes_lem x xs rest) refl

pub pass_on_lem :
    (e f : ℕ) (es rest : List ℕ)
    → pass_on (suc (length es)) e (es ++ f ∷ rest) ≡ some (e ∷ es, f, rest)
unfolding pass_on
pass_on_lem e f [] rest = refl
pass_on_lem e f (x ∷ es) rest = rw (pass_on_lem x f es rest) refl

module _ {l r m k : ℕ} (s : IsShift l r m k) where
  pub shift_in_lem :
      (t v : ℕ) (xs rest : List ℕ)
      → t < k
      → AreBytes xs
      → shift_in l r (length xs) t v (xs ++ rest) ≡ some (spread m k t xs, last_of v xs, rest)
  unfolding shift_in
  shift_in_lem t v [] rest small bytes = refl
  shift_in_lem t v (x ∷ xs) rest small bytes =
      rw
        (
          s.moved x,
          s.carried x,
          s.joined (x % m) t (s.low_small x) small,
          shift_in_lem (x / m) x xs rest (s.carry_small x bytes.0) bytes.1,
        )
        refl

  pub shift_out_lem :
      (e f : ℕ) (es rest : List ℕ)
      → AreBytes (e ∷ es)
      → shift_out l r (suc (length es)) e (es ++ f ∷ rest)
        ≡ some (gathered m k e (es ++ f ∷ []), f, rest)
  unfolding shift_out
  shift_out_lem e f [] rest bytes =
      rw
        (
          s.left_over e,
          s.moved_back f,
          s.joined_back (f % k) (e / k) (s.mod_small f) (s.part_small e bytes.0),
        )
        refl
  shift_out_lem e f (x ∷ es) rest bytes =
      rw
        (
          s.left_over e,
          s.moved_back x,
          s.joined_back (x % k) (e / k) (s.mod_small x) (s.part_small e bytes.0),
          shift_out_lem x f es rest bytes.1,
        )
        refl
