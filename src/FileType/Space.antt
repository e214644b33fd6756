-- ===== src/FileType/Space.antt =====
-- sector-storage/storiface/filetype.go: how much space the files of a sector take while it is sealed
-- and afterwards.
use venus_sealer.Prelude.{
  ℕ, suc, ◌+◌, ◌*◌, ◌/◌, ◌<◌, ◌≤◌, ◌≡◌, refl, List, [], ◌∷◌, length, All, some, arith, u64,
  Bool-cases, inl, inr,
}
use venus_sealer.FileType.{
  has, fs_overhead_seal, fs_overhead_finalized, space_use_from, seal_space_use, store_space_use,
  path_types,
}

-- Both tables have the type, and a finalized file takes no more.
record IsCovered (p : ℕ) : Type 0 where
  stored : ℕ
  sealing : ℕ
  stored_eq : fs_overhead_finalized p ≡ some stored
  sealing_eq : fs_overhead_seal p ≡ some sealing
  less : stored ≤ sealing
  most : sealing ≤ 141

scaled : (a b s : ℕ) → a ≤ b → a * s ≤ b * s
scaled a b s le = grind arith

-- One file more: nothing wraps, and what is stored stays under what is sealed.
file_added :
    (a b m n s k : ℕ)
    → a ≤ b
    → b ≤ 141
    → m ≤ n
    → n + 15 * s * suc k < 18446744073709551616
    → 141 * s < 18446744073709551616
    → (u64 (m + u64 (a * s) / 10) ≤ u64 (n + u64 (b * s) / 10))
      × (u64 (n + u64 (b * s) / 10) + 15 * s * k < 18446744073709551616)
file_added a b m n s k le most under room small =
    let fewer = scaled a b s le in
    let bounded = scaled b 141 s most in
    let last : 15 * s * suc k ≡ 15 * s * k + 15 * s = grind arith in (omega arith, omega arith)

loop_covered :
    (t s : ℕ) (ps : List ℕ) (m n : ℕ)
    → All IsCovered ps
    → m ≤ n
    → n + 15 * s * length ps < 18446744073709551616
    → 141 * s < 18446744073709551616
    → (stored : ℕ) × (sealing : ℕ) × (space_use_from fs_overhead_finalized t s m ps ≡ some stored)
      × (space_use_from fs_overhead_seal t s n ps ≡ some sealing)
      × (stored ≤ sealing)
unfolding space_use_from
loop_covered t s [] m n covered under room small = (m, n, refl, refl, under)
loop_covered t s (p ∷ ps) m n covered under room small = elim (Bool-cases (has t p)) [
  | inr absent ↦
      let later : n + 15 * s * length ps < 18446744073709551616 = less_room in
      rw absent (loop_covered t s ps m n covered.1 under later small)
  | inl present ↦
      let c = covered.0 in
      let (under', room') =
        file_added c.stored c.sealing m n s (length ps) c.less c.most under room small in
      rw (present, c.stored_eq, c.sealing_eq)
        (loop_covered t s ps (u64 (m + u64 (c.stored * s) / 10))
          (u64 (n + u64 (c.sealing * s) / 10)) covered.1 under' room' small)
]
  where
    less_room : n + 15 * s * length ps < 18446744073709551616
    less_room =
        let last : 15 * s * suc (length ps) ≡ 15 * s * length ps + 15 * s = grind arith in
        omega (arith, room)

overheads-IsCovered :
    (a b p : ℕ)
    → fs_overhead_finalized p ≡ some a
    → fs_overhead_seal p ≡ some b
    → a ≤ b
    → b ≤ 141
    → IsCovered p
overheads-IsCovered a b p stored_eq sealing_eq less most = record {
  stored = a;
  sealing = b;
  stored_eq = stored_eq;
  sealing_eq = sealing_eq;
  less = less;
  most = most;
}

path_types-IsCovered : All IsCovered path_types
unfolding fs_overhead_seal fs_overhead_finalized
path_types-IsCovered = (
  overheads-IsCovered 10 10 _ refl refl (omega arith) (omega arith),
  (
    overheads-IsCovered 10 10 _ refl refl (omega arith) (omega arith),
    (
      overheads-IsCovered 1 141 _ refl refl (omega arith) (omega arith),
      (
        overheads-IsCovered 10 10 _ refl refl (omega arith) (omega arith),
        (overheads-IsCovered 1 21 _ refl refl (omega arith) (omega arith), tt),
      ),
    ),
  ),
)

-- For a sector size below 2 ^ 56 and any set of file types, neither space computation is an error,
-- and a sealed sector that is finalized takes no more space than while it was sealed.
pub store_space_use-seal_space_use :
    (t ssize : ℕ)
    → ssize < 72057594037927936
    → (stored : ℕ) × (sealing : ℕ) × (store_space_use t ssize ≡ some stored)
      × (seal_space_use t ssize ≡ some sealing)
      × (stored ≤ sealing)
unfolding store_space_use seal_space_use
store_space_use-seal_space_use t ssize small =
    loop_covered t ssize path_types 0 0 path_types-IsCovered (omega arith)
      (let last : 15 * ssize * 5 ≡ 75 * ssize = grind arith in omega arith) (omega arith)
