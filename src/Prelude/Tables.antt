-- ===== src/Prelude/Tables.antt =====
-- Laws of the bit operations on small numbers, checked at all of them.
use Prim.Native.Nat.{ℕ, zero, suc, ◌<◌}
use mathlib.Core.Path.{◌≡◌, ap, ◌∙◌}
use mathlib.Core.Bool.{Bool, true}
use mathlib.Core.Logic.{inl, inr}
use mathlib.Core.List.{List, [], ◌∷◌}
use native.Mathlib.Omega.{arith}
use venus_sealer.Prelude.Tests.{◌==◌, ==_iff, Bool-cases, and-true}
use venus_sealer.Prelude.Lists.{all}

-- The numbers under a bound, the largest first.
abbrev pub numbers_under : ℕ → List ℕ
numbers_under zero = []
numbers_under (suc top) = top ∷ numbers_under top

-- A test that a list of numbers passes holds of each number under the bound.
pub listed :
    (top : ℕ) (test : ℕ → Bool) (i : ℕ)
    → i < top
    → all test (numbers_under top) ≡ true
    → test i ≡ true
listed zero test i under passed = absurd (omega arith)
listed (suc top) test i under passed =
    let (newest, others) = and-true (test top) (all test (numbers_under top)) passed in
    elim (Bool-cases (i == top)) [
      | inl is_top ↦ ap test ((==_iff i top).0 is_top) ∙ newest
      | inr lower ↦ listed top test i (ground arith) others
    ]

-- The test holds of any two numbers under the bounds.
abbrev pub pair_test : ℕ → ℕ → (ℕ → ℕ → Bool) → Bool
pair_test m n test = all (λ a. all (test a) (numbers_under n)) (numbers_under m)

pub of_pair :
    (m n : ℕ) (test : ℕ → ℕ → Bool) (a b : ℕ)
    → a < m
    → b < n
    → pair_test m n test ≡ true
    → test a b ≡ true
of_pair m n test a b p q passed =
    listed n (test a) b q (listed m (λ k. all (test k) (numbers_under n)) a p passed)
