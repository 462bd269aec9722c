-- ===== src/Base/Counting.antt =====
-- How often a number occurs in a list.
use Prim.Native.Nat.{ℕ, ◌+◌}
use mathlib.Core.Path.{◌≡◌}
use mathlib.Core.List.{List, [], ◌∷◌, ◌++◌}
use native.Mathlib.Omega.{arith}
use schoolstuff.Base.Tests.{◌==◌, if◌then◌else◌}

abbrev pub count : ℕ → List ℕ → ℕ
count i [] = 0
count i (k ∷ ks) = (if k == i then 1 else 0) + count i ks

pub count-middle :
    (i k : ℕ) (xs ys : List ℕ)
    → count i (xs ++ k ∷ ys) ≡ count i (xs ++ ys) + (if k == i then 1 else 0)
count-middle i k [] ys = omega arith
count-middle i k (x ∷ xs) ys = omega (arith, count-middle i k xs ys)
