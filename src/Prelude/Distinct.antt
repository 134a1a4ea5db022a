-- ===== src/Prelude/Distinct.antt =====
-- Lists of distinct numbers.
use Prim.Native.Nat.{ℕ, zero, suc, ◌≤◌, ◌<◌}
use mathlib.Core.Path.{◌≡◌, refl, sym}
use mathlib.Core.Logic.{◌≢◌}
use mathlib.Core.List.{List, [], ◌∷◌}
use native.Mathlib.Omega.{arith}
use native.Mathlib.Decide.{ℕ_discrete}
use duvuvurkarpogeschel.Prelude.Tests.{◌==◌, if◌then◌else◌}
use duvuvurkarpogeschel.Prelude.Lists.{length, All}

abbrev pub IsNotIn : ℕ → List ℕ → Type 0
IsNotIn i xs = All (λ x. x ≢ i) xs

abbrev pub IsDistinct : List ℕ → Type 0
IsDistinct [] = Unit
IsDistinct (x ∷ xs) = IsNotIn x xs × IsDistinct xs

abbrev pub without : ℕ → List ℕ → List ℕ
without k [] = []
without k (x ∷ xs) = if x == k then without k xs else x ∷ without k xs

pub IsNotIn-without : (i k : ℕ) (xs : List ℕ) → IsNotIn i xs → IsNotIn i (without k xs)
IsNotIn-without i k [] h = tt
IsNotIn-without i k (x ∷ xs) h = ground (arith, h.0, IsNotIn-without i k xs h.1)

pub IsDistinct-without : (k : ℕ) (xs : List ℕ) → IsDistinct xs → IsDistinct (without k xs)
IsDistinct-without k [] h = tt
IsDistinct-without k (x ∷ xs) h =
    ground (arith, IsNotIn-without x k xs h.0, IsDistinct-without k xs h.1)

pub without_none : (k : ℕ) (xs : List ℕ) → IsNotIn k xs → length (without k xs) ≡ length xs
without_none k [] h = refl
without_none k (x ∷ xs) h = ground (arith, h.0, without_none k xs h.1)

length-without : (k : ℕ) (xs : List ℕ) → IsDistinct xs → length xs ≤ suc (length (without k xs))
length-without k [] h = omega arith
length-without k (x ∷ xs) h = elim (ℕ_discrete x k) [
  | yes same ↦ rw (sym same) (ground (arith, without_none x xs h.0))
  | no apart ↦ ground (arith, apart, length-without k xs h.1)
]

without-below : (k : ℕ) (xs : List ℕ) → All (λ x. x < suc k) xs → All (λ x. x < k) (without k xs)
without-below k [] h = tt
without-below k (x ∷ xs) h = ground (arith, h.0, without-below k xs h.1)

-- Distinct numbers below a bound are no more than the bound.
pub length-IsDistinct :
    (bound : ℕ) (xs : List ℕ) → IsDistinct xs → All (λ x. x < bound) xs → length xs ≤ bound
length-IsDistinct zero [] h k = omega arith
length-IsDistinct zero (x ∷ xs) h k = absurd (omega (arith, k.0))
length-IsDistinct (suc bound) xs h k =
    let rest =
      length-IsDistinct bound (without bound xs) (IsDistinct-without bound xs h)
        (without-below bound xs k) in
    omega (arith, rest, length-without bound xs h)
