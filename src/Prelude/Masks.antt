-- ===== src/Prelude/Masks.antt =====
-- Masks and shifts as arithmetic: what `&` and `|` make of words whose digits do not meet.
use Prim.Native.Nat.{ℕ, zero, suc, ◌+◌, ◌-◌, ◌*◌, ◌/◌, ◌%◌, ◌^◌, ◌≤◌, ◌<◌, bit_and, bit_or}
use mathlib.Core.Path.{◌≡◌, refl, ap, ◌∙◌}
use native.Mathlib.Omega.{arith}
use duvuvurkarpogeschel.Prelude.Bits.{bit_and_halves, bit_or_halves, halve-pow}

double : (a k : ℕ) → a * 2 ^ suc k ≡ 2 * (a * 2 ^ k)
double a k = grind (arith, halve-pow k)

bit_or-zero_fuel : (n a : ℕ) → a ≤ n → bit_or a 0 ≡ a
bit_or-zero_fuel n zero h = refl
bit_or-zero_fuel zero (suc a) h = absurd (omega (arith, h))
bit_or-zero_fuel (suc n) (suc a) h =
    omega (arith, bit_or_halves (suc a) 0, bit_or-zero_fuel n (suc a / 2) (omega (arith, h)))

pub bit_or-zero : (a : ℕ) → bit_or a 0 ≡ a
bit_or-zero a = bit_or-zero_fuel a a (omega arith)

-- A word above `k` bits and one within them.
pub bit_or-shift : (k a b : ℕ) → b < 2 ^ k → bit_or (a * 2 ^ k) b ≡ a * 2 ^ k + b
bit_or-shift zero a b h =
    let none : b ≡ 0 = omega (arith, h) in
    let one : a * 2 ^ 0 ≡ a = omega arith in rw (none, one) (bit_or-zero a ∙ omega arith)
bit_or-shift (suc k) a b h =
    let half : a * 2 ^ suc k / 2 ≡ a * 2 ^ k = omega (arith, double a k) in
    omega (
      arith,
      double a k,
      bit_or_halves (a * 2 ^ suc k) b,
      ap (λ w. bit_or w (b / 2)) half,
      bit_or-shift k a (b / 2) (omega (arith, h, halve-pow k)),
    )

-- A mask of `n` ones.
pub bit_and_ones : (n a : ℕ) → a < 2 ^ n → bit_and a (2 ^ n - 1) ≡ a
bit_and_ones zero a h = let none : a ≡ 0 = omega (arith, h) in rw none refl
bit_and_ones (suc n) a h = omega (
  arith,
  halve-pow n,
  bit_and_halves a (2 ^ suc n - 1),
  ap (bit_and (a / 2)) (half-ones n),
  bit_and_ones n (a / 2) (omega (arith, h, halve-pow n)),
)
  where
    half-ones : (n : ℕ) → (2 ^ suc n - 1) / 2 ≡ 2 ^ n - 1
    half-ones n = omega (arith, halve-pow n)

bit_and-zero_fuel : (n a : ℕ) → a ≤ n → bit_and a 0 ≡ 0
bit_and-zero_fuel n zero h = refl
bit_and-zero_fuel zero (suc a) h = absurd (omega (arith, h))
bit_and-zero_fuel (suc n) (suc a) h =
    omega (arith, bit_and_halves (suc a) 0, bit_and-zero_fuel n (suc a / 2) (omega (arith, h)))

-- A mask whose lowest `k` digits are 0.
pub bit_and-shift :
    (k a m q r : ℕ) → a ≡ q * 2 ^ k + r → r < 2 ^ k → bit_and a (m * 2 ^ k) ≡ bit_and q m * 2 ^ k
bit_and-shift zero a m q r h small =
    let same : a ≡ q = omega (arith, h, small) in
    let one : m * 2 ^ 0 ≡ m = omega arith in
    let all : bit_and q m * 2 ^ 0 ≡ bit_and q m = omega arith in rw (same, one, all) refl
bit_and-shift (suc k) a m q r h small =
    let half : m * 2 ^ suc k / 2 ≡ m * 2 ^ k = omega (arith, double m k) in
    omega (
      arith,
      double m k,
      double (bit_and q m) k,
      bit_and_halves a (m * 2 ^ suc k),
      ap (bit_and (a / 2)) half,
      bit_and-shift k (a / 2) m q (r / 2) (omega (arith, h, double q k))
          (omega (arith, small, halve-pow k)),
    )

-- Rounding down to a power of two.
pub bit_and_floor :
    (k n a : ℕ)
    → a / 2 ^ k < 2 ^ n
    → a ≡ a / 2 ^ k * 2 ^ k + a % 2 ^ k
    → a % 2 ^ k < 2 ^ k
    → bit_and a ((2 ^ n - 1) * 2 ^ k) ≡ a / 2 ^ k * 2 ^ k
bit_and_floor k n a fits split small =
    bit_and-shift k a (2 ^ n - 1) (a / 2 ^ k) (a % 2 ^ k) split small
    ∙ ap (λ w. w * 2 ^ k) (bit_and_ones n (a / 2 ^ k) fits)

-- A mask of the lowest digits, one digit after another.
pub bit_and_low : (k a q r : ℕ) → a ≡ q * 2 ^ k + r → r < 2 ^ k → bit_and a (2 ^ k - 1) ≡ r
bit_and_low zero a q r h small = omega (arith, bit_and-zero_fuel a a (omega arith), h, small)
bit_and_low (suc k) a q r h small =
    let half : (2 ^ suc k - 1) / 2 ≡ 2 ^ k - 1 = omega (arith, halve-pow k) in
    omega (
      arith,
      halve-pow k,
      double q k,
      bit_and_halves a (2 ^ suc k - 1),
      ap (bit_and (a / 2)) half,
      bit_and_low k (a / 2) q (r / 2) (omega (arith, h, double q k))
          (omega (arith, small, halve-pow k)),
    )
