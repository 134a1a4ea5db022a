-- ===== src/Prelude/Bits.antt =====
-- `&`, `|` and `~` of machine words read bit by bit, at every width.
use Prim.Native.Nat.{
  ℕ, zero, suc, ◌+◌, ◌-◌, ◌*◌, ◌/◌, ◌%◌, ◌^◌, ◌≤◌, ◌<◌, min, max, bit_and, bit_or, digits,
  bit_and-bitwise, bit_or-bitwise,
}
use mathlib.Core.Path.{◌≡◌, refl, sym, ap, ◌∙◌}
use mathlib.Core.Logic.{◌≢◌}
use native.Mathlib.Nat.{pow-suc}
use native.Mathlib.Omega.{arith}
use native.Mathlib.Decide.{ℕ_discrete}

-- Bit `i` of `w`, as 0 or 1.
abbrev pub bit : ℕ → ℕ → ℕ
bit w zero = w % 2
bit w (suc i) = bit (w / 2) i

-- `&` and `|` walk the digits on as much fuel as the left word is large. They differ in what they
-- make of two digits, and of what is left of the right word.
module _ (rest : ℕ → ℕ) (join : ℕ → ℕ → ℕ) where
  settled : (k w v : ℕ) → w ≤ k → digits rest join (suc k) w v ≡ digits rest join k w v
  settled k zero v h = elim k as (λ n. digits rest join (suc n) 0 v ≡ digits rest join n 0 v) [
    | zero ↦ refl
    | suc n ↦ refl
  ]
  settled zero (suc w) v h = absurd (omega arith)
  settled (suc k) (suc w) v h =
      ap (λ high. high * 2 + join (suc w % 2) (v % 2)) (settled k (suc w / 2) (v / 2) (omega arith))

  spare : (l k w v : ℕ) → w ≤ k → k ≤ l → digits rest join l w v ≡ digits rest join k w v
  spare zero k w v h below = rw (le_zero k below)
    where
      le_zero : (k : ℕ) → k ≤ 0 → k ≡ 0
      le_zero k below = omega arith
  spare (suc l) k w v h below = elim (ℕ_discrete k (suc l)) [
    | yes same ↦ rw same
    | no less ↦ settled l w v (omega arith) ∙ spare l k w v h (omega arith)
  ]

  -- One digit of the walk, from the left word's own fuel to that of its half.
  walk_step :
      (w v : ℕ)
      → (rest v ≡ rest (v / 2) * 2 + join 0 (v % 2))
      → digits rest join w w v ≡ digits rest join (w / 2) (w / 2) (v / 2) * 2 + join (w % 2) (v % 2)
  walk_step zero v low = low
  walk_step (suc w) v low =
      ap (λ high. high * 2 + join (suc w % 2) (v % 2))
        (spare w (suc w / 2) (suc w / 2) (v / 2) (omega arith) (omega arith))

pub bit_and_halves : (w v : ℕ) → bit_and w v ≡ bit_and (w / 2) (v / 2) * 2 + min (w % 2) (v % 2)
bit_and_halves w v =
    bit_and-bitwise w v
    ∙ walk_step (λ v. 0) min w v (omega arith)
    ∙ ap (λ high. high * 2 + min (w % 2) (v % 2)) (sym (bit_and-bitwise (w / 2) (v / 2)))

pub bit_or_halves : (w v : ℕ) → bit_or w v ≡ bit_or (w / 2) (v / 2) * 2 + max (w % 2) (v % 2)
bit_or_halves w v =
    bit_or-bitwise w v
    ∙ walk_step (λ v. v) max w v (omega arith)
    ∙ ap (λ high. high * 2 + max (w % 2) (v % 2)) (sym (bit_or-bitwise (w / 2) (v / 2)))

pub zero-bit_and : (v : ℕ) → bit_and 0 v ≡ 0
zero-bit_and v = bit_and-bitwise 0 v

pub halve-pow : (n : ℕ) → 2 ^ suc n ≡ 2 * 2 ^ n
halve-pow n = omega (arith, pow-suc 2 n)

pub bit-le-one : (w i : ℕ) → bit w i ≤ 1
bit-le-one w zero = omega arith
bit-le-one w (suc i) = bit-le-one (w / 2) i

half-bit_or : (a b : ℕ) → bit_or a b / 2 ≡ bit_or (a / 2) (b / 2)
half-bit_or a b = omega (arith, bit_or_halves a b)

half-bit_and : (a b : ℕ) → bit_and a b / 2 ≡ bit_and (a / 2) (b / 2)
half-bit_and a b = omega (arith, bit_and_halves a b)

pub bit-bit_or : (a b i : ℕ) → bit (bit_or a b) i ≡ max (bit a i) (bit b i)
bit-bit_or a b zero = omega (arith, bit_or_halves a b)
bit-bit_or a b (suc i) = rw (half-bit_or a b) (bit-bit_or (a / 2) (b / 2) i)

pub bit-bit_and : (a b i : ℕ) → bit (bit_and a b) i ≡ min (bit a i) (bit b i)
bit-bit_and a b zero = omega (arith, bit_and_halves a b)
bit-bit_and a b (suc i) = rw (half-bit_and a b) (bit-bit_and (a / 2) (b / 2) i)

zero-bit : (i : ℕ) → bit 0 i ≡ 0
zero-bit zero = refl
zero-bit (suc i) = zero-bit i

half-pow : (k : ℕ) → 2 ^ suc k / 2 ≡ 2 ^ k
half-pow k = omega (arith, halve-pow k)

pub bit-pow_self : (k : ℕ) → bit (2 ^ k) k ≡ 1
bit-pow_self zero = refl
bit-pow_self (suc k) = rw (half-pow k) (bit-pow_self k)

pub bit-pow_ne : (k i : ℕ) → k ≢ i → bit (2 ^ k) i ≡ 0
bit-pow_ne zero zero h = absurd (h refl)
bit-pow_ne zero (suc i) h = zero-bit i
bit-pow_ne (suc k) zero h = omega (arith, halve-pow k)
bit-pow_ne (suc k) (suc i) h = rw (half-pow k) (bit-pow_ne k i (λ e. h (omega arith)))

half-complement : (n x : ℕ) → (2 ^ suc n - 1 - x) / 2 ≡ 2 ^ n - 1 - x / 2
half-complement n x = omega (arith, halve-pow n)

-- `~x` in `n` bits is `2 ^ n - 1 - x`.
pub bit-complement : (n x i : ℕ) → x < 2 ^ n → i < n → bit (2 ^ n - 1 - x) i ≡ 1 - bit x i
bit-complement zero x i fits h = absurd (omega arith)
bit-complement (suc n) x zero fits h = omega (arith, halve-pow n)
bit-complement (suc n) x (suc i) fits h =
    rw (half-complement n x) (bit-complement n (x / 2) i (omega (arith, halve-pow n)) (omega arith))

pub bit_or-lt : (n a b : ℕ) → a < 2 ^ n → b < 2 ^ n → bit_or a b < 2 ^ n
bit_or-lt zero zero zero p q = omega arith
bit_or-lt zero zero (suc b) p q = absurd (omega arith)
bit_or-lt zero (suc a) b p q = absurd (omega arith)
bit_or-lt (suc n) a b p q = omega (
  arith,
  halve-pow n,
  bit_or_halves a b,
  bit_or-lt n (a / 2) (b / 2) (omega (arith, halve-pow n)) (omega (arith, halve-pow n)),
)

pub bit_and-lt : (n a b : ℕ) → a < 2 ^ n → bit_and a b < 2 ^ n
bit_and-lt zero zero b p = omega (arith, zero-bit_and b)
bit_and-lt zero (suc a) b p = absurd (omega arith)
bit_and-lt (suc n) a b p = omega (
  arith,
  halve-pow n,
  bit_and_halves a b,
  bit_and-lt n (a / 2) (b / 2) (omega (arith, halve-pow n)),
)

bit_and-zero : (n a : ℕ) → a < 2 ^ n → bit_and a 0 ≡ 0
bit_and-zero zero zero p = refl
bit_and-zero zero (suc a) p = absurd (omega arith)
bit_and-zero (suc n) a p =
    omega (arith, bit_and_halves a 0, bit_and-zero n (a / 2) (omega (arith, halve-pow n)))

bit_and_pow_step : (w i : ℕ) → bit_and w (2 ^ suc i) ≡ 2 * bit_and (w / 2) (2 ^ i)
bit_and_pow_step w i = omega (arith, rw (half-pow i) at (bit_and_halves w (2 ^ suc i)), halve-pow i)

-- The test `w & (1 << i)` is non-zero exactly when bit `i` is set.
pub bit_and-pow : (n w i : ℕ) → w < 2 ^ n → bit_and w (2 ^ i) ≡ bit w i * 2 ^ i
bit_and-pow zero zero i p = grind (arith, zero-bit_and (2 ^ i), zero-bit i)
bit_and-pow zero (suc w) i p = absurd (omega arith)
bit_and-pow (suc n) w zero p =
    omega (arith, bit_and_halves w 1, bit_and-zero n (w / 2) (omega (arith, halve-pow n)))
bit_and-pow (suc n) w (suc i) p = grind (
  arith,
  bit_and_pow_step w i,
  halve-pow i,
  bit_and-pow n (w / 2) i (omega (arith, halve-pow n)),
  ap (λ (t : ℕ). bit (w / 2) i * t) (halve-pow i),
)
