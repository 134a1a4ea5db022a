-- ===== src/Usb/Pool/Blocks.antt =====
-- Where AllocMem puts a block.
use duvuvurkarpogeschel.Prelude.{
  ℕ, zero, suc, ◌+◌, ◌-◌, ◌*◌, ◌/◌, ◌%◌, ◌^◌, ◌<◌, ◌≤◌, ◌≡◌, ◌⊎◌, inl, inr, refl, sym, ap, ◌∙◌,
  true, none, some, ltb, bit_and, arith, Bool-cases,
}
use native.Mathlib.Nat.{
  div-add-mod, mod-lt, one-le-pow, lt_of_mul-lt-mul_right, mul_comm, mul_assoc,
}
use duvuvurkarpogeschel.Prelude.Bits.{halve-pow}
use duvuvurkarpogeschel.Prelude.Masks.{bit_and-shift, bit_and_ones}
use duvuvurkarpogeschel.Prelude.Words.{word, add_size}
use duvuvurkarpogeschel.Usb.Pool.{memory_pool_size, ceil, align, bound, alloc_mem}

pow-product : (j k : ℕ) → 2 ^ j * 2 ^ k ≡ 2 ^ (j + k)
pow-product zero k =
    let same : 0 + k ≡ k = omega arith in
    rw same (let one : 2 ^ 0 * 2 ^ k ≡ 2 ^ k = omega arith in one)
pow-product (suc j) k =
    let more : suc j + k ≡ suc (j + k) = omega arith in
    grind (arith, halve-pow j, halve-pow (j + k), pow-product j k, more)

-- An address at a power of two, and what is behind it.
record Split (k a : ℕ) : Type 0 where
  q : ℕ
  r : ℕ
  sum : a ≡ q * 2 ^ k + r
  small : r < 2 ^ k

pow-positive : (k : ℕ) → 0 < 2 ^ k
pow-positive k = let one = one-le-pow k 2 (omega arith) in omega (arith, one)

split : (k a : ℕ) → Split k a
split k a =
    let whole = div-add-mod a (2 ^ k) in
    record {
      q = a / 2 ^ k;
      r = a % 2 ^ k;
      sum = sym whole ∙ ap (λ p. p + a % 2 ^ k) (mul_comm (2 ^ k) (a / 2 ^ k));
      small = mod-lt a (pow-positive k);
    }

mask_of : (n p : ℕ) → 0 < n → 0 < p → n * p ≡ word → word - 1 - (p - 1) ≡ (n - 1) * p
mask_of zero p h k e = absurd (omega arith)
mask_of (suc n) p h k e =
    let rest : suc n * p ≡ n * p + p = grind arith in
    let same : suc n - 1 ≡ n = omega arith in rw same (omega (arith, e, rest, k))

-- The mask clears what is behind the last address at the power of two.
mask-floor :
    (j k a q r : ℕ)
    → j + k ≡ 64
    → a < word
    → a ≡ q * 2 ^ k + r
    → r < 2 ^ k
    → bit_and a (word - 1 - (2 ^ k - 1)) ≡ q * 2 ^ k
mask-floor j k a q r e small sum r_small =
    let whole : 2 ^ j * 2 ^ k ≡ word = pow-product j k ∙ ap (λ n. 2 ^ n) e in
    let fits : q < 2 ^ j = lt_of_mul-lt-mul_right (2 ^ k) (omega (arith, small, sum, whole)) in
    let mask : word - 1 - (2 ^ k - 1) ≡ (2 ^ j - 1) * 2 ^ k =
      mask_of (2 ^ j) (2 ^ k) (pow-positive j) (pow-positive k) whole in
    rw mask
      (bit_and-shift k a (2 ^ j - 1) q r sum r_small ∙ ap (λ w. w * 2 ^ k) (bit_and_ones j q fits))

-- The least multiple of the power of two that is not less.
record IsCeiling (k a c : ℕ) : Type 0 where
  q : ℕ
  multiple : c ≡ q * 2 ^ k
  above : a ≤ c
  near : c < a + 2 ^ k

ceil-IsCeiling : (j k a : ℕ) → j + k ≡ 64 → a + 2 ^ k ≤ word → IsCeiling k a (ceil a (2 ^ k))
unfolding ceil
ceil-IsCeiling j k a e fits =
    let positive = pow-positive k in
    let raised = a + (2 ^ k - 1) in
    let exact : add_size a (2 ^ k - 1) ≡ raised = omega (arith, fits, positive) in
    let s = split k raised in
    let floor : ceil a (2 ^ k) ≡ s.q * 2 ^ k =
      rw exact (mask-floor j k raised s.q s.r e (omega (arith, fits, positive)) s.sum s.small) in
    record {
      q = s.q;
      multiple = floor;
      above = omega (arith, floor, s.sum, s.small, positive);
      near = omega (arith, floor, s.sum, s.small, positive);
    }

abbrev pub IsMultiple : ℕ → ℕ → Type 0
IsMultiple n a = (q : ℕ) × (a ≡ q * n)

-- A block within one of the pieces that the multiples of a boundary cut memory in.
abbrev pub IsWithin : (boundary p size : ℕ) → Type 0
IsWithin boundary p size = (q : ℕ) × (q * boundary ≤ p) × (p + size ≤ q * boundary + boundary)

-- Where the block starts, for an address that is aligned.
record IsPlace (k b p size place : ℕ) : Type 0 where
  behind : p ≤ place
  near : place < p + 2 ^ b
  aligned : IsMultiple (2 ^ k) place
  within : IsWithin (2 ^ b) place size

IsMultiple-up : (k b q : ℕ) → k ≤ b → IsMultiple (2 ^ k) (q * 2 ^ b)
IsMultiple-up k b q h =
    let split : 2 ^ b ≡ 2 ^ (b - k) * 2 ^ k =
      ap (λ n. 2 ^ n) (let parts : b ≡ b - k + k = omega arith in parts)
      ∙ sym (pow-product (b - k) k) in
    (q * 2 ^ (b - k), ap (λ n. q * n) split ∙ sym (mul_assoc q (2 ^ (b - k)) (2 ^ k)))

ceil-IsWithin :
    (b p size c q : ℕ)
    → c ≡ q * 2 ^ b
    → c < p + 2 ^ b
    → 0 < size
    → p + size ≤ c
    → IsWithin (2 ^ b) p size
ceil-IsWithin b p size c zero m near some_size fits = absurd (omega (arith, m, some_size, fits))
ceil-IsWithin b p size c (suc q) m near some_size fits =
    let step : suc q * 2 ^ b ≡ q * 2 ^ b + 2 ^ b = grind arith in
    (q, omega (arith, m, near, step), omega (arith, m, fits, step))

bound-IsPlace :
    (j k b p size : ℕ)
    → j + b ≡ 64
    → k ≤ b
    → IsMultiple (2 ^ k) p
    → 0 < size
    → size ≤ 2 ^ b
    → p + 2 ^ b + size ≤ word
    → IsPlace k b p size (bound p size (2 ^ b))
unfolding bound
bound-IsPlace j k b p size e h aligned some_size short room =
    let c = ceil-IsCeiling j b p e (omega (arith, room)) in
    let positive = pow-positive b in
    let bounded : ltb 0 (2 ^ b) ≡ true = ground (arith, positive) in
    let exact : add_size p size ≡ p + size = omega (arith, room, positive) in
    elim (Bool-cases (ltb (ceil p (2 ^ b)) (p + size))) [
      | inl over ↦
          rw (bounded, exact, over)
            (record {
              behind = c.above;
              near = c.near;
              aligned = (let m = IsMultiple-up k b c.q h in (m.0, c.multiple ∙ m.1));
              within = (c.q, omega (arith, c.multiple), omega (arith, c.multiple, short));
            })
      | inr below ↦
          rw (bounded, exact, below)
            (record {
              behind = omega arith;
              near = omega (arith, positive);
              aligned = aligned;
              within =
                  ceil-IsWithin b p size (ceil p (2 ^ b)) c.q c.multiple c.near some_size
                    (ground (arith, below));
            })
    ]

-- The block of a pool far enough from the end of the address space: its size is not 0 and at most
-- the boundary, and alignment and boundary are powers of two, the boundary not the smaller one. Then
-- AllocMem returns a block that starts at or behind `alloc_ptr`, ends in the pool, is aligned and crosses no boundary,
-- and moves `alloc_ptr` to its end, so that no two blocks overlap. Or there is too little room: none is left for the
-- block with the alignment and the boundary to go over.
pub alloc_mem_lem :
    (memory_pool alloc_ptr size k b : ℕ)
    → k ≤ b
    → b ≤ 64
    → 0 < size
    → size ≤ 2 ^ b
    → alloc_ptr + 2 ^ k + 2 ^ b + size < word
    → memory_pool + memory_pool_size < word
    → let r = alloc_mem memory_pool alloc_ptr size (2 ^ k) (2 ^ b) in
      (r.0 ≡ none)
        × (alloc_ptr ≤ r.1)
        × (memory_pool + memory_pool_size < alloc_ptr + 2 ^ k + 2 ^ b + size)
      ⊎ (p : ℕ) × (r ≡ (some p, p + size))
        × (alloc_ptr ≤ p)
        × (p + size ≤ memory_pool + memory_pool_size)
        × IsMultiple (2 ^ k) p
        × IsWithin (2 ^ b) p size
unfolding alloc_mem align
alloc_mem_lem memory_pool alloc_ptr size k b h e some_size short room pool =
    let positive = pow-positive k in
    let start = ceil-IsCeiling (64 - k) k alloc_ptr (omega (arith, e, h)) (omega (arith, room)) in
    let c = ceil alloc_ptr (2 ^ k) in
    let place =
      bound-IsPlace (64 - b) k b c size (omega arith) h (start.q, start.multiple) some_size short
        (omega (arith, room, start.near)) in
    let p = bound c size (2 ^ b) in
    let some_alignment : ltb 0 (2 ^ k) ≡ true = ground (arith, positive) in
    let end : add_size p size ≡ p + size = omega (arith, room, start.near, place.near) in
    let pool_end : add_size memory_pool memory_pool_size ≡ memory_pool + memory_pool_size =
      omega (arith, pool) in
    elim (Bool-cases (ltb (memory_pool + memory_pool_size) (p + size))) [
      | inl over ↦ inl (
          rw (some_alignment, end, pool_end, over)
            (
              refl,
              omega (arith, start.above, place.behind),
              ground (arith, over, start.near, place.near),
            ))
      | inr fits ↦ inr (
        p,
        rw (some_alignment, end, pool_end, fits) refl,
        omega (arith, start.above, place.behind),
        ground (arith, fits),
        place.aligned,
        place.within,
      )
    ]
