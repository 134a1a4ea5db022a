-- ===== src/Memory/Statistics.antt =====
-- `Stat`: the frames in use, counted line by line.
use duvuvurkarpogeschel.Prelude.{
  ℕ, zero, suc, ◌+◌, ◌-◌, ◌*◌, ◌/◌, ◌%◌, ◌≤◌, ◌≡◌, refl, if◌then◌else◌, arith, All, ◌<◌,
}
use duvuvurkarpogeschel.Prelude.Bits.{bit, bit-le-one}
use duvuvurkarpogeschel.Memory.{BitmapMemoryManager, get_bit, count_ones, sum_lines, stat}
use duvuvurkarpogeschel.Memory.Line.{IsWellFormed, IsWord, get_bit_lem, line_of}

-- How many of the `n` frames from `start` on are in use.
pub count_used : BitmapMemoryManager → ℕ → ℕ → ℕ
count_used m start zero = 0
count_used m start (suc n) = (if get_bit m (start + n) then 1 else 0) + count_used m start n

module _ (m : BitmapMemoryManager) where
  count_used-add :
      (start a b : ℕ)
      → count_used m start (b + a) ≡ count_used m start a + count_used m (start + a) b
  unfolding count_used
  count_used-add start a zero = let e : 0 + a ≡ a = omega arith in rw e (omega arith)
  count_used-add start a (suc b) =
      let e : suc b + a ≡ suc (b + a) = omega arith in
      let at : start + (b + a) ≡ start + a + b = omega arith in
      rw (e, at) (omega (arith, count_used-add start a b))

  line_bit :
      (i j : ℕ)
      → All IsWord m.alloc_map
      → j < 64
      → bit (line_of m i) j ≡ (if get_bit m (64 * i + j) then 1 else 0)
  line_bit i j h k =
      let line : (64 * i + j) / 64 ≡ i = omega arith in
      let place : (64 * i + j) % 64 ≡ j = omega arith in
      rw (get_bit_lem m (64 * i + j) h, line, place) (ground (arith, bit-le-one (line_of m i) j))

  count_ones-eq-count_used :
      (i width : ℕ)
      → All IsWord m.alloc_map
      → width ≤ 64
      → count_ones width (line_of m i) ≡ count_used m (64 * i) width
  unfolding count_ones count_used
  count_ones-eq-count_used i zero h k = refl
  count_ones-eq-count_used i (suc width) h k =
      omega
        (arith, line_bit i width h (omega arith), count_ones-eq-count_used i width h (omega arith))

  sum_lines-eq-count_used :
      (left i : ℕ) → All IsWord m.alloc_map → sum_lines m left i ≡ count_used m (64 * i) (64 * left)
  unfolding sum_lines
  sum_lines-eq-count_used zero i h = unfold count_used in refl
  sum_lines-eq-count_used (suc left) i h =
      let total : 64 * suc left ≡ 64 * left + 64 = omega arith in
      let next : 64 * (i + 1) ≡ 64 * i + 64 = omega arith in
      rw (total, count_used-add (64 * i) 64 (64 * left))
        (omega (
          arith,
          count_ones-eq-count_used i 64 h (omega arith),
          rw next at (sum_lines-eq-count_used left (i + 1) h),
        ))

  -- `Stat` counts the frames in use from the line of the range's first frame up to the line of its
  -- end, whole lines only: so those below the range in its first line too, and none of the line
  -- that the range ends in. The total is the length of the range.
  pub stat_lem :
      IsWellFormed m
      → ((stat m).0
          ≡ count_used m (64 * (m.range_begin / 64)) (64 * (m.range_end / 64 - m.range_begin / 64)))
        × ((stat m).1 ≡ m.range_end - m.range_begin)
  unfolding stat
  stat_lem v = (
    sum_lines-eq-count_used (m.range_end / 64 - m.range_begin / 64) (m.range_begin / 64) v.words,
    omega (arith, v.mapped, v.addressable, v.ordered),
  )
