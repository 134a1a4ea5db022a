-- ===== src/Memory/Marks.antt =====
-- The loops of `MarkAllocated` and `Free` over a run of frames.
use duvuvurkarpogeschel.Prelude.{
  ℕ, zero, suc, ◌+◌, ◌*◌, ◌≤◌, ◌≡◌, refl, Bool, true, false, ◌&&◌, if◌then◌else◌, leb, ltb, length,
  arith,
}
use duvuvurkarpogeschel.Prelude.Words.{add_size}
use duvuvurkarpogeschel.Memory.{
  BitmapMemoryManager, get_bit, set_bit, set_bits, mark_allocated, free, bits_per_map_line,
}
use duvuvurkarpogeschel.Memory.Line.{
  IsWellFormed, set_bit-IsWellFormed, get_bit-set_bit, length-set_bit, range_begin-set_bit,
  range_end-set_bit,
}

-- Frame `g` is one of the `n` frames from `start` on.
abbrev pub in_run : ℕ → ℕ → ℕ → Bool
in_run start n g = leb start g && ltb g (start + n)

-- What a loop over bits leaves alone.
pub record SameFrame (m' m : BitmapMemoryManager) : Type 0 where
  pub lines : length m'.alloc_map ≡ length m.alloc_map
  pub first : m'.range_begin ≡ m.range_begin
  pub last : m'.range_end ≡ m.range_end

set_bit-SameFrame : (m : BitmapMemoryManager) (f : ℕ) (b : Bool) → SameFrame (set_bit m f b) m
set_bit-SameFrame m f b = record {
  lines = length-set_bit m f b;
  first = range_begin-set_bit m f b;
  last = range_end-set_bit m f b;
}

set_bits-SameFrame :
    (m : BitmapMemoryManager) (start : ℕ) (b : Bool) (left i : ℕ)
    → SameFrame (set_bits m start b left i) m
unfolding set_bits
set_bits-SameFrame m start b zero i = record { lines = refl; first = refl; last = refl }
set_bits-SameFrame m start b (suc left) i = omega (
  arith,
  set_bit-SameFrame m (add_size start i) b,
  set_bits-SameFrame (set_bit m (add_size start i) b) start b left (i + 1),
)

set_bits-IsWellFormed :
    (m : BitmapMemoryManager) (start : ℕ) (b : Bool) (left i : ℕ)
    → IsWellFormed m
    → IsWellFormed (set_bits m start b left i)
unfolding set_bits
set_bits-IsWellFormed m start b zero i v = v
set_bits-IsWellFormed m start b (suc left) i v =
    set_bits-IsWellFormed (set_bit m (add_size start i) b) start b left (i + 1)
      (set_bit-IsWellFormed m (add_size start i) b v)

get_bit-set_bits :
    (m : BitmapMemoryManager) (start : ℕ) (b : Bool) (left i g : ℕ)
    → IsWellFormed m
    → start + i + left ≤ bits_per_map_line * length m.alloc_map
    → get_bit (set_bits m start b left i) g ≡ (if in_run (start + i) left g then b else get_bit m g)
unfolding set_bits
get_bit-set_bits m start b zero i g v h = ground arith
get_bit-set_bits m start b (suc left) i g v h = ground (
  arith,
  v.addressable,
  set_bit-SameFrame m (add_size start i) b,
  get_bit-set_bit m (add_size start i) b g v,
  get_bit-set_bits (set_bit m (add_size start i) b) start b left (i + 1) g
      (set_bit-IsWellFormed m (add_size start i) b v),
)

module _ (m : BitmapMemoryManager) (start n : ℕ) where
  pub mark_allocated-SameFrame : SameFrame (mark_allocated m start n) m
  unfolding mark_allocated
  mark_allocated-SameFrame = set_bits-SameFrame m start true n 0

  pub free-SameFrame : SameFrame (free m start n) m
  unfolding free
  free-SameFrame = set_bits-SameFrame m start false n 0

  pub mark_allocated-IsWellFormed : IsWellFormed m → IsWellFormed (mark_allocated m start n)
  unfolding mark_allocated
  mark_allocated-IsWellFormed = set_bits-IsWellFormed m start true n 0

  -- `Free` keeps the shape of the bitmap and the range.
  pub free-IsWellFormed : IsWellFormed m → IsWellFormed (free m start n)
  unfolding free
  free-IsWellFormed = set_bits-IsWellFormed m start false n 0

  pub get_bit-mark_allocated :
      (g : ℕ)
      → IsWellFormed m
      → start + n ≤ bits_per_map_line * length m.alloc_map
      → get_bit (mark_allocated m start n) g ≡ (if in_run start n g then true else get_bit m g)
  unfolding mark_allocated
  get_bit-mark_allocated g v h = ground (arith, get_bit-set_bits m start true n 0 g v (omega arith))

  pub get_bit-free :
      (g : ℕ)
      → IsWellFormed m
      → start + n ≤ bits_per_map_line * length m.alloc_map
      → get_bit (free m start n) g ≡ (if in_run start n g then false else get_bit m g)
  unfolding free
  get_bit-free g v h = ground (arith, get_bit-set_bits m start false n 0 g v (omega arith))
