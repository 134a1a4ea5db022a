-- ===== src/Memory/Line.antt =====
-- One frame's bit: `GetBit` after `SetBit`, and the shape of the bitmap.
use duvuvurkarpogeschel.Prelude.{
  length-replicate, replicate-All, get_or-replicate, ℕ, ◌-◌, ◌*◌, ◌/◌, ◌%◌, ◌^◌, ◌≤◌, ◌<◌, ◌≡◌, ◌≢◌,
  refl, Bool, true, false, not, ◌==◌, if◌then◌else◌, get_or, set, length, bit_and, bit_or, arith,
  length-set, All, get_or-All, set-All, get_or-set_self, get_or-set_ne, ℕ_discrete,
}
use duvuvurkarpogeschel.Prelude.Bits.{
  zero-bit_and, bit, bit-bit_or, bit-bit_and, bit-pow_self, bit-pow_ne, bit-complement, bit_or-lt,
  bit_and-lt, bit_and-pow, bit-le-one,
}
use duvuvurkarpogeschel.Prelude.Words.{word}
use duvuvurkarpogeschel.Memory.{
  BitmapMemoryManager, get_bit, set_bit, bits_per_map_line, new_manager, line_count, frame_count,
}
use native.Mathlib.Nat.{one-le-pow, pow-le-pow_right}

abbrev pub IsWord : ℕ → Type 0
IsWord w = w < word

-- The lines are words, and the range lies in the bitmap and in the address space.
pub record IsWellFormed (m : BitmapMemoryManager) : Type 0 where
  pub words : All IsWord m.alloc_map
  pub ordered : m.range_begin ≤ m.range_end
  pub mapped : m.range_end ≤ bits_per_map_line * length m.alloc_map
  pub addressable : bits_per_map_line * length m.alloc_map < word

abbrev pub line_of : BitmapMemoryManager → ℕ → ℕ
line_of m line_index = get_or m.alloc_map line_index 0

line_of-IsWord : (m : BitmapMemoryManager) (i : ℕ) → All IsWord m.alloc_map → line_of m i < word
line_of-IsWord m i h = get_or-All IsWord m.alloc_map i 0 h (omega arith)

pow-lt-word : (i : ℕ) → i < 64 → 2 ^ i < word
pow-lt-word i h =
    omega (arith, pow-le-pow_right {n = 2} (omega arith) {i = i} {j = 63} (omega arith))

test_lem : (w i : ℕ) → w < word → (bit_and w (2 ^ i) == 0) ≡ (bit w i == 0)
test_lem w i h = grind (arith, bit_and-pow 64 w i h, bit-le-one w i, one-le-pow i 2)

pub get_bit_lem :
    (m : BitmapMemoryManager) (f : ℕ)
    → All IsWord m.alloc_map
    → get_bit m f ≡ not (bit (line_of m (f / 64)) (f % 64) == 0)
unfolding get_bit
get_bit_lem m f h = rw (test_lem (line_of m (f / 64)) (f % 64) (line_of-IsWord m (f / 64) h))

-- The word that `SetBit` writes.
abbrev set_line : ℕ → ℕ → Bool → ℕ
set_line w i b = if b then bit_or w (2 ^ i) else bit_and w (word - 1 - 2 ^ i)

set_line_self : (w i : ℕ) (b : Bool) → i < 64 → not (bit (set_line w i b) i == 0) ≡ b
set_line_self w i true h = grind (arith, bit-bit_or w (2 ^ i) i, bit-pow_self i, bit-le-one w i)
set_line_self w i false h = grind (
  arith,
  bit-bit_and w (word - 1 - 2 ^ i) i,
  bit-complement 64 (2 ^ i) i (pow-lt-word i h) h,
  bit-pow_self i,
)

set_line-ne : (w i j : ℕ) (b : Bool) → i < 64 → j < 64 → i ≢ j → bit (set_line w i b) j ≡ bit w j
set_line-ne w i j true h k ne = omega (arith, bit-bit_or w (2 ^ i) j, bit-pow_ne i j ne)
set_line-ne w i j false h k ne = omega (
  arith,
  bit-bit_and w (word - 1 - 2 ^ i) j,
  bit-complement 64 (2 ^ i) j (pow-lt-word i h) k,
  bit-pow_ne i j ne,
  bit-le-one w j,
)

set_line-IsWord : (w i : ℕ) (b : Bool) → w < word → i < 64 → set_line w i b < word
set_line-IsWord w i true h k = bit_or-lt 64 w (2 ^ i) h (pow-lt-word i k)
set_line-IsWord w i false h k = bit_and-lt 64 w (word - 1 - 2 ^ i) h

alloc_map-set_bit :
    (m : BitmapMemoryManager) (f : ℕ) (b : Bool)
    → (set_bit m f b).alloc_map
      ≡ set m.alloc_map (f / 64) (set_line (line_of m (f / 64)) (f % 64) b)
unfolding set_bit
alloc_map-set_bit m f true = refl
alloc_map-set_bit m f false = refl

set_bit-words :
    (m : BitmapMemoryManager) (f : ℕ) (b : Bool)
    → All IsWord m.alloc_map
    → All IsWord (set_bit m f b).alloc_map
set_bit-words m f b h = rw (alloc_map-set_bit m f b) (
    set-All IsWord m.alloc_map (f / 64) _ h
      (set_line-IsWord (line_of m (f / 64)) (f % 64) b (line_of-IsWord m (f / 64) h) (omega arith)))

pub length-set_bit :
    (m : BitmapMemoryManager) (f : ℕ) (b : Bool)
    → length (set_bit m f b).alloc_map ≡ length m.alloc_map
length-set_bit m f b = rw (alloc_map-set_bit m f b) (length-set m.alloc_map (f / 64) _)

pub range_begin-set_bit :
    (m : BitmapMemoryManager) (f : ℕ) (b : Bool) → (set_bit m f b).range_begin ≡ m.range_begin
unfolding set_bit
range_begin-set_bit m f true = refl
range_begin-set_bit m f false = refl

pub range_end-set_bit :
    (m : BitmapMemoryManager) (f : ℕ) (b : Bool) → (set_bit m f b).range_end ≡ m.range_end
unfolding set_bit
range_end-set_bit m f true = refl
range_end-set_bit m f false = refl

-- Writing one frame's bit keeps the bitmap's shape and the range.
pub set_bit-IsWellFormed :
    (m : BitmapMemoryManager) (f : ℕ) (b : Bool) → IsWellFormed m → IsWellFormed (set_bit m f b)
set_bit-IsWellFormed m f b v = record {
  words = set_bit-words m f b v.words;
  ordered = omega (arith, range_begin-set_bit m f b, range_end-set_bit m f b);
  mapped = omega (arith, v.mapped, length-set_bit m f b, range_end-set_bit m f b);
  addressable = omega (arith, v.addressable, length-set_bit m f b);
}

pub get_bit-set_bit :
    (m : BitmapMemoryManager) (f : ℕ) (b : Bool) (g : ℕ)
    → IsWellFormed m
    → f < bits_per_map_line * length m.alloc_map
    → get_bit (set_bit m f b) g ≡ (if f == g then b else get_bit m g)
get_bit-set_bit m f b g v h =
    rw
      (
        get_bit_lem (set_bit m f b) g (set_bit-words m f b v.words),
        get_bit_lem m g v.words,
        alloc_map-set_bit m f b,
      )
      (elim (ℕ_discrete f g) [
        | yes same ↦ ground (
          arith,
          get_or-set_self m.alloc_map (f / 64) (set_line (line_of m (f / 64)) (f % 64) b) 0
              (omega arith),
          set_line_self (line_of m (f / 64)) (f % 64) b (omega arith),
        )
        | no other ↦ elim (ℕ_discrete (f / 64) (g / 64)) [
          | yes line ↦ ground (
            arith,
            get_or-set_self m.alloc_map (f / 64) (set_line (line_of m (f / 64)) (f % 64) b) 0
                (omega arith),
            set_line-ne (line_of m (f / 64)) (f % 64) (g % 64) b (omega arith) (omega arith)
                (omega arith),
          )
          | no apart ↦ ground (
            arith,
            get_or-set_ne m.alloc_map (f / 64) (g / 64) (set_line (line_of m (f / 64)) (f % 64) b) 0
                apart,
          )
        ]
      ])

line_count_lem : bits_per_map_line * line_count ≡ frame_count
unfolding line_count
line_count_lem = refl

-- The constructor's bitmap is well-formed, and has every frame free.
pub new_manager-lines : bits_per_map_line * length new_manager.alloc_map ≡ frame_count
unfolding new_manager
new_manager-lines = rw (length-replicate {A = ℕ} line_count 0) line_count_lem

pub new_manager-IsWellFormed : IsWellFormed new_manager
unfolding new_manager
new_manager-IsWellFormed = record {
  words = replicate-All IsWord line_count 0 (omega arith);
  ordered = omega arith;
  mapped = omega (arith, new_manager-lines);
  addressable = omega (arith, new_manager-lines);
}

pub get_bit-new_manager : (f : ℕ) → get_bit new_manager f ≡ false
unfolding get_bit new_manager
get_bit-new_manager f =
    rw (get_or-replicate {A = ℕ} line_count (f / 64) 0, zero-bit_and (2 ^ (f % 64)))
